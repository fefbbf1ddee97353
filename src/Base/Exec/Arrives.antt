-- ===== src/Base/Exec/Arrives.antt =====
-- What holds of the state in which a call returns; nothing is said where it raises.
use nite_pr.Base.Exec.{Outcome, ok, err, blocked, Exec, modify, continue, ◌>>=◌, ◌>>◌}
use nite_pr.Base.Exec.Keeps.{Ends, Keeps}

abbrev pub OnReturn : {E S A : Type 0} → (S → Type 0) → Outcome E A → S → Type 0
OnReturn Q (ok a) s = Q s
OnReturn Q (err e) s = Unit
OnReturn Q blocked s = Unit

pub record Arrives {E S A : Type 0} (Q : S → Type 0) (m : Exec E S A) : Type 0 where
  pub at : (s : S) → OnReturn Q (m s).0 (m s).1

module _ {E S A B : Type 0} {Q : S → Type 0} where
  continue-OnReturn :
      (f : A → Exec E S B) (r : Outcome E A) (s : S)
      → ((a : A) → Arrives Q (f a))
      → OnReturn Q (continue f r s).0 (continue f r s).1
  continue-OnReturn f (ok a) s next = (next a).at s
  continue-OnReturn f (err e) s next = tt
  continue-OnReturn f blocked s next = tt

  -- A block arrives where its end does.
  pub Arrives-bind :
      (m : Exec E S A) (f : A → Exec E S B) → ((a : A) → Arrives Q (f a)) → Arrives Q (m >>= f)
  unfolding ◌>>=◌
  Arrives-bind m f next = record { at = λ s. continue-OnReturn f (m s).0 (m s).1 next }

kept-OnReturn :
    {E S B : Type 0} (Q : S → Type 0) (r : Outcome E B) (s : S)
    → Ends Q (λ s. Unit {0}) r s
    → OnReturn Q r s
kept-OnReturn Q (ok b) s h = h
kept-OnReturn Q (err e) s h = tt
kept-OnReturn Q blocked s h = tt

module _ {E S B : Type 0} {Q : S → Type 0} where
  -- The state is set, and what follows keeps it.
  pub Arrives-modify :
      (f : S → S) (n : Exec E S B)
      → ((s : S) → Q (f s))
      → Keeps Q (λ s. Unit {0}) n
      → Arrives Q (modify f >> n)
  unfolding ◌>>=◌ modify
  Arrives-modify f n set keeps = record {
    at = λ s. kept-OnReturn Q (n (f s)).0 (n (f s)).1 (keeps.at (f s) (set s));
  }
