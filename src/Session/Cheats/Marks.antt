-- ===== src/Session/Cheats/Marks.antt =====
-- The names that a toggle leaves marked as switched on.
use nite_pr.Base.{ℕ, ◌≡◌, refl, Bool, true, false, not, List, [], ◌∷◌, keep, arith}
use nite_pr.Base.Text.{Text, eq_text, eq_text_refl, mem_text}
use nite_pr.Base.Exec.{Outcome, ok, err, blocked, Exec, continue, modify, ◌>>=◌}
use nite_pr.Errors.{Error}
use nite_pr.Transport.{Transport}
use nite_pr.Session.{Session}
use nite_pr.Session.Cheats.{marked, mark, cheat_toggle}

mem_text-keep :
    (name : Text) (names : List Text)
    → mem_text name (keep (λ n. not (eq_text name n)) names) ≡ false
unfolding mem_text
mem_text-keep name [] = refl
mem_text-keep name (n ∷ names) = ground (arith, mem_text-keep name names)

mem_text-marked :
    (enabled : Bool) (name : Text) (names : List Text)
    → mem_text name (marked enabled name names) ≡ enabled
unfolding mem_text
mem_text-marked true name names = ground (arith, eq_text_refl name)
mem_text-marked false name names = mem_text-keep name names

module _ {S : Type 0} (Q : S → Type 0) where
  -- `Q` holds of the state in which a call ends, if it returns.
  abbrev AtReturn : {A : Type 0} → Outcome Error A → S → Type 0
  AtReturn (ok a) s = Q s
  AtReturn (err e) s = Unit
  AtReturn blocked s = Unit

  -- It does so from every state.
  record Leaves {A : Type 0} (m : Exec Error S A) : Type 0 where
    at : (s : S) → AtReturn (m s).0 (m s).1

  continue-Leaves :
      {A B : Type 0} (f : A → Exec Error S B) (r : Outcome Error A) (s : S)
      → ((a : A) → Leaves (f a))
      → AtReturn (continue f r s).0 (continue f r s).1
  continue-Leaves f (ok a) s k = (k a).at s
  continue-Leaves f (err e) s k = tt
  continue-Leaves f blocked s k = tt

  -- The last step of a block decides.
  Leaves-bind :
      {A B : Type 0} (m : Exec Error S A) (f : A → Exec Error S B)
      → ((a : A) → Leaves (f a))
      → Leaves (m >>= f)
  unfolding ◌>>=◌
  Leaves-bind m f k = record { at = λ s. continue-Leaves f (m s).0 (m s).1 k }

  Leaves-modify : (f : S → S) → ((s : S) → Q (f s)) → Leaves (modify f)
  unfolding modify
  Leaves-modify f k = record { at = k }

  at_return : {A : Type 0} (r : Outcome Error A) (s : S) (a : A) → r ≡ ok a → AtReturn r s → Q s
  at_return (ok b) s a e q = q
  at_return (err x) s a e q = ground arith
  at_return blocked s a e q = ground arith

module _ {T : Type 0} (tr : Transport T) (me : ℕ) where
  IsMarked : Text → Bool → Session T → Type 0
  IsMarked name enabled s = mem_text name s.cheat_enabled ≡ enabled

  cheat_toggle-Leaves :
      (name : Text) (enabled : Bool)
      → Leaves (IsMarked name enabled) (cheat_toggle tr me name enabled)
  unfolding cheat_toggle IsMarked
  cheat_toggle-Leaves name enabled =
      let Q : Session T → Type 0 = IsMarked name enabled in
      Leaves-bind Q _ _ λ loaded. Leaves-bind Q _ _ λ cheat. Leaves-bind Q _ _ λ m.
        Leaves-bind Q _ _ λ up. Leaves-bind Q _ _ λ pid. Leaves-bind Q _ _ λ base.
          Leaves-bind Q _ _ λ done.
            Leaves-modify Q (mark enabled name) (λ s. mem_text-marked enabled name s.cheat_enabled)

  -- After a `cheat_toggle` that returns, the mod's name is among the enabled ones exactly when it
  -- was to be enabled.
  pub cheat_toggle_marks :
      (name : Text) (enabled : Bool) (s : Session T)
      → (cheat_toggle tr me name enabled s).0 ≡ ok tt
      → mem_text name (cheat_toggle tr me name enabled s).1.cheat_enabled ≡ enabled
  unfolding IsMarked
  cheat_toggle_marks name enabled s h =
      at_return (IsMarked name enabled) _ _ tt h ((cheat_toggle-Leaves name enabled).at s)
