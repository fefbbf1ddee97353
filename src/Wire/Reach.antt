-- ===== src/Wire/Reach.antt =====
-- Blocks of calls on a connection, by what they return and what they leave to be read.
use nite_pr.Base.{Bool, ◌≡◌, refl, ap, sym, subst}
use nite_pr.Base.Exec.{Outcome, ok, Exec, pure, lift, ◌>>=◌}
use nite_pr.Base.Exec.Steps.{bind-ok, catch-ok}
use nite_pr.Types.{Bytes}
use nite_pr.Wire.{Kind, Failure, lib, as_raised}
use nite_pr.Wire.Requests.{unsupported_if}
use nite_pr.Wire.Drain.{Leaves}

-- Called in state `s`, `m` returns `a` and leaves `rest` to be read.
pub record Reaches {S A : Type 0} (incoming : S → Bytes) (m : Exec Failure S A) (s : S) (a : A)
    (rest : Bytes) : Type 0 where
  pub at : Leaves incoming a rest (m s)

module _ {S A B : Type 0} {incoming : S → Bytes} where
  pub Reaches-bind :
      {m : Exec Failure S A} (f : A → Exec Failure S B) {s : S} {a : A} {b : B} {mid rest : Bytes}
      → Reaches incoming m s a mid
      → ((t : S) → incoming t ≡ mid → Reaches incoming (f a) t b rest)
      → Reaches incoming (m >>= f) s b rest
  Reaches-bind {m} f {s} {b} {rest} h next =
      let (got, left) = h.at in
      record {
        at = subst (Leaves incoming b rest) (sym (bind-ok m f s got)) (next (m s).1 left).at;
      }

  pub Reaches-bind-lift :
      {r : Outcome Failure A} (f : A → Exec Failure S B) {s : S} {a : A} {b : B} {rest : Bytes}
      → r ≡ ok a
      → Reaches incoming (f a) s b rest
      → Reaches incoming (lift r >>= f) s b rest
  unfolding lift
  Reaches-bind-lift {r} f {s} {b} {rest} got next = record {
    at = subst (Leaves incoming b rest) (sym (bind-ok (lift r) f s got)) next.at;
  }

module _ {S A : Type 0} {incoming : S → Bytes} where
  pub Reaches-pure :
      {s : S} {a : A} {rest : Bytes} → incoming s ≡ rest → Reaches incoming (pure a) s a rest
  unfolding pure
  Reaches-pure left = record { at = (refl, left) }

  pub Reaches-lib :
      (m : Exec Kind S A) {s : S} {a : A} {rest : Bytes}
      → ((m s).0 ≡ ok a) × (incoming (m s).1 ≡ rest)
      → Reaches incoming (lib m) s a rest
  unfolding lib
  Reaches-lib m (got, left) = record { at = (ap as_raised got, left) }

  pub Reaches-guarded :
      (test : Failure → Bool) {m : Exec Failure S A} {s : S} {a : A} {rest : Bytes}
      → Reaches incoming m s a rest
      → Reaches incoming (unsupported_if test m) s a rest
  Reaches-guarded test {m} {s} {a} {rest} h =
      let (got, left) = h.at in
      record { at = subst (Leaves incoming a rest) (sym (catch-ok m _ s got)) (refl, left) }
