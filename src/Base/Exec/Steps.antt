-- ===== src/Base/Exec/Steps.antt =====
-- One step of a block whose first call is known to return or to raise.
use mathlib.Core.Path.{◌≡◌, refl, ap, sym, subst}
use native.Mathlib.Omega.{arith}
use nite_pr.Base.Exec.{Outcome, ok, err, blocked, Exec, catch, handle, continue, ◌>>=◌}

module _ {E S A B : Type 0} (m : Exec E S A) (f : A → Exec E S B) (s : S) where
  pub bind-ok : {a : A} → (m s).0 ≡ ok a → (m >>= f) s ≡ f a (m s).1
  unfolding ◌>>=◌
  bind-ok h = ap (λ r. continue f r (m s).1) h

  pub bind-err : {e : E} → (m s).0 ≡ err e → (m >>= f) s ≡ (err e, (m s).1)
  unfolding ◌>>=◌
  bind-err h = ap (λ r. continue f r (m s).1) h

-- What holds of a block that returned, from what its first call returned and what follows it.
module _ {E S A B : Type 0} (m : Exec E S A) (f : A → Exec E S B) (s : S)
    (Q : Outcome E B × S → Type 0) {b : B} where
  continue-returned :
      (r : Outcome E A) (s' : S)
      → (continue f r s').0 ≡ ok b
      → ((a : A) → r ≡ ok a → (f a s').0 ≡ ok b → Q (f a s'))
      → Q (continue f r s')
  continue-returned (ok a) s' h k = k a refl h
  continue-returned (err e) s' h k = absurd (ground arith)
  continue-returned blocked s' h k = absurd (ground arith)

  pub bind-returned :
      ((m >>= f) s).0 ≡ ok b
      → ((a : A) → (m s).0 ≡ ok a → (f a (m s).1).0 ≡ ok b → Q (f a (m s).1))
      → Q ((m >>= f) s)
  unfolding ◌>>=◌
  bind-returned h k = continue-returned (m s).0 (m s).1 h k

  -- The first call is a check, which leaves the state as it is.
  pub check-returned :
      (m s).1 ≡ s
      → ((m >>= f) s).0 ≡ ok b
      → ((a : A) → (m s).0 ≡ ok a → (f a s).0 ≡ ok b → Q (f a s))
      → Q ((m >>= f) s)
  check-returned same h k =
      bind-returned h λ a e. subst (λ t. (f a t).0 ≡ ok b → Q (f a t)) (sym same) (k a e)

module _ {E S A : Type 0} (m : Exec E S A) (f : E → Exec E S A) (s : S) where
  pub catch-ok : {a : A} → (m s).0 ≡ ok a → catch m f s ≡ (ok a, (m s).1)
  unfolding catch
  catch-ok h = ap (λ r. handle f r (m s).1) h

  pub catch-err : {e : E} → (m s).0 ≡ err e → catch m f s ≡ f e (m s).1
  unfolding catch
  catch-err h = ap (λ r. handle f r (m s).1) h
