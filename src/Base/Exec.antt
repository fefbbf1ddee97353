-- ===== src/Base/Exec.antt =====
-- Python calls: a method that mutates an object and may raise. What was written before a raise
-- stays written, so the state comes back beside the error. A call that waits for a lock or for
-- bytes that do not come has not returned: `blocked`.
pub mod Keeps
pub mod Returns
pub mod Steps
pub mod Raises
pub mod Arrives
use mathlib.Core.Bool.{Bool, true, false}
use mathlib.Core.Option.{Option, none, some}

pub data Outcome {ℓ κ} (E : Type κ) (A : Type ℓ) : Type (ℓ ⊔ κ) where
  ok : A → Outcome E A
  err : E → Outcome E A
  blocked : Outcome E A

abbrev pub is_ok {ℓ κ} : {E : Type κ} {A : Type ℓ} → Outcome E A → Bool
is_ok (ok a) = true
is_ok (err e) = false
is_ok blocked = false

abbrev pub Exec : Type 0 → Type 0 → Type 0 → Type 0
Exec E S A = S → Outcome E A × S

module _ {E S A : Type 0} where
  unfoldable pub pure : A → Exec E S A
  pure a s = (ok a, s)

  unfoldable pub raise : E → Exec E S A
  raise e s = (err e, s)

  unfoldable pub gets : (S → A) → Exec E S A
  gets f s = (ok (f s), s)

  unfoldable pub lift : Outcome E A → Exec E S A
  lift r s = (r, s)

  unfoldable pub or_raise : Option A → E → Exec E S A
  or_raise none e s = (err e, s)
  or_raise (some a) e s = (ok a, s)

module _ {E S : Type 0} where
  unfoldable pub raise_if : Bool → E → Exec E S (Unit {0})
  raise_if true e s = (err e, s)
  raise_if false e s = (ok tt, s)

  unfoldable pub modify : (S → S) → Exec E S (Unit {0})
  modify f s = (ok tt, f s)

module _ {E S A : Type 0} where
  abbrev pub after : (S → S) → Outcome E A → S → Outcome E A × S
  after f (ok a) s = (ok a, f s)
  after f (err e) s = (err e, f s)
  after f blocked s = (blocked, s)

  -- `try: m finally: f`. A call that has not returned has not come to its `finally`.
  unfoldable pub ensure : Exec E S A → (S → S) → Exec E S A
  ensure m f s = after f (m s).0 (m s).1

  abbrev pub handle : (E → Exec E S A) → Outcome E A → S → Outcome E A × S
  handle h (ok a) s = (ok a, s)
  handle h (err e) s = h e s
  handle h blocked s = (blocked, s)

  -- `try: m except Exception: h`
  unfoldable pub catch : Exec E S A → (E → Exec E S A) → Exec E S A
  catch m h s = handle h (m s).0 (m s).1

module _ {E S A B : Type 0} where
  -- What follows a call that has ended with `r`.
  abbrev pub continue : (A → Exec E S B) → Outcome E A → S → Outcome E B × S
  continue f (ok a) s = f a s
  continue f (err e) s = (err e, s)
  continue f blocked s = (blocked, s)

  infixl 5 ◌>>=◌ ◌>>◌
  -- Opening this opens the other ways to build a call.
  unfoldable pub ◌>>=◌ : Exec E S A → (A → Exec E S B) → Exec E S B
  unfolding pure raise gets lift or_raise raise_if modify ensure catch
  ◌>>=◌ m f s = continue f (m s).0 (m s).1

  abbrev pub ◌>>◌ : Exec E S A → Exec E S B → Exec E S B
  m >> k = m >>= λ _. k
