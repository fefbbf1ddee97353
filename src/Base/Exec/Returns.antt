-- ===== src/Base/Exec/Returns.antt =====
-- What holds of the value that a call returns, whatever the state; nothing is said where it raises.
use mathlib.Core.Path.{◌≡◌, subst}
use mathlib.Core.Bool.{Bool, true, false}
use nite_pr.Base.Tests.{if◌then◌else◌}
use nite_pr.Base.Exec.{Outcome, ok, err, blocked, Exec, pure, raise, ensure, after, continue, ◌>>=◌}

-- `P` holds of the value of an outcome that has one.
abbrev pub OfValue : {E A : Type 0} → (A → Type 0) → Outcome E A → Type 0
OfValue P (ok a) = P a
OfValue P (err e) = Unit
OfValue P blocked = Unit

pub record Returns {E S A : Type 0} (P : A → Type 0) (m : Exec E S A) : Type 0 where
  pub at : (s : S) → OfValue P (m s).0

module _ {E S A : Type 0} (P : A → Type 0) where
  pub Returns-pure : (a : A) → P a → Returns {E = E} {S = S} P (pure a)
  unfolding pure
  Returns-pure a p = record { at = λ s. p }

  pub Returns-raise : (e : E) → Returns {S = S} P (raise e)
  unfolding raise
  Returns-raise e = record { at = λ s. tt }

  pub Returns-if :
      (b : Bool) (m n : Exec E S A) → Returns P m → Returns P n → Returns P (if b then m else n)
  Returns-if true m n p q = p
  Returns-if false m n p q = q

  after-OfValue : (f : S → S) (r : Outcome E A) (s : S) → OfValue P r → OfValue P (after f r s).0
  after-OfValue f (ok a) s h = h
  after-OfValue f (err e) s h = tt
  after-OfValue f blocked s h = tt

  pub Returns-ensure : (m : Exec E S A) (f : S → S) → Returns P m → Returns P (ensure m f)
  unfolding ensure
  Returns-ensure m f p = record { at = λ s. after-OfValue f (m s).0 (m s).1 (p.at s) }

module _ {E S A B : Type 0} (Q : A → Type 0) (P : B → Type 0) where
  continue-OfValue :
      (f : A → Exec E S B) (r : Outcome E A) (s : S)
      → OfValue Q r
      → ((a : A) → Q a → Returns P (f a))
      → OfValue P (continue f r s).0
  continue-OfValue f (ok a) s q k = (k a q).at s
  continue-OfValue f (err e) s q k = tt
  continue-OfValue f blocked s q k = tt

  -- A block returns what its end returns, given what the call before it returned.
  pub Returns-bind :
      (m : Exec E S A) (f : A → Exec E S B)
      → Returns Q m
      → ((a : A) → Q a → Returns P (f a))
      → Returns P (m >>= f)
  unfolding ◌>>=◌
  Returns-bind m f q k = record { at = λ s. continue-OfValue f (m s).0 (m s).1 (q.at s) k }

OfValue-any : {E A : Type 0} (r : Outcome E A) → OfValue (λ _. Unit {0}) r
OfValue-any (ok a) = tt
OfValue-any (err e) = tt
OfValue-any blocked = tt

OfValue-mono :
    {E A : Type 0} (P Q : A → Type 0) (r : Outcome E A)
    → ((a : A) → P a → Q a)
    → OfValue P r
    → OfValue Q r
OfValue-mono P Q (ok a) f h = f a h
OfValue-mono P Q (err e) f h = tt
OfValue-mono P Q blocked f h = tt

pub Returns-mono :
    {E S A : Type 0} (P Q : A → Type 0) (m : Exec E S A)
    → ((a : A) → P a → Q a)
    → Returns P m
    → Returns Q m
Returns-mono P Q m f r = record { at = λ s. OfValue-mono P Q (m s).0 f (r.at s) }

-- A value that came back has the property.
pub value_of :
    {E S A : Type 0} {P : A → Type 0} {m : Exec E S A}
    → Returns P m
    → (s : S) {a : A} → (m s).0 ≡ ok a
    → P a
value_of {P} r s h = subst (OfValue P) h (r.at s)

-- Nothing in particular.
pub Returns-any : {E S A : Type 0} (m : Exec E S A) → Returns (λ _. Unit {0}) m
Returns-any m = record { at = λ s. OfValue-any (m s).0 }
