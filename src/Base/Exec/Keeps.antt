-- ===== src/Base/Exec/Keeps.antt =====
-- Invariants of calls, one rule for each way to build a call. `P` holds where the call returns or
-- raises, and `B` where it is blocked.
use mathlib.Core.Path.{◌≡◌, refl}
use mathlib.Core.Bool.{Bool, true, false}
use mathlib.Core.Option.{Option, none, some}
use nite_pr.Base.Tests.{if◌then◌else◌}
use nite_pr.Base.Exec.{
  Outcome, ok, err, blocked, Exec, pure, raise, gets, lift, or_raise, raise_if, modify, ensure,
  catch, ◌>>=◌, after, handle, continue,
}

module _ {E S A : Type 0} where
  abbrev pub Ends : (P B : S → Type 0) → Outcome E A → S → Type 0
  Ends P B (ok a) s = P s
  Ends P B (err e) s = P s
  Ends P B blocked s = B s

pub record Keeps {E S A : Type 0} (P B : S → Type 0) (m : Exec E S A) : Type 0 where
  pub at : (s : S) → P s → Ends P B (m s).0 (m s).1

module _ {E S A : Type 0} {P B : S → Type 0} where
  pub Keeps-pure : (a : A) → Keeps P B (pure {E = E} a)
  unfolding pure
  Keeps-pure a = record { at = λ s h. h }

  pub Keeps-raise : (e : E) → Keeps P B (raise {A = A} e)
  unfolding raise
  Keeps-raise e = record { at = λ s h. h }

  pub Keeps-gets : (f : S → A) → Keeps P B (gets {E = E} f)
  unfolding gets
  Keeps-gets f = record { at = λ s h. h }

  pub Keeps-or_raise : (o : Option A) (e : E) → Keeps P B (or_raise o e)
  unfolding or_raise
  Keeps-or_raise none e = record { at = λ s h. h }
  Keeps-or_raise (some a) e = record { at = λ s h. h }

  pub Keeps-lift : ((s : S) → P s → B s) → (r : Outcome E A) → Keeps P B (lift {S = S} r)
  unfolding lift
  Keeps-lift stuck (ok a) = record { at = λ s h. h }
  Keeps-lift stuck (err e) = record { at = λ s h. h }
  Keeps-lift stuck blocked = record { at = stuck }

  pub Keeps-if :
      (b : Bool) (m n : Exec E S A) → Keeps P B m → Keeps P B n → Keeps P B (if b then m else n)
  Keeps-if true m n km kn = km
  Keeps-if false m n km kn = kn

  pub Keeps-ensure :
      (m : Exec E S A) (f : S → S)
      → Keeps P B m
      → ((s : S) → P s → P (f s))
      → Keeps P B (ensure m f)
  unfolding ensure
  Keeps-ensure m f km kf = record { at = λ s h. finish (m s).0 (m s).1 (km.at s h) }
    where
      finish : (r : Outcome E A) (s : S) → Ends P B r s → Ends P B (after f r s).0 (after f r s).1
      finish (ok a) s h = kf s h
      finish (err e) s h = kf s h
      finish blocked s h = h

  pub Keeps-catch :
      (m : Exec E S A) (g : E → Exec E S A)
      → Keeps P B m
      → ((e : E) → Keeps P B (g e))
      → Keeps P B (catch m g)
  unfolding catch
  Keeps-catch m g km kg = record { at = λ s h. finish (m s).0 (m s).1 (km.at s h) }
    where
      finish : (r : Outcome E A) (s : S) → Ends P B r s → Ends P B (handle g r s).0 (handle g r s).1
      finish (ok a) s h = h
      finish (err e) s h = (kg e).at s h
      finish blocked s h = h

module _ {E S : Type 0} {P B : S → Type 0} where
  pub Keeps-raise_if : (b : Bool) (e : E) → Keeps P B (raise_if {S = S} b e)
  unfolding raise_if
  Keeps-raise_if true e = record { at = λ s h. h }
  Keeps-raise_if false e = record { at = λ s h. h }

  pub Keeps-modify : (f : S → S) → ((s : S) → P s → P (f s)) → Keeps P B (modify {E = E} f)
  unfolding modify
  Keeps-modify f kf = record { at = λ s h. kf s h }

module _ {E S A C : Type 0} {P B : S → Type 0} where
  pub Keeps-bind :
      (m : Exec E S A) (f : A → Exec E S C)
      → Keeps P B m
      → ((a : A) → Keeps P B (f a))
      → Keeps P B (m >>= f)
  unfolding ◌>>=◌
  Keeps-bind m f km kf = record { at = λ s h. finish (m s).0 (m s).1 (km.at s h) }
    where
      finish :
          (r : Outcome E A) (s : S) → Ends P B r s → Ends P B (continue f r s).0 (continue f r s).1
      finish (ok a) s h = (kf a).at s h
      finish (err e) s h = h
      finish blocked s h = h

  -- The rest of the block may use that `r` did not raise.
  pub Keeps-bind-lift :
      ((s : S) → P s → B s)
      → (r : Outcome E A) (f : A → Exec E S C) → ((a : A) → r ≡ ok a → Keeps P B (f a))
      → Keeps P B (lift r >>= f)
  unfolding ◌>>=◌
  Keeps-bind-lift stuck (ok a) f kf = kf a refl
  Keeps-bind-lift stuck (err e) f kf = record { at = λ s h. h }
  Keeps-bind-lift stuck blocked f kf = record { at = stuck }

pub ruleset keeps_rules = (
  Keeps-pure, Keeps-raise, Keeps-gets, Keeps-or_raise, Keeps-if, Keeps-ensure, Keeps-catch,
  Keeps-raise_if, Keeps-modify, Keeps-bind,
)
