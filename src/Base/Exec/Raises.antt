-- ===== src/Base/Exec/Raises.antt =====
-- What holds of the error that a call raises and of the state in which it does, whatever the state
-- before; nothing is said where it returns or is blocked.
use mathlib.Core.Bool.{Bool, true, false}
use mathlib.Core.Option.{Option, none, some}
use nite_pr.Base.Tests.{if◌then◌else◌}
use nite_pr.Base.Exec.{
  Outcome, ok, err, blocked, Exec, pure, raise, gets, lift, or_raise, raise_if, modify, ensure,
  catch, after, handle, continue, ◌>>=◌,
}

abbrev pub OfError : {E S A : Type 0} → (E → S → Type 0) → Outcome E A → S → Type 0
OfError P (ok a) s = Unit
OfError P (err e) s = P e s
OfError P blocked s = Unit

pub record Raises {E S A : Type 0} (P : E → S → Type 0) (m : Exec E S A) : Type 0 where
  pub at : (s : S) → OfError P (m s).0 (m s).1

module _ {E S A : Type 0} {P : E → S → Type 0} where
  pub Raises-pure : (a : A) → Raises P (pure {E = E} {S = S} a)
  unfolding pure
  Raises-pure a = record { at = λ s. tt }

  pub Raises-gets : (f : S → A) → Raises P (gets {E = E} f)
  unfolding gets
  Raises-gets f = record { at = λ s. tt }

  pub Raises-raise : (e : E) → ((s : S) → P e s) → Raises P (raise {A = A} e)
  unfolding raise
  Raises-raise e h = record { at = h }

  pub Raises-or_raise : (o : Option A) (e : E) → ((s : S) → P e s) → Raises P (or_raise o e)
  unfolding or_raise
  Raises-or_raise none e h = record { at = h }
  Raises-or_raise (some a) e h = record { at = λ s. tt }

  pub Raises-lift : (r : Outcome E A) → ((s : S) → OfError P r s) → Raises P (lift r)
  unfolding lift
  Raises-lift r h = record { at = h }

  pub Raises-if :
      (b : Bool) (m n : Exec E S A) → Raises P m → Raises P n → Raises P (if b then m else n)
  Raises-if true m n p q = p
  Raises-if false m n p q = q

  after-OfError :
      (f : S → S) (r : Outcome E A) (s : S)
      → ((e : E) (s : S) → P e s → P e (f s))
      → OfError P r s
      → OfError P (after f r s).0 (after f r s).1
  after-OfError f (ok a) s keep h = tt
  after-OfError f (err e) s keep h = keep e s h
  after-OfError f blocked s keep h = tt

  pub Raises-ensure :
      (m : Exec E S A) (f : S → S)
      → Raises P m
      → ((e : E) (s : S) → P e s → P e (f s))
      → Raises P (ensure m f)
  unfolding ensure
  Raises-ensure m f p keep = record { at = λ s. after-OfError f (m s).0 (m s).1 keep (p.at s) }

  handle-OfError :
      (g : E → Exec E S A) (r : Outcome E A) (s : S)
      → ((e : E) (s : S) → P e s → OfError P (g e s).0 (g e s).1)
      → OfError P r s
      → OfError P (handle g r s).0 (handle g r s).1
  handle-OfError g (ok a) s next h = tt
  handle-OfError g (err e) s next h = next e s h
  handle-OfError g blocked s next h = tt

  -- A handler is called only where the call has raised.
  pub Raises-catch-from :
      (m : Exec E S A) (g : E → Exec E S A)
      → Raises P m
      → ((e : E) (s : S) → P e s → OfError P (g e s).0 (g e s).1)
      → Raises P (catch m g)
  unfolding catch
  Raises-catch-from m g p next = record { at = λ s. handle-OfError g (m s).0 (m s).1 next (p.at s) }

module _ {E S A : Type 0} {P : E → S → Type 0} where
  pub Raises-catch :
      (m : Exec E S A) (g : E → Exec E S A)
      → Raises P m
      → ((e : E) → Raises P (g e))
      → Raises P (catch m g)
  Raises-catch m g p q = Raises-catch-from m g p λ e s h. (q e).at s

module _ {E S : Type 0} {P : E → S → Type 0} where
  pub Raises-raise_if : (b : Bool) (e : E) → ((s : S) → P e s) → Raises P (raise_if b e)
  unfolding raise_if
  Raises-raise_if true e h = record { at = h }
  Raises-raise_if false e h = record { at = λ s. tt }

  pub Raises-modify : (f : S → S) → Raises P (modify {E = E} f)
  unfolding modify
  Raises-modify f = record { at = λ s. tt }

module _ {E S A B : Type 0} {P : E → S → Type 0} where
  continue-OfError :
      (f : A → Exec E S B) (r : Outcome E A) (s : S)
      → OfError P r s
      → ((a : A) → Raises P (f a))
      → OfError P (continue f r s).0 (continue f r s).1
  continue-OfError f (ok a) s h next = (next a).at s
  continue-OfError f (err e) s h next = h
  continue-OfError f blocked s h next = tt

  pub Raises-bind :
      (m : Exec E S A) (f : A → Exec E S B)
      → Raises P m
      → ((a : A) → Raises P (f a))
      → Raises P (m >>= f)
  unfolding ◌>>=◌
  Raises-bind m f p next = record { at = λ s. continue-OfError f (m s).0 (m s).1 (p.at s) next }

pub trivial : {S : Type 0} → (s : S) → Unit {0}
trivial s = tt

pub ruleset raises_rules = (
  Raises-pure, Raises-gets, Raises-raise, Raises-or_raise, Raises-if, Raises-catch, Raises-raise_if,
  Raises-modify, Raises-bind, trivial,
)
