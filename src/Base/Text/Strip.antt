-- ===== src/Base/Text/Strip.antt =====
-- What `str.strip` takes off, and where it takes nothing off.
use Prim.Native.Nat.{ℕ}
use mathlib.Core.Path.{◌≡◌, refl, sym, ap, ◌∙◌}
use mathlib.Core.Logic.{inl, inr}
use mathlib.Core.Bool.{false}
use mathlib.Core.List.{[], ◌∷◌, ◌++◌, reverse, reverse-cons, reverse-append, reverse-reverse}
use nite_pr.Base.Tests.{Bool-cases}
use nite_pr.Base.Lists.{All}
use nite_pr.Base.Text.{Text, is_space, lstrip, strip}

abbrev IsSolid : ℕ → Type 0
IsSolid c = is_space c ≡ false

-- The text does not begin with a space.
abbrev StartsSolid : Text → Type 0
StartsSolid [] = Unit
StartsSolid (c ∷ s) = IsSolid c

StartsSolid-lstrip : (s : Text) → StartsSolid (lstrip s)
unfolding lstrip
StartsSolid-lstrip [] = tt
StartsSolid-lstrip (c ∷ s) = elim (Bool-cases (is_space c)) [
  | inl space ↦ rw space (StartsSolid-lstrip s)
  | inr solid ↦ rw solid solid
]

lstrip_solid : (s : Text) → StartsSolid s → lstrip s ≡ s
unfolding lstrip
lstrip_solid [] h = refl
lstrip_solid (c ∷ s) h = rw h refl

lstrip_suffix : (s : Text) → (p : Text) × (s ≡ p ++ lstrip s)
unfolding lstrip
lstrip_suffix [] = ([], refl)
lstrip_suffix (c ∷ s) = elim (Bool-cases (is_space c)) [
  | inl space ↦ let (p, e) = lstrip_suffix s in (c ∷ p, rw space (ap (λ l. c ∷ l) e))
  | inr solid ↦ ([], rw solid refl)
]

StartsSolid-append : (s t : Text) → StartsSolid (s ++ t) → StartsSolid s
StartsSolid-append [] t h = tt
StartsSolid-append (c ∷ s) t h = h

strip_solid_ends : (s : Text) → StartsSolid s → StartsSolid (reverse s) → strip s ≡ s
unfolding strip
strip_solid_ends s h k = rw (lstrip_solid s h, lstrip_solid (reverse s) k) (reverse-reverse s)

pub strip-strip : (s : Text) → strip (strip s) ≡ strip s
unfolding strip
strip-strip s =
    let u = lstrip s in
    let v = lstrip (reverse u) in
    let (p, e) = lstrip_suffix (reverse u) in
    let split : u ≡ reverse v ++ reverse p =
      sym (reverse-reverse u) ∙ ap reverse e ∙ reverse-append p v in
    strip_solid_ends (reverse v)
      (StartsSolid-append (reverse v) (reverse p) (subst_solid split (StartsSolid-lstrip s)))
      (subst_solid (sym (reverse-reverse v)) (StartsSolid-lstrip (reverse u)))
  where
    subst_solid : {a b : Text} → a ≡ b → StartsSolid a → StartsSolid b
    subst_solid e h = rw (← e) h

All-append : (s t : Text) → All IsSolid s → All IsSolid t → All IsSolid (s ++ t)
All-append [] t h k = k
All-append (c ∷ s) t h k = (h.0, All-append s t h.1 k)

All-reverse : (s : Text) → All IsSolid s → All IsSolid (reverse s)
All-reverse [] h = tt
All-reverse (c ∷ s) h =
    rw (reverse-cons c s) (All-append (reverse s) (c ∷ []) (All-reverse s h.1) (h.0, tt))

StartsSolid-All : (s : Text) → All IsSolid s → StartsSolid s
StartsSolid-All [] h = tt
StartsSolid-All (c ∷ s) h = h.0

pub strip_solid : (s : Text) → All (λ c. is_space c ≡ false) s → strip s ≡ s
strip_solid s h =
    strip_solid_ends s (StartsSolid-All s h) (StartsSolid-All (reverse s) (All-reverse s h))
