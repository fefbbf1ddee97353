-- ===== src/Base/Text.antt =====
-- A Python `str` as its list of code points, and the methods of `str` that the program calls.
pub mod Strip
use Prim.Native.Char.{code}
use Prim.Native.String.{String}
use Prim.Native.Nat.{ℕ, ◌+◌}
use mathlib.Core.Path.{◌≡◌, refl}
use mathlib.Core.Logic.{◌↔◌}
use mathlib.Core.Bool.{Bool, true, false, ◌&&◌, ◌||◌}
use mathlib.Core.List.{List, [], ◌∷◌, map, reverse}
use native.Mathlib.Omega.{arith}
use nite_pr.Base.Tests.{leb, ◌==◌, if◌then◌else◌}

abbrev pub Text : Type 0
Text = List ℕ

-- The code points of a literal.
abbrev pub text : String → Text
text String.[] = []
text (String.◌∷◌ c s) = code c ∷ text s

unfoldable pub eq_text : Text → Text → Bool
eq_text [] [] = true
eq_text [] (b ∷ s) = false
eq_text (a ∷ r) [] = false
eq_text (a ∷ r) (b ∷ s) = (a == b) && eq_text r s

pub eq_text→eq : (r s : Text) → eq_text r s ≡ true → r ≡ s
unfolding eq_text
eq_text→eq [] [] h = refl
eq_text→eq [] (b ∷ s) h = cc
eq_text→eq (a ∷ r) [] h = cc
eq_text→eq (a ∷ r) (b ∷ s) h = ground (arith, eq_text→eq r s)

pub eq_text_refl : (s : Text) → eq_text s s ≡ true
unfolding eq_text
eq_text_refl [] = refl
eq_text_refl (a ∷ s) = ground (arith, eq_text_refl s)

pub eq_text_iff : (r s : Text) → (eq_text r s ≡ true) ↔ (r ≡ s)
eq_text_iff r s = (eq_text→eq r s, λ e. subst_eq e)
  where
    subst_eq : r ≡ s → eq_text r s ≡ true
    subst_eq e = rw e (eq_text_refl s)

-- `s in texts`
unfoldable pub mem_text : Text → List Text → Bool
mem_text s [] = false
mem_text s (t ∷ ts) = eq_text s t || mem_text s ts

-- The code points for which `str.isspace` holds: what `strip()` takes off.
unfoldable pub is_space : ℕ → Bool
is_space c =
    (leb 9 c && leb c 13)
    || ((leb 28 c && leb c 32)
        || (c == 0x85
            || (c == 0xa0
                || (c == 0x1680
                    || ((leb 0x2000 c && leb c 0x200a)
                        || (c == 0x2028
                            || (c == 0x2029 || (c == 0x202f || (c == 0x205f || c == 0x3000)))))))))

unfoldable pub lstrip : Text → Text
unfolding is_space
lstrip [] = []
lstrip (c ∷ s) = if is_space c then lstrip s else c ∷ s

-- `s.strip()`
unfoldable pub strip : Text → Text
unfolding lstrip
strip s = reverse (lstrip (reverse (lstrip s)))

-- `s.lower()`, as far as a comparison with an ASCII text sees it: the Kelvin sign is the one code
-- point outside ASCII that has an ASCII letter for its lower case.
unfoldable pub lower_char : ℕ → ℕ
lower_char c = if leb 65 c && leb c 90 then c + 32 else if c == 0x212a then 107 else c

unfoldable pub lower : Text → Text
unfolding lower_char
lower s = map lower_char s

-- `s or d`
abbrev pub or_text : Text → Text → Text
or_text [] d = d
or_text (c ∷ s) d = c ∷ s

-- `bool(s)`
abbrev pub is_nonempty : Text → Bool
is_nonempty [] = false
is_nonempty (c ∷ s) = true
