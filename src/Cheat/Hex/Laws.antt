-- ===== src/Cheat/Hex/Laws.antt =====
-- Hexadecimal texts that are written and read again.
use nite_pr.Base.{
  ℕ, zero, suc, ◌+◌, ◌*◌, ◌/◌, ◌%◌, ◌≤◌, ◌<◌, ◌≡◌, ◌⊎◌, refl, Bool, true, false, Option, none, some,
  [], ◌∷◌, ltb, length, All, arith, Bool-cases, inl, inr,
}
use nite_pr.Base.Int.{pos}
use nite_pr.Base.Text.{Text, strip, is_space}
use nite_pr.Base.Text.Strip.{strip_solid}
use nite_pr.Base.Exec.{ok}
use nite_pr.Constants.{write_max}
use nite_pr.Types.{Bytes}
use nite_pr.Cheat.Hex.{
  hex_value, hex_digit, bytes_hex, two_digits, from_hex, check_bytes, parse_hex_bytes, to_hex,
  format_hex, hex_digits, hex_unsigned, hex_signed, int_of_hex,
}

-- A digit as `format` and `hex` write it.
abbrev IsLower : ℕ → Type 0
IsLower c = (48 ≤ c) × (c ≤ 102) × ((c ≤ 57) ⊎ (97 ≤ c))

IsLower-hex_digit : (n : ℕ) → n < 16 → IsLower (hex_digit n)
unfolding hex_digit
IsLower-hex_digit n h = ground arith

IsLower-is_space : (c : ℕ) → IsLower c → is_space c ≡ false
unfolding is_space
IsLower-is_space c h = ground arith

All-mono : {P Q : ℕ → Type 0} (s : Text) → ((c : ℕ) → P c → Q c) → All P s → All Q s
All-mono [] f h = tt
All-mono (c ∷ s) f h = (f c h.0, All-mono s f h.1)

strip_lower : (s : Text) → All IsLower s → strip s ≡ s
strip_lower s h = strip_solid s (All-mono s IsLower-is_space h)

hex_value-hex_digit : (n : ℕ) → n < 16 → hex_value (hex_digit n) ≡ some n
unfolding hex_value hex_digit
hex_value-hex_digit n h = ground arith

pub from_hex-bytes_hex : (bs : Bytes) → All (λ b. b < 256) bs → from_hex (bytes_hex bs) ≡ some bs
unfolding from_hex bytes_hex
from_hex-bytes_hex [] h = refl
from_hex-bytes_hex (b ∷ bs) h =
    rw
      (
        hex_value-hex_digit (b / 16) (omega arith),
        hex_value-hex_digit (b % 16) (omega arith),
        from_hex-bytes_hex bs h.1,
      )
      (ground arith)

hex_digits-digit :
    (after : Bool) (acc n : ℕ) (s : Text)
    → n < 16
    → hex_digits after acc (hex_digit n ∷ s) ≡ hex_digits true (acc * 16 + n) s
unfolding hex_digits hex_digit hex_value
hex_digits-digit after acc n s h = ground arith

hex_digits-to_hex :
    (fuel n : ℕ) (acc : Text)
    → n < fuel
    → hex_digits false 0 (to_hex fuel n acc) ≡ hex_digits true n acc
unfolding to_hex
hex_digits-to_hex zero n acc h = absurd (omega arith)
hex_digits-to_hex (suc fuel) n acc h = ground (
  arith,
  hex_digits-digit false 0 n acc,
  hex_digits-digit true (n / 16) (n % 16) acc,
  hex_digits-to_hex fuel (n / 16) (hex_digit (n % 16) ∷ acc),
)

All-to_hex : (fuel n : ℕ) (acc : Text) → All IsLower acc → All IsLower (to_hex fuel n acc)
unfolding to_hex
All-to_hex zero n acc h = h
All-to_hex (suc fuel) n acc h = elim (Bool-cases (ltb n 16)) [
  | inl small ↦ rw small (IsLower-hex_digit n (ground arith), h)
  | inr large ↦ rw large (
      All-to_hex fuel (n / 16) (hex_digit (n % 16) ∷ acc)
        (IsLower-hex_digit (n % 16) (omega arith), h))
]

All-bytes_hex : (bs : Bytes) → All (λ b. b < 256) bs → All IsLower (bytes_hex bs)
unfolding bytes_hex
All-bytes_hex [] h = tt
All-bytes_hex (b ∷ bs) h = (
  IsLower-hex_digit (b / 16) (omega arith),
  (IsLower-hex_digit (b % 16) (omega arith), All-bytes_hex bs h.1),
)

hex_unsigned_lower : (s : Text) → All IsLower s → hex_unsigned s ≡ hex_digits false 0 s
unfolding hex_unsigned
hex_unsigned_lower [] h = refl
hex_unsigned_lower (a ∷ []) h = refl
hex_unsigned_lower (a ∷ b ∷ []) h = refl
hex_unsigned_lower (a ∷ b ∷ c ∷ s) h = ground arith

hex_signed_lower :
    (s : Text) (n : ℕ) → All IsLower s → hex_digits false 0 s ≡ some n → hex_signed s ≡ some (pos n)
unfolding hex_signed hex_digits
hex_signed_lower [] n h e = cc
hex_signed_lower (c ∷ s) n h e = ground (arith, hex_unsigned_lower (c ∷ s) h)

-- The integer of a number's hexadecimal text is the number.
pub int_of_hex-format_hex : (n : ℕ) → int_of_hex (format_hex n) ≡ some (pos n)
unfolding int_of_hex format_hex hex_digits
int_of_hex-format_hex n =
    let lower = All-to_hex (suc n) n [] tt in
    rw (strip_lower (to_hex (suc n) n []) lower) (
      hex_signed_lower (to_hex (suc n) n []) n lower (hex_digits-to_hex (suc n) n [] (omega arith)))

pub strip-bytes_hex : (bs : Bytes) → All (λ b. b < 256) bs → strip (bytes_hex bs) ≡ bytes_hex bs
strip-bytes_hex bs h = strip_lower (bytes_hex bs) (All-bytes_hex bs h)

-- Bytes that fit one write come back from their hexadecimal text.
pub parse_hex_bytes-bytes_hex :
    (bs : Bytes)
    → All (λ b. b < 256) bs
    → 1 ≤ length bs
    → length bs ≤ write_max
    → parse_hex_bytes (bytes_hex bs) ≡ ok bs
unfolding parse_hex_bytes
parse_hex_bytes-bytes_hex bs h lo hi =
    rw (strip_lower (bytes_hex bs) (All-bytes_hex bs h), from_hex-bytes_hex bs h) (checked bs lo hi)
  where
    checked : (bs : Bytes) → 1 ≤ length bs → length bs ≤ write_max → check_bytes (some bs) ≡ ok bs
    checked [] lo hi = absurd (omega arith)
    checked (b ∷ bs) lo hi = ground arith

hex_value_below : (c d : ℕ) → hex_value c ≡ some d → d < 16
unfolding hex_value
hex_value_below c d h = ground arith

two_digits_below :
    (x y : Option ℕ) (r : Option Bytes) (bs : Bytes)
    → ((d : ℕ) → x ≡ some d → d < 16)
    → ((d : ℕ) → y ≡ some d → d < 16)
    → ((cs : Bytes) → r ≡ some cs → All (λ b. b < 256) cs)
    → two_digits x y r ≡ some bs
    → All (λ b. b < 256) bs
two_digits_below (some hi) (some lo) (some cs) [] p q k h = tt
two_digits_below (some hi) (some lo) (some cs) (b ∷ bs) p q k h =
    (ground (arith, p hi refl, q lo refl), k bs (cc))
two_digits_below none y r bs p q k h = ground arith
two_digits_below (some hi) none r bs p q k h = ground arith
two_digits_below (some hi) (some lo) none bs p q k h = ground arith

from_hex_below : (s : Text) (bs : Bytes) → from_hex s ≡ some bs → All (λ b. b < 256) bs
unfolding from_hex
from_hex_below [] [] h = tt
from_hex_below [] (b ∷ bs) h = ground arith
from_hex_below (a ∷ []) bs h = ground arith
from_hex_below (a ∷ b ∷ s) bs h =
    two_digits_below (hex_value a) (hex_value b) (from_hex s) bs (hex_value_below a)
      (hex_value_below b) (from_hex_below s) h

check_bytes_ok :
    (r : Option Bytes) (bs : Bytes)
    → check_bytes r ≡ ok bs
    → (r ≡ some bs) × (1 ≤ length bs) × (length bs ≤ write_max)
check_bytes_ok none bs h = cc
check_bytes_ok (some []) bs h = cc
check_bytes_ok (some (b ∷ cs)) bs h = ground arith

-- What `_parse_hex_bytes` lets through is 1 to 4096 bytes.
pub parse_hex_bytes_ok :
    (s : Text) (bs : Bytes)
    → parse_hex_bytes s ≡ ok bs
    → All (λ b. b < 256) bs × (1 ≤ length bs) × (length bs ≤ write_max)
unfolding parse_hex_bytes
parse_hex_bytes_ok s bs h =
    let (e, lo, hi) = check_bytes_ok (from_hex (strip s)) bs h in
    (from_hex_below (strip s) bs e, lo, hi)
