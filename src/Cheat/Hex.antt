-- ===== src/Cheat/Hex.antt =====
-- The hexadecimal texts of web/nitepr5_core/cheat.py: `_parse_hex_bytes`, `bytes.hex`,
-- `format(n, "x")`, and `int(s, 16)` of a text whose digits are ASCII.
pub mod Laws
use nite_pr.Base.{
  ℕ, zero, suc, ◌+◌, ◌-◌, ◌*◌, ◌/◌, ◌%◌, Bool, true, false, ◌&&◌, ◌||◌, Option, none, some, List,
  [], ◌∷◌, leb, ltb, ◌==◌, length, if◌then◌else◌,
}
use nite_pr.Base.Int.{ℤ, pos, negsuc}
use nite_pr.Base.Text.{Text, text, strip, is_nonempty}
use nite_pr.Base.Exec.{Outcome, ok, err}
use nite_pr.Constants.{write_max}
use nite_pr.Types.{Bytes}
use nite_pr.Errors.{Error, invalid_cheat}

-- The value of a digit: `0` to `9`, `a` to `f`, `A` to `F`.
unfoldable pub hex_value : ℕ → Option ℕ
hex_value c =
    if leb 48 c && leb c 57
    then some (c - 48)
    else if leb 97 c && leb c 102
    then some (c - 87)
    else if leb 65 c && leb c 70
    then some (c - 55)
    else none

-- The digit of a value below 16, in lower case.
unfoldable pub hex_digit : ℕ → ℕ
hex_digit n = if ltb n 10 then n + 48 else n + 87

-- `bs.hex()`
unfoldable pub bytes_hex : Bytes → Text
unfolding hex_digit
bytes_hex [] = []
bytes_hex (b ∷ bs) = hex_digit (b / 16) ∷ hex_digit (b % 16) ∷ bytes_hex bs

abbrev pub two_digits : Option ℕ → Option ℕ → Option Bytes → Option Bytes
two_digits (some hi) (some lo) (some bs) = some ((hi * 16 + lo) ∷ bs)
two_digits _ _ _ = none

-- `bytes.fromhex(s)` of an even number of digits; no bytes where it is not that.
unfoldable pub from_hex : Text → Option Bytes
unfolding hex_value
from_hex [] = some []
from_hex (a ∷ []) = none
from_hex (a ∷ b ∷ s) = two_digits (hex_value a) (hex_value b) (from_hex s)

-- The test on the number of bytes.
abbrev pub check_bytes : Option Bytes → Outcome Error Bytes
check_bytes none = err invalid_cheat
check_bytes (some []) = err invalid_cheat
check_bytes (some (b ∷ bs)) =
    if ltb write_max (length (b ∷ bs)) then err invalid_cheat else ok (b ∷ bs)

-- `_parse_hex_bytes` of a text; of no other value does it accept one.
unfoldable pub parse_hex_bytes : Text → Outcome Error Bytes
unfolding from_hex
parse_hex_bytes s = check_bytes (from_hex (strip s))

-- The digits of `n` in front of `acc`, with fuel.
unfoldable pub to_hex : ℕ → ℕ → Text → Text
unfolding hex_digit
to_hex zero n acc = acc
to_hex (suc fuel) n acc =
    let rest = to_hex fuel (n / 16) (hex_digit (n % 16) ∷ acc) in
    if ltb n 16 then hex_digit n ∷ acc else rest

-- `format(n, "x")`
unfoldable pub format_hex : ℕ → Text
unfolding to_hex
format_hex n = to_hex (suc n) n []

-- The digits of `int(s, 16)`: an underscore may stand between two of them. `after` says that a
-- digit came just before.
unfoldable pub hex_digits : Bool → ℕ → Text → Option ℕ
unfolding hex_value
hex_digits after acc [] = if after then some acc else none
hex_digits after acc (c ∷ s) =
    if c == 95
    then (elim after [ true ↦ hex_digits false acc s | false ↦ none ])
    else (elim (hex_value c) [ none ↦ none | some d ↦ hex_digits true (acc * 16 + d) s ])

-- The prefix `0x`, after which one underscore may stand.
unfoldable pub hex_unsigned : Text → Option ℕ
unfolding hex_digits
hex_unsigned (z ∷ x ∷ u ∷ s) =
    if (z == 48) && ((x == 120) || (x == 88))
    then (if u == 95 then hex_digits false 0 s else hex_digits false 0 (u ∷ s))
    else hex_digits false 0 (z ∷ x ∷ u ∷ s)
hex_unsigned s = hex_digits false 0 s

abbrev pub negated : Option ℕ → Option ℤ
negated none = none
negated (some zero) = some (pos 0)
negated (some (suc n)) = some (negsuc n)

abbrev pub positive : Option ℕ → Option ℤ
positive none = none
positive (some n) = some (pos n)

unfoldable pub hex_signed : Text → Option ℤ
unfolding hex_unsigned
hex_signed [] = none
hex_signed (c ∷ s) =
    if c == 45
    then negated (hex_unsigned s)
    else if c == 43
    then positive (hex_unsigned s)
    else positive (hex_unsigned (c ∷ s))

-- `int(s, 16)`; none where Python raises `ValueError`.
unfoldable pub int_of_hex : Text → Option ℤ
unfolding hex_signed
int_of_hex s = hex_signed (strip s)
