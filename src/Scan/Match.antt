-- ===== src/Scan/Match.antt =====
-- `match_u32`, `u32_from_bytes` and `u32_to_bytes` of web/nitepr5_core/scan.py.
pub mod Laws
use nite_pr.Base.{
  ℕ, ◌+◌, ◌*◌, ◌/◌, ◌%◌, ◌^◌, Bool, true, false, not, List, [], ◌∷◌, ◌==◌, ltb, if◌then◌else◌,
}
use nite_pr.Base.Exec.{Outcome, ok, err}
use nite_pr.Constants.{
  scan_compare_exact, scan_compare_increased, scan_compare_decreased, scan_compare_changed,
  scan_compare_unchanged, scan_compare_unknown,
}
use nite_pr.Types.{Bytes}
use nite_pr.Errors.{Error, invalid_scan_value, invalid_scan_compare}

-- `x & 0xFFFFFFFF`
abbrev pub mask32 : ℕ → ℕ
mask32 x = x % 2 ^ 32

unfoldable pub u32_from_bytes : Bytes → Outcome Error ℕ
u32_from_bytes (a ∷ b ∷ c ∷ d ∷ rest) = ok (a + 256 * b + 65536 * c + 16777216 * d)
u32_from_bytes _ = err invalid_scan_value

unfoldable pub u32_to_bytes : ℕ → Bytes
u32_to_bytes value =
    let v = mask32 value in v % 256 ∷ v / 256 % 256 ∷ v / 65536 % 256 ∷ v / 16777216 ∷ []

unfoldable pub match_u32 : ℕ → ℕ → ℕ → ℕ → Outcome Error Bool
match_u32 compare current previous value =
    let cur = mask32 current in
    let prev = mask32 previous in
    let val = mask32 value in
    if compare == scan_compare_exact
    then ok (cur == val)
    else if compare == scan_compare_increased
    then ok (ltb prev cur)
    else if compare == scan_compare_decreased
    then ok (ltb cur prev)
    else if compare == scan_compare_changed
    then ok (not (cur == prev))
    else if compare == scan_compare_unchanged
    then ok (cur == prev)
    else if compare == scan_compare_unknown
    then ok (not (cur == 0))
    else err invalid_scan_compare
