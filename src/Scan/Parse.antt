-- ===== src/Scan/Parse.antt =====
-- The names and numbers of a scan request: `parse_value_type`, `parse_compare`,
-- `require_first_compare`, `require_next_compare`, `value_size`, `parse_u32_value` and
-- `alignment_or_default` of web/nitepr5_core/scan.py.
use nite_pr.Base.{ℕ, Bool, ◌||◌, Option, none, some, List, [], ◌∷◌, ◌==◌, leb, ltb, if◌then◌else◌}
use nite_pr.Base.Int.{pos}
use nite_pr.Base.Text.{Text, text, eq_text, strip, lower}
use nite_pr.Base.Exec.{Outcome, ok, err}
use nite_pr.Constants.{
  scan_value_uint32, scan_compare_exact, scan_compare_increased, scan_compare_decreased,
  scan_compare_changed, scan_compare_unchanged, scan_compare_unknown,
}
use nite_pr.Types.{Dyn}
use nite_pr.Errors.{Error, invalid_scan_value, invalid_scan_compare}

-- A dictionary literal with texts for keys.
abbrev Table : Type 0
Table = List (Text × ℕ)

unfoldable pub find : Text → Table → Option ℕ
unfolding eq_text
find key [] = none
find key ((k, v) ∷ rest) = if eq_text key k then some v else find key rest

abbrev pub value_types : Table
value_types =
    (text "u32", scan_value_uint32)
    ∷ (text "uint32", scan_value_uint32)
    ∷ (text "UINT32", scan_value_uint32)
    ∷ []

abbrev pub compare_types : Table
compare_types =
    (text "exact", scan_compare_exact)
    ∷ (text "equal", scan_compare_exact)
    ∷ (text "exact_value", scan_compare_exact)
    ∷ (text "increased", scan_compare_increased)
    ∷ (text "increased_value", scan_compare_increased)
    ∷ (text "decreased", scan_compare_decreased)
    ∷ (text "decreased_value", scan_compare_decreased)
    ∷ (text "changed", scan_compare_changed)
    ∷ (text "changed_value", scan_compare_changed)
    ∷ (text "unchanged", scan_compare_unchanged)
    ∷ (text "unchanged_value", scan_compare_unchanged)
    ∷ (text "unknown", scan_compare_unknown)
    ∷ (text "unknown_initial", scan_compare_unknown)
    ∷ []

abbrev found : Option ℕ → Error → Outcome Error ℕ
found none e = err e
found (some v) e = ok v

unfoldable pub parse_value_type : Text → Outcome Error ℕ
unfolding find
parse_value_type name = found (find (strip name) value_types) invalid_scan_value

unfoldable pub parse_compare : Text → Outcome Error ℕ
unfolding find
parse_compare name = found (find (lower (strip name)) compare_types) invalid_scan_compare

-- `compare in _FIRST_SCAN_COMPARES`
abbrev pub is_first_compare : ℕ → Bool
is_first_compare c = c == scan_compare_exact || c == scan_compare_unknown

-- `compare in _NEXT_SCAN_COMPARES`
abbrev pub is_next_compare : ℕ → Bool
is_next_compare c =
    c == scan_compare_exact
    || (c == scan_compare_increased
        || (c == scan_compare_decreased
            || (c == scan_compare_changed || c == scan_compare_unchanged)))

unfoldable pub require_first_compare : ℕ → Outcome Error (Unit {0})
require_first_compare c = if is_first_compare c then ok tt else err invalid_scan_compare

unfoldable pub require_next_compare : ℕ → Outcome Error (Unit {0})
require_next_compare c = if is_next_compare c then ok tt else err invalid_scan_compare

unfoldable pub value_size : ℕ → Outcome Error ℕ
value_size value_type = if value_type == scan_value_uint32 then ok 4 else err invalid_scan_value

-- The argument is `int | None`, and `isinstance` is asked of what comes.
unfoldable pub parse_u32_value : Dyn → Bool → Outcome Error ℕ
parse_u32_value Dyn.nothing required = if required then err invalid_scan_value else ok 0
parse_u32_value (Dyn.int (pos v)) required =
    if ltb 0xffff_ffff v then err invalid_scan_value else ok v
parse_u32_value _ required = err invalid_scan_value

unfoldable pub alignment_or_default : Dyn → Outcome Error ℕ
alignment_or_default (Dyn.int (pos a)) = if leb a 0 then err invalid_scan_value else ok a
alignment_or_default _ = err invalid_scan_value
