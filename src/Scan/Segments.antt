-- ===== src/Scan/Segments.antt =====
-- `ranges_to_segments` and `cap_get_count` of web/nitepr5_core/scan.py. A segment is the pair of
-- its address and its length.
pub mod Laws
use nite_pr.Base.{
  ℕ, zero, suc, ◌+◌, ◌-◌, ◌/◌, min, Bool, true, false, not, ◌&&◌, ◌||◌, List, [], ◌∷◌, ◌++◌, length,
  ltb, leb, if◌then◌else◌,
}
use nite_pr.Base.Exec.{Outcome, ok, err}
use nite_pr.Constants.{scan_segment_min, scan_segment_max, results_max}
use nite_pr.Errors.{Error, scan_unsupported}
use nite_pr.Scan.Ranges.{Range, merge_ranges}

abbrev pub Segment : Type 0
Segment = ℕ × ℕ

abbrev pub max_len : ℕ
max_len = 0xffff_ffff

-- The rounds that the `while remaining > 0` loop is given: each but the last takes `max_len`.
abbrev pub rounds : ℕ → ℕ
rounds remaining = suc (remaining / max_len)

-- The `while` loop over one range, with fuel.
unfoldable pub split : ℕ → ℕ → ℕ → List Segment
split zero addr remaining = []
split (suc fuel) addr remaining =
    let chunk = if leb remaining max_len then remaining else max_len in
    let rest = split fuel (addr + chunk) (remaining - chunk) in
    if ltb 0 remaining then (addr, chunk) ∷ rest else []

unfoldable pub split_all : List Range → List Segment
unfolding split
split_all [] = []
split_all ((start, end) ∷ rest) = split (rounds (end - start)) start (end - start) ++ split_all rest

-- `SCAN_SEGMENT_MIN <= len(segments) <= SCAN_SEGMENT_MAX`
abbrev pub is_segment_count : ℕ → Bool
is_segment_count n = leb scan_segment_min n && leb n scan_segment_max

unfoldable pub checked : List Segment → Outcome Error (List Segment)
checked segments = if is_segment_count (length segments) then ok segments else err scan_unsupported

unfoldable pub ranges_to_segments : List Range → Outcome Error (List Segment)
unfolding checked
ranges_to_segments ranges = checked (split_all (merge_ranges ranges))

-- `min(limit, count, RESULTS_MAX)`
abbrev pub cap_get_count : ℕ → ℕ → ℕ
cap_get_count limit count = min limit (min count results_max)

-- An address lies in a segment, and in one of the segments.
abbrev pub in_segment : ℕ → Segment → Bool
in_segment a (addr, len) = leb addr a && ltb a (addr + len)

unfoldable pub reaches : ℕ → List Segment → Bool
reaches a [] = false
reaches a (g ∷ gs) = in_segment a g || reaches a gs
