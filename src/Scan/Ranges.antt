-- ===== src/Scan/Ranges.antt =====
-- `merge_ranges` of web/nitepr5_core/scan.py. A range is the pair of its start and its end, which
-- it does not contain.
pub mod Sorting
pub mod Merging
use nite_pr.Base.{
  ℕ, max, Bool, true, false, ◌&&◌, ◌||◌, List, [], ◌∷◌, ltb, leb, ◌==◌, if◌then◌else◌, keep,
}

abbrev pub Range : Type 0
Range = ℕ × ℕ

-- Python's order on pairs.
abbrev pub precedes : Range → Range → Bool
precedes (s, e) (t, f) = ltb s t || (s == t && leb e f)

unfoldable pub insert_sorted : Range → List Range → List Range
insert_sorted r [] = r ∷ []
insert_sorted r (q ∷ qs) = if precedes r q then r ∷ q ∷ qs else q ∷ insert_sorted r qs

-- `cleaned.sort()`: the order is total, and equal pairs are one, so any sort has this result.
unfoldable pub sort : List Range → List Range
unfolding insert_sorted
sort [] = []
sort (r ∷ rs) = insert_sorted r (sort rs)

-- The loop over `cleaned[1:]`; the first pair is `out[-1]`, which later rounds may widen.
unfoldable pub merge_from : Range → List Range → List Range
merge_from last [] = last ∷ []
merge_from (prev_s, prev_e) ((start, end) ∷ rest) = elim (leb start prev_e) [
  | true ↦ merge_from (prev_s, max prev_e end) rest
  | false ↦ (prev_s, prev_e) ∷ merge_from (start, end) rest
]

abbrev pub merge_sorted : List Range → List Range
merge_sorted [] = []
merge_sorted (r ∷ rest) = merge_from r rest

-- `[(s, e) for s, e in ranges if e > s]`
abbrev pub cleaned : List Range → List Range
cleaned ranges = keep (λ r. ltb r.0 r.1) ranges

unfoldable pub merge_ranges : List Range → List Range
unfolding merge_from sort
merge_ranges ranges = merge_sorted (sort (cleaned ranges))

-- An address lies in a range.
abbrev pub inside : ℕ → Range → Bool
inside a (s, e) = leb s a && ltb a e

-- An address lies in one of the ranges.
unfoldable pub covers : ℕ → List Range → Bool
covers a [] = false
covers a (r ∷ rs) = inside a r || covers a rs
