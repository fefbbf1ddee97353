-- ===== src/Scan/Ranges/Merging.antt =====
-- The shape of the ranges that `merge_ranges` returns, and the addresses in them.
use nite_pr.Base.{
  ℕ, ◌<◌, max, ◌≡◌, refl, ◌∙◌, true, false, ◌||◌, List, [], ◌∷◌, arith, leb, Bool-cases, inl, inr,
}
use nite_pr.Scan.Ranges.{
  Range, sort, cleaned, merge_from, merge_sorted, merge_ranges, inside, covers,
}
use nite_pr.Scan.Ranges.Sorting.{
  StartsFrom, IsOrdered, StartsFrom-mono, IsOrdered-sort, covers-sort, covers-cleaned,
  AllProper-cleaned,
}

-- The first range begins above `b`, each range is not empty, and between one range and the next
-- there is at least one address that neither contains.
abbrev pub SeparatedFrom : ℕ → List Range → Type 0
SeparatedFrom b [] = Unit
SeparatedFrom b (r ∷ rs) = (b < r.0) × (r.0 < r.1) × SeparatedFrom r.1 rs

abbrev pub IsSeparated : List Range → Type 0
IsSeparated [] = Unit
IsSeparated (r ∷ rs) = (r.0 < r.1) × SeparatedFrom r.1 rs

module _ (r q : Range) (qs : List Range) where
  merge_from_joined : leb q.0 r.1 ≡ true → merge_from r (q ∷ qs) ≡ merge_from (r.0, max r.1 q.1) qs
  unfolding merge_from
  merge_from_joined h = ground arith

  merge_from_apart : leb q.0 r.1 ≡ false → merge_from r (q ∷ qs) ≡ r ∷ merge_from q qs
  unfolding merge_from
  merge_from_apart h = ground arith

merge_from-SeparatedFrom :
    (b : ℕ) (r : Range) (rs : List Range)
    → b < r.0
    → r.0 < r.1
    → StartsFrom r.0 rs
    → IsOrdered rs
    → SeparatedFrom b (merge_from r rs)
unfolding merge_from
merge_from-SeparatedFrom b r [] h p s o = (h, p, tt)
merge_from-SeparatedFrom b r (q ∷ qs) h p s o = elim (Bool-cases (leb q.0 r.1)) [
  | inl joined ↦ rw (merge_from_joined r q qs joined) (
      merge_from-SeparatedFrom b (r.0, max r.1 q.1) qs h (omega arith)
        (StartsFrom-mono r.0 q.0 qs s.0 o.1) o.2)
  | inr apart ↦
      rw (merge_from_apart r q qs apart)
        (h, p, merge_from-SeparatedFrom r.1 q qs (ground arith) o.0 o.1 o.2)
]

merge_from-IsSeparated :
    (r : Range) (rs : List Range)
    → r.0 < r.1
    → StartsFrom r.0 rs
    → IsOrdered rs
    → IsSeparated (merge_from r rs)
unfolding merge_from
merge_from-IsSeparated r [] p s o = (p, tt)
merge_from-IsSeparated r (q ∷ qs) p s o = elim (Bool-cases (leb q.0 r.1)) [
  | inl joined ↦ rw (merge_from_joined r q qs joined) (
      merge_from-IsSeparated (r.0, max r.1 q.1) qs (omega arith)
        (StartsFrom-mono r.0 q.0 qs s.0 o.1) o.2)
  | inr apart ↦
      rw (merge_from_apart r q qs apart)
        (p, merge_from-SeparatedFrom r.1 q qs (ground arith) o.0 o.1 o.2)
]

covers-merge_from :
    (a : ℕ) (r : Range) (rs : List Range)
    → r.0 < r.1
    → StartsFrom r.0 rs
    → IsOrdered rs
    → covers a (merge_from r rs) ≡ (inside a r || covers a rs)
unfolding merge_from covers
covers-merge_from a r [] p s o = refl
covers-merge_from a r (q ∷ qs) p s o = ground (
  arith,
  covers-merge_from a (r.0, max r.1 q.1) qs,
  covers-merge_from a q qs,
  StartsFrom-mono r.0 q.0 qs,
)

merge_sorted-IsSeparated : (rs : List Range) → IsOrdered rs → IsSeparated (merge_sorted rs)
merge_sorted-IsSeparated [] o = tt
merge_sorted-IsSeparated (r ∷ rs) o = merge_from-IsSeparated r rs o.0 o.1 o.2

covers-merge_sorted :
    (a : ℕ) (rs : List Range) → IsOrdered rs → covers a (merge_sorted rs) ≡ covers a rs
unfolding covers
covers-merge_sorted a [] o = refl
covers-merge_sorted a (r ∷ rs) o = covers-merge_from a r rs o.0 o.1 o.2

IsOrdered-cleaned : (rs : List Range) → IsOrdered (sort (cleaned rs))
IsOrdered-cleaned rs = IsOrdered-sort (cleaned rs) (AllProper-cleaned rs)

-- The merged ranges are not empty, stand in ascending order, and neither overlap nor touch.
pub merge_ranges-IsSeparated : (rs : List Range) → IsSeparated (merge_ranges rs)
unfolding merge_ranges
merge_ranges-IsSeparated rs = merge_sorted-IsSeparated (sort (cleaned rs)) (IsOrdered-cleaned rs)

-- An address lies in one of the merged ranges exactly when it lies in one of the given ranges.
pub covers-merge_ranges : (a : ℕ) (rs : List Range) → covers a (merge_ranges rs) ≡ covers a rs
unfolding merge_ranges
covers-merge_ranges a rs =
    covers-merge_sorted a (sort (cleaned rs)) (IsOrdered-cleaned rs)
    ∙ covers-sort a (cleaned rs)
    ∙ covers-cleaned a rs
