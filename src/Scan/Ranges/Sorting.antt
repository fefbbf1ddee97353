-- ===== src/Scan/Ranges/Sorting.antt =====
-- Sorting and cleaning the ranges: their order, and the addresses in them.
use nite_pr.Base.{ℕ, ◌≤◌, ◌<◌, ◌≡◌, refl, ◌||◌, List, [], ◌∷◌, arith}
use nite_pr.Scan.Ranges.{Range, insert_sorted, sort, cleaned, inside, covers}

-- Each range starts at `b` or above.
abbrev pub StartsFrom : ℕ → List Range → Type 0
StartsFrom b [] = Unit
StartsFrom b (r ∷ rs) = (b ≤ r.0) × StartsFrom b rs

-- The starts do not fall, and no range is empty.
abbrev pub IsOrdered : List Range → Type 0
IsOrdered [] = Unit
IsOrdered (r ∷ rs) = (r.0 < r.1) × StartsFrom r.0 rs × IsOrdered rs

abbrev pub AllProper : List Range → Type 0
AllProper [] = Unit
AllProper (r ∷ rs) = (r.0 < r.1) × AllProper rs

pub StartsFrom-mono : (b c : ℕ) (rs : List Range) → b ≤ c → StartsFrom c rs → StartsFrom b rs
StartsFrom-mono b c [] h s = tt
StartsFrom-mono b c (r ∷ rs) h s = (omega arith, StartsFrom-mono b c rs h s.1)

StartsFrom-insert_sorted :
    (b : ℕ) (r : Range) (rs : List Range)
    → b ≤ r.0
    → StartsFrom b rs
    → StartsFrom b (insert_sorted r rs)
unfolding insert_sorted
StartsFrom-insert_sorted b r [] h s = (h, tt)
StartsFrom-insert_sorted b r (q ∷ qs) h s = ground (arith, StartsFrom-insert_sorted b r qs h s.1)

IsOrdered-insert_sorted :
    (r : Range) (rs : List Range) → r.0 < r.1 → IsOrdered rs → IsOrdered (insert_sorted r rs)
unfolding insert_sorted
IsOrdered-insert_sorted r [] h o = (h, tt, tt)
IsOrdered-insert_sorted r (q ∷ qs) h o = ground (
  arith,
  IsOrdered-insert_sorted r qs h o.2,
  StartsFrom-insert_sorted q.0 r qs,
  StartsFrom-mono r.0 q.0 qs,
)

pub IsOrdered-sort : (rs : List Range) → AllProper rs → IsOrdered (sort rs)
unfolding sort
IsOrdered-sort [] h = tt
IsOrdered-sort (r ∷ rs) h = IsOrdered-insert_sorted r (sort rs) h.0 (IsOrdered-sort rs h.1)

covers-insert_sorted :
    (a : ℕ) (r : Range) (rs : List Range)
    → covers a (insert_sorted r rs) ≡ (inside a r || covers a rs)
unfolding insert_sorted covers
covers-insert_sorted a r [] = refl
covers-insert_sorted a r (q ∷ qs) = ground (arith, covers-insert_sorted a r qs)

pub covers-sort : (a : ℕ) (rs : List Range) → covers a (sort rs) ≡ covers a rs
unfolding sort covers
covers-sort a [] = refl
covers-sort a (r ∷ rs) = ground (arith, covers-sort a rs, covers-insert_sorted a r (sort rs))

pub covers-cleaned : (a : ℕ) (rs : List Range) → covers a (cleaned rs) ≡ covers a rs
unfolding covers
covers-cleaned a [] = refl
covers-cleaned a (r ∷ rs) = ground (arith, covers-cleaned a rs)

pub AllProper-cleaned : (rs : List Range) → AllProper (cleaned rs)
AllProper-cleaned [] = tt
AllProper-cleaned (r ∷ rs) = ground (arith, AllProper-cleaned rs)
