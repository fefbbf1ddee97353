-- ===== src/Scan/Segments/Laws.antt =====
-- The addresses that the segments reach, and the lengths that go into the u32 field of the
-- protocol.
use nite_pr.Base.{
  ℕ, zero, suc, ◌+◌, ◌-◌, ◌*◌, ◌≤◌, ◌<◌, ◌≡◌, refl, ◌∙◌, ◌||◌, List, [], ◌∷◌, ◌++◌, length, All,
  arith, leb, Bool-cases, inl, inr,
}
use nite_pr.Base.Exec.{ok}
use nite_pr.Constants.{scan_segment_min, scan_segment_max}
use nite_pr.Scan.Ranges.{Range, merge_ranges, covers}
use nite_pr.Scan.Ranges.Merging.{
  SeparatedFrom, IsSeparated, merge_ranges-IsSeparated, covers-merge_ranges,
}
use nite_pr.Scan.Segments.{
  Segment, max_len, rounds, split, split_all, checked, ranges_to_segments, in_segment, reaches,
}

abbrev pub HasWireLength : Segment → Type 0
HasWireLength g = (1 ≤ g.1) × (g.1 ≤ max_len)

reaches-append :
    (a : ℕ) (gs hs : List Segment) → reaches a (gs ++ hs) ≡ (reaches a gs || reaches a hs)
unfolding reaches
reaches-append a [] hs = refl
reaches-append a (g ∷ gs) hs = ground (arith, reaches-append a gs hs)

split_zero : (fuel addr : ℕ) → split fuel addr 0 ≡ []
unfolding split
split_zero zero addr = refl
split_zero (suc fuel) addr = refl

split_last :
    (fuel addr remaining : ℕ)
    → 0 < remaining
    → remaining ≤ max_len
    → split (suc fuel) addr remaining ≡ (addr, remaining) ∷ []
unfolding split
split_last fuel addr remaining h k =
    let e : remaining - remaining ≡ 0 = omega arith in
    ground (arith, split_zero fuel (addr + remaining))

split_more :
    (fuel addr remaining : ℕ)
    → max_len < remaining
    → split (suc fuel) addr remaining
      ≡ (addr, max_len) ∷ split fuel (addr + max_len) (remaining - max_len)
unfolding split
split_more fuel addr remaining h = ground arith

-- What holds of each round of the loop holds of the loop: no bytes are left, one last chunk, or
-- a chunk of `max_len` and the rest.
split_induction :
    (P : ℕ → ℕ → List Segment → Type 0)
    → ((addr : ℕ) → P addr 0 [])
    → ((addr remaining : ℕ)
        → 0 < remaining
        → remaining ≤ max_len
        → P addr remaining ((addr, remaining) ∷ []))
    → ((addr remaining : ℕ) (gs : List Segment)
        → max_len < remaining
        → P (addr + max_len) (remaining - max_len) gs
        → P addr remaining ((addr, max_len) ∷ gs))
    → (fuel addr remaining : ℕ) → remaining < fuel * max_len
    → P addr remaining (split fuel addr remaining)
split_induction P empty last more zero addr remaining h = absurd (omega arith)
split_induction P empty last more (suc fuel) addr zero h = rw split_zero (empty addr)
split_induction P empty last more (suc fuel) addr (suc remaining) h =
    elim (Bool-cases (leb (suc remaining) max_len)) [
      | inl short ↦
          rw (split_last fuel addr (suc remaining) (omega arith) (ground arith))
            (last addr (suc remaining) (omega arith) (ground arith))
      | inr long ↦ rw (split_more fuel addr (suc remaining) (ground arith)) (
          more addr (suc remaining) _ (ground arith) (
            split_induction P empty last more fuel (addr + max_len) (suc remaining - max_len)
              (ground arith)))
    ]

rounds_enough : (remaining : ℕ) → remaining < rounds remaining * max_len
rounds_enough remaining = omega arith

reaches-split :
    (a fuel addr remaining : ℕ)
    → remaining < fuel * max_len
    → reaches a (split fuel addr remaining) ≡ in_segment a (addr, remaining)
unfolding reaches
reaches-split a fuel addr remaining h =
    split_induction (λ addr remaining gs. reaches a gs ≡ in_segment a (addr, remaining))
      (λ addr. ground arith) (λ addr remaining p q. ground arith)
      (λ addr remaining gs p ih. ground arith) fuel addr remaining h

reaches-split_all : (a : ℕ) (rs : List Range) → reaches a (split_all rs) ≡ covers a rs
unfolding split_all covers reaches
reaches-split_all a [] = refl
reaches-split_all a ((s, e) ∷ rs) = ground (
  arith,
  reaches-append a (split (rounds (e - s)) s (e - s)) (split_all rs),
  reaches-split a (rounds (e - s)) s (e - s) (rounds_enough (e - s)),
  reaches-split_all a rs,
)

All-append {ℓ κ} :
    {A : Type ℓ} (P : A → Type κ) (xs ys : List A) → All P xs → All P ys → All P (xs ++ ys)
All-append P [] ys h k = k
All-append P (x ∷ xs) ys h k = (h.0, All-append P xs ys h.1 k)

split-HasWireLength :
    (fuel addr remaining : ℕ)
    → remaining < fuel * max_len
    → All HasWireLength (split fuel addr remaining)
split-HasWireLength =
    split_induction (λ addr remaining gs. All HasWireLength gs) (λ addr. tt)
      (λ addr remaining p q. (omega arith, tt)) (λ addr remaining gs p ih. (omega arith, ih))

split_all-HasWireLength : (rs : List Range) → All HasWireLength (split_all rs)
unfolding split_all
split_all-HasWireLength [] = tt
split_all-HasWireLength ((s, e) ∷ rs) =
    All-append HasWireLength (split (rounds (e - s)) s (e - s)) (split_all rs)
      (split-HasWireLength (rounds (e - s)) s (e - s) (rounds_enough (e - s)))
      (split_all-HasWireLength rs)

-- The segments stand in ascending order from `lo`, and no two of them overlap.
abbrev pub AscendFrom : ℕ → List Segment → Type 0
AscendFrom lo [] = Unit
AscendFrom lo (g ∷ gs) = (lo ≤ g.0) × AscendFrom (g.0 + g.1) gs

AscendFrom-mono : (b c : ℕ) (gs : List Segment) → b ≤ c → AscendFrom c gs → AscendFrom b gs
AscendFrom-mono b c [] h k = tt
AscendFrom-mono b c (g ∷ gs) h k = (omega arith, k.1)

AscendFrom-split :
    (hs : List Segment) (fuel addr remaining : ℕ)
    → remaining < fuel * max_len
    → AscendFrom (addr + remaining) hs
    → AscendFrom addr (split fuel addr remaining ++ hs)
AscendFrom-split hs =
    split_induction
      (λ addr remaining gs. AscendFrom (addr + remaining) hs → AscendFrom addr (gs ++ hs))
      (λ addr k. AscendFrom-mono addr (addr + 0) hs (omega arith) k)
      (λ addr remaining p q k. (omega arith, k))
      (λ addr remaining gs p ih k. (
        omega arith,
        ih (
            AscendFrom-mono (addr + max_len + (remaining - max_len)) (addr + remaining) hs
              (omega arith) k),
      ))

AscendFrom-split_all : (b : ℕ) (rs : List Range) → SeparatedFrom b rs → AscendFrom b (split_all rs)
unfolding split_all
AscendFrom-split_all b [] h = tt
AscendFrom-split_all b ((s, e) ∷ rs) (lt, proper, rest) = AscendFrom-mono b s _ (omega arith) (
    AscendFrom-split (split_all rs) (rounds (e - s)) s (e - s) (rounds_enough (e - s)) (
      AscendFrom-mono (s + (e - s)) e (split_all rs) (omega arith)
        (AscendFrom-split_all e rs rest)))

AscendFrom-merged : (rs : List Range) → IsSeparated rs → AscendFrom 0 (split_all rs)
unfolding split_all
AscendFrom-merged [] h = tt
AscendFrom-merged ((s, e) ∷ rs) (proper, rest) = AscendFrom-mono 0 s _ (omega arith) (
    AscendFrom-split (split_all rs) (rounds (e - s)) s (e - s) (rounds_enough (e - s)) (
      AscendFrom-mono (s + (e - s)) e (split_all rs) (omega arith)
        (AscendFrom-split_all e rs rest)))

checked_ok :
    (gs hs : List Segment)
    → checked gs ≡ ok hs
    → (gs ≡ hs) × (scan_segment_min ≤ length hs) × (length hs ≤ scan_segment_max)
unfolding checked
checked_ok gs hs h = ground arith

-- When `ranges_to_segments` returns, an address lies in one of the segments exactly when it lies
-- in one of the given ranges.
pub reaches-ranges_to_segments :
    (a : ℕ) (rs : List Range) {gs : List Segment}
    → ranges_to_segments rs ≡ ok gs
    → reaches a gs ≡ covers a rs
unfolding ranges_to_segments
reaches-ranges_to_segments a rs {gs} h =
    let (e, _, _) = checked_ok (split_all (merge_ranges rs)) gs h in
    rw (← e) (reaches-split_all a (merge_ranges rs) ∙ covers-merge_ranges a rs)

-- When `ranges_to_segments` returns, every segment's length is at least 1 and fits a u32, the
-- segments ascend without overlap, and their number is within the protocol's bounds.
pub ranges_to_segments_shape :
    (rs : List Range) {gs : List Segment}
    → ranges_to_segments rs ≡ ok gs
    → All HasWireLength gs
      × AscendFrom 0 gs
      × (scan_segment_min ≤ length gs)
      × (length gs ≤ scan_segment_max)
unfolding ranges_to_segments
ranges_to_segments_shape rs {gs} h =
    let (e, lo, hi) = checked_ok (split_all (merge_ranges rs)) gs h in
    (
      rw e at (split_all-HasWireLength (merge_ranges rs)),
      rw e at (AscendFrom-merged (merge_ranges rs) (merge_ranges-IsSeparated rs)),
      lo,
      hi,
    )
