-- ===== src/Scan/Bitmap.antt =====
-- `snapshot_bitmap_bytes` and `snapshot_fits` of web/nitepr5_core/scan.py, and what the sizes mean.
use nite_pr.Base.{
  ℕ, ◌+◌, ◌-◌, ◌*◌, ◌/◌, ◌≤◌, ◌<◌, ◌↔◌, Bool, List, [], ◌∷◌, arith, ltb, leb, if◌then◌else◌,
}
use native.Mathlib.Nat.{le-div_iff_mul-le}
use nite_pr.Constants.{snap_bitmap_max}
use nite_pr.Scan.Segments.{Segment}

abbrev pub step_of : ℕ → ℕ → ℕ
step_of value_size alignment = if ltb 0 alignment then alignment else value_size

-- The slots that one segment adds.
unfoldable pub segment_slots : ℕ → ℕ → ℕ → ℕ
segment_slots value_size step len = if leb value_size len then (len - value_size) / step + 1 else 0

-- The loop that sums the slots.
unfoldable pub slots : ℕ → ℕ → List Segment → ℕ
unfolding segment_slots
slots value_size step [] = 0
slots value_size step ((addr, len) ∷ segments) =
    segment_slots value_size step len + slots value_size step segments

-- `(slots + 7) >> 3`
unfoldable pub snapshot_bitmap_bytes : List Segment → ℕ → ℕ → ℕ
unfolding slots
snapshot_bitmap_bytes segments value_size alignment =
    (slots value_size (step_of value_size alignment) segments + 7) / 8

-- The callers leave `value_size` at its default, the size of a u32.
unfoldable pub snapshot_fits : List Segment → ℕ → Bool
unfolding snapshot_bitmap_bytes
snapshot_fits segments alignment = leb (snapshot_bitmap_bytes segments 4 alignment) snap_bitmap_max

-- Slot `k` of a segment, at `k` steps from its start, is counted exactly when the value there
-- lies within the segment.
pub segment_slots_exact :
    (k value_size step len : ℕ)
    → 0 < step
    → (k < segment_slots value_size step len) ↔ (k * step + value_size ≤ len)
unfolding segment_slots
segment_slots_exact k value_size step len h =
    let (to, from) = le-div_iff_mul-le {k = step} {x = k} {y = len - value_size} h in
    (λ p. ground (arith, to), λ p. ground (arith, from))

-- The bitmap has a bit for every slot, and fewer than eight bits to spare.
pub bitmap_holds_slots :
    (segments : List Segment) (value_size alignment : ℕ)
    → let n = slots value_size (step_of value_size alignment) segments in
      let bits = 8 * snapshot_bitmap_bytes segments value_size alignment in
      (n ≤ bits) × (bits < n + 8)
unfolding snapshot_bitmap_bytes
bitmap_holds_slots segments value_size alignment = omega arith
