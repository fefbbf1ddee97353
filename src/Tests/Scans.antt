-- ===== src/Tests/Scans.antt =====
-- The theorems on the helpers of the scan, applied to small inputs.
use nite_pr.Base.{
  ℕ, ◌+◌, ◌*◌, ◌%◌, ◌^◌, ◌≤◌, ◌<◌, ◌≡◌, ◌≢◌, ◌↔◌, ◌⊎◌, inl, inr, refl, Bool, true, false, ◌||◌,
  Option, none, some, List, [], ◌∷◌, ◌++◌, arith, length, take, All, if◌then◌else◌,
}
use nite_pr.Base.Text.{Text, text}
use nite_pr.Base.Exec.{ok}
use nite_pr.Constants.{scan_segment_min, scan_segment_max}
use nite_pr.Types.{MemoryMap, ScanRegion}
use nite_pr.Scan.Parse.{require_first_compare}
use nite_pr.Scan.Match.{mask32, match_u32}
use nite_pr.Scan.Match.Laws.{Verdict, match_u32_iff, match_u32_total}
use nite_pr.Scan.Ranges.{Range, merge_ranges, covers}
use nite_pr.Scan.Ranges.Merging.{covers-merge_ranges}
use nite_pr.Scan.Segments.{split_all, ranges_to_segments, reaches}
use nite_pr.Scan.Segments.Laws.{
  HasWireLength, AscendFrom, reaches-ranges_to_segments, ranges_to_segments_shape,
}
use nite_pr.Scan.Classify.{classify_maps, classify_turbo_regions}
use nite_pr.Scan.Classify.Laws.{InRegions, InMaps, turbo_segments_exact, maps_segments_exact}
use nite_pr.Scan.Bitmap.{
  segment_slots, slots, step_of, snapshot_bitmap_bytes, segment_slots_exact, bitmap_holds_slots,
}
use nite_pr.Base.Text.{mem_text}

abbrev ranges : List Range
ranges = (100, 200) ∷ (50, 120) ∷ (300, 300) ∷ (400, 404) ∷ []

abbrev regions : List ScanRegion
regions =
    record { start = 100; end = 200; prot = 3; uncached = false }
    ∷ record { start = 200; end = 300; prot = 5; uncached = false }
    ∷ record { start = 300; end = 400; prot = 3; uncached = true }
    ∷ []

abbrev game_maps : List MemoryMap
game_maps =
    record { name = text "eboot.bin"; start = 100; end = 200; offset = 0; prot = 3 }
    ∷ record { name = text "SceGnm"; start = 300; end = 400; offset = 0; prot = 3 }
    ∷ []

covers-merge_ranges_example : covers 150 (merge_ranges ranges) ≡ covers 150 ranges
covers-merge_ranges_example = covers-merge_ranges 150 ranges

reaches-ranges_to_segments_example : reaches 150 ((50, 150) ∷ (400, 4) ∷ []) ≡ covers 150 ranges
unfolding ranges_to_segments split_all merge_ranges
reaches-ranges_to_segments_example =
    reaches-ranges_to_segments 150 ranges {gs = (50, 150) ∷ (400, 4) ∷ []} refl

ranges_to_segments_shape_example :
    All HasWireLength ((50, 150) ∷ (400, 4) ∷ [])
    × AscendFrom 0 ((50, 150) ∷ (400, 4) ∷ [])
    × (scan_segment_min ≤ 2)
    × (2 ≤ scan_segment_max)
unfolding ranges_to_segments split_all merge_ranges
ranges_to_segments_shape_example =
    ranges_to_segments_shape ranges {gs = (50, 150) ∷ (400, 4) ∷ []} refl

turbo_segments_exact_example : (reaches 150 ((100, 100) ∷ []) ≡ true) ↔ InRegions 150 regions
unfolding ranges_to_segments classify_turbo_regions split_all merge_ranges
turbo_segments_exact_example = turbo_segments_exact 150 regions {gs = (100, 100) ∷ []} refl

maps_segments_exact_example : (reaches 150 ((100, 100) ∷ []) ≡ true) ↔ InMaps 150 game_maps
unfolding ranges_to_segments classify_maps split_all merge_ranges package.nite_pr.Base.Text.eq_text
maps_segments_exact_example = maps_segments_exact 150 game_maps {gs = (100, 100) ∷ []} refl

match_u32_iff_example : (match_u32 1 7 5 0 ≡ ok true) ↔ Verdict 1 (mask32 7) (mask32 5) (mask32 0)
match_u32_iff_example = match_u32_iff 1 7 5 0

match_u32_total_example : (match_u32 0 7 7 7 ≡ ok true) ⊎ (match_u32 0 7 7 7 ≡ ok false)
unfolding require_first_compare
match_u32_total_example = match_u32_total 0 7 7 7 (inl refl)

segment_slots_exact_example : (1 < segment_slots 4 4 10) ↔ (1 * 4 + 4 ≤ 10)
segment_slots_exact_example = segment_slots_exact 1 4 4 10 (omega arith)

bitmap_holds_slots_example :
    let n = slots 4 (step_of 4 4) ((50, 150) ∷ (400, 4) ∷ []) in
    let bits = 8 * snapshot_bitmap_bytes ((50, 150) ∷ (400, 4) ∷ []) 4 4 in
    (n ≤ bits) × (bits < n + 8)
bitmap_holds_slots_example = bitmap_holds_slots ((50, 150) ∷ (400, 4) ∷ []) 4 4
