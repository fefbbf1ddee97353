-- ===== src/Scan/Classify/Laws.antt =====
-- What the first scan searches: the whole way from the console's regions to the segments.
use nite_pr.Base.{
  ℕ, ◌≤◌, ◌<◌, ◌≡◌, ◌≢◌, refl, ◌↔◌, ◌⊎◌, inl, inr, Bool, true, false, List, [], ◌∷◌, arith, bit_and,
}
use nite_pr.Base.Text.{text, eq_text_iff, mem_text}
use nite_pr.Base.Exec.{ok}
use nite_pr.Constants.{
  prot_write, prot_exec, ts_server_resident, ts_snapshot_segments, ts_snapshot, ts_use_aliasing,
  ts_parallel_compare,
}
use nite_pr.Types.{MemoryMap, ScanRegion}
use nite_pr.Scan.Ranges.{covers}
use nite_pr.Scan.Segments.{Segment, ranges_to_segments, reaches}
use nite_pr.Scan.Segments.Laws.{reaches-ranges_to_segments}
use nite_pr.Scan.Classify.{classify_maps, classify_turbo_regions, turbo_start_flags}

-- The protection bits allow writing and do not allow executing.
abbrev pub IsWritable : ℕ → Type 0
IsWritable prot = (bit_and prot prot_write ≢ 0) × (bit_and prot prot_exec ≡ 0)

-- An address lies in a writable, non-executable, cached region of the list.
abbrev pub InRegions : ℕ → List ScanRegion → Type 0
InRegions a [] = ⊥
InRegions a (r ∷ rs) =
    ((r.start ≤ a) × (a < r.end) × IsWritable r.prot × (r.uncached ≡ false)) ⊎ InRegions a rs

-- An address lies in a writable, non-executable map of the list that is not the GPU's.
abbrev pub InMaps : ℕ → List MemoryMap → Type 0
InMaps a [] = ⊥
InMaps a (m ∷ ms) =
    ((m.start ≤ a) × (a < m.end) × IsWritable m.prot × (m.name ≢ text "SceGnm")) ⊎ InMaps a ms

covers→InRegions :
    (a : ℕ) (rs : List ScanRegion) → covers a (classify_turbo_regions rs) ≡ true → InRegions a rs
unfolding covers classify_turbo_regions
covers→InRegions a [] h = cc
covers→InRegions a (r ∷ rs) h = ground (arith, covers→InRegions a rs)

InRegions→covers :
    (a : ℕ) (rs : List ScanRegion) → InRegions a rs → covers a (classify_turbo_regions rs) ≡ true
unfolding covers classify_turbo_regions
InRegions→covers a [] h = absurd h
InRegions→covers a (r ∷ rs) (inl h) = ground arith
InRegions→covers a (r ∷ rs) (inr h) = ground (arith, InRegions→covers a rs h)

covers→InMaps : (a : ℕ) (ms : List MemoryMap) → covers a (classify_maps ms) ≡ true → InMaps a ms
unfolding covers classify_maps mem_text
covers→InMaps a [] h = cc
covers→InMaps a (m ∷ ms) h = ground (arith, covers→InMaps a ms, eq_text_iff m.name (text "SceGnm"))

InMaps→covers : (a : ℕ) (ms : List MemoryMap) → InMaps a ms → covers a (classify_maps ms) ≡ true
unfolding covers classify_maps mem_text
InMaps→covers a [] h = absurd h
InMaps→covers a (m ∷ ms) (inl h) = ground (arith, eq_text_iff m.name (text "SceGnm"))
InMaps→covers a (m ∷ ms) (inr h) =
    ground (arith, InMaps→covers a ms h, eq_text_iff m.name (text "SceGnm"))

-- When the regions of the probe give segments, an address is searched exactly when it lies in a
-- region that is writable, not executable and cached.
pub turbo_segments_exact :
    (a : ℕ) (rs : List ScanRegion) {gs : List Segment}
    → ranges_to_segments (classify_turbo_regions rs) ≡ ok gs
    → (reaches a gs ≡ true) ↔ InRegions a rs
turbo_segments_exact a rs h =
    let e = reaches-ranges_to_segments a (classify_turbo_regions rs) h in
    rw e (covers→InRegions a rs, InRegions→covers a rs)

-- When the maps of the fallback give segments, an address is searched exactly when it lies in a
-- map that is writable, not executable and not named SceGnm.
pub maps_segments_exact :
    (a : ℕ) (ms : List MemoryMap) {gs : List Segment}
    → ranges_to_segments (classify_maps ms) ≡ ok gs
    → (reaches a gs ≡ true) ↔ InMaps a ms
maps_segments_exact a ms h =
    let e = reaches-ranges_to_segments a (classify_maps ms) h in
    rw e (covers→InMaps a ms, InMaps→covers a ms)

abbrev pub BitIs : Bool → ℕ → ℕ → Type 0
BitIs true flags bit = bit_and flags bit ≡ bit
BitIs false flags bit = bit_and flags bit ≡ 0

-- The START flags always ask for a resident, segmented scan, take a snapshot and use aliasing
-- exactly as told, and never ask for the parallel comparison.
pub turbo_start_flags_bits :
    (snapshot use_aliasing : Bool)
    → BitIs true (turbo_start_flags snapshot use_aliasing) ts_server_resident
      × BitIs true (turbo_start_flags snapshot use_aliasing) ts_snapshot_segments
      × BitIs snapshot (turbo_start_flags snapshot use_aliasing) ts_snapshot
      × BitIs use_aliasing (turbo_start_flags snapshot use_aliasing) ts_use_aliasing
      × BitIs false (turbo_start_flags snapshot use_aliasing) ts_parallel_compare
unfolding turbo_start_flags
turbo_start_flags_bits true true = (refl, refl, refl, refl, refl)
turbo_start_flags_bits true false = (refl, refl, refl, refl, refl)
turbo_start_flags_bits false true = (refl, refl, refl, refl, refl)
turbo_start_flags_bits false false = (refl, refl, refl, refl, refl)
