-- ===== src/Scan/Classify.antt =====
-- `classify_maps`, `classify_turbo_regions`, `hits_from_resident` and `turbo_start_flags` of
-- web/nitepr5_core/scan.py.
pub mod Laws
use nite_pr.Base.{
  ℕ, Bool, true, false, not, ◌&&◌, ◌||◌, Option, List, [], ◌∷◌, map, ◌==◌, if◌then◌else◌, bit_and,
  bit_or,
}
use nite_pr.Base.Text.{Text, mem_text}
use nite_pr.Constants.{
  prot_write, prot_exec, uncached_map_names, ts_server_resident, ts_snapshot_segments, ts_snapshot,
  ts_use_aliasing,
}
use nite_pr.Types.{Bytes, MemoryMap, ScanRegion, ScanHit}
use nite_pr.Scan.Ranges.{Range}

-- `bool(prot & bit)`
abbrev pub has_bit : ℕ → ℕ → Bool
has_bit prot bit = not (bit_and prot bit == 0)

-- Each `continue` of the loop goes on with the rest; the row is added where none is met.
unfoldable pub classify_maps : List MemoryMap → List Range
unfolding mem_text
classify_maps [] = []
classify_maps (m ∷ maps) =
    let out = classify_maps maps in
    if not (has_bit m.prot prot_write)
    then out
    else if has_bit m.prot prot_exec
    then out
    else if mem_text m.name uncached_map_names
    then out
    else (m.start, m.end) ∷ out

unfoldable pub classify_turbo_regions : List ScanRegion → List Range
classify_turbo_regions [] = []
classify_turbo_regions (r ∷ regions) =
    let out = classify_turbo_regions regions in
    if not (has_bit r.prot prot_write)
    then out
    else if has_bit r.prot prot_exec
    then out
    else if r.uncached
    then out
    else (r.start, r.end) ∷ out

-- A row of the resident list: address, current, previous and first value.
abbrev pub ResidentRow : Type 0
ResidentRow = ℕ × Bytes × Bytes × Option Bytes

unfoldable pub hits_from_resident : List ResidentRow → List ScanHit
hits_from_resident [] = []
hits_from_resident ((addr, current, previous, _) ∷ rows) =
    record { addr = addr; current = current; previous = Option.some previous }
    ∷ hits_from_resident rows

unfoldable pub turbo_start_flags : Bool → Bool → ℕ
turbo_start_flags snapshot use_aliasing =
    let flags : ℕ = bit_or ts_server_resident ts_snapshot_segments in
    let with_snapshot : ℕ = if snapshot then bit_or flags ts_snapshot else flags in
    if use_aliasing then bit_or with_snapshot ts_use_aliasing else with_snapshot
