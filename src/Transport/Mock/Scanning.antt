-- ===== src/Transport/Mock/Scanning.antt =====
-- The scan of `MockTransport`: `scan_caps`, `scan_authenticate`, `scan_regions`, `_walk_segments`,
-- `scan_start_turbo`, `scan_count_resident`, `scan_get_resident`, `scan_end`,
-- `scan_start_iterative` and `scan_next_iterative`.
use nite_pr.Base.{
  ℕ, zero, suc, ◌+◌, ◌-◌, ◌*◌, ◌/◌, Bool, true, false, not, ◌&&◌, Option, none, some, List, [], ◌∷◌,
  ◌++◌, leb, ltb, ◌==◌, length, take, drop, bit_or, if◌then◌else◌,
}
use nite_pr.Base.Text.{text, eq_text}
use nite_pr.Base.Exec.{Outcome, ok, raise_if, lift, gets, modify, pure, ◌>>=◌, ◌>>◌}
use nite_pr.Base.Result
use nite_pr.Constants.{
  tse_aliasing, tse_server_resident, tse_snapshot, tse_snapshot_segments, tse_rescan_aliasing,
  scan_compare_unknown, scan_align_u32,
}
use nite_pr.Types.{Bytes, MemoryMap, ScanRegion, ScanHit}
use nite_pr.Errors.{Error, scan_unsupported}
use nite_pr.Scan.Parse.{value_size}
use nite_pr.Scan.Match.{u32_from_bytes, match_u32}
use nite_pr.Scan.Segments.{Segment}
use nite_pr.Scan.Classify.{ResidentRow}
use nite_pr.Transport.{StartArgs, CountArgs}
use nite_pr.Transport.Mock.{Action, ram_base, require, maps_of}

-- `0 <= off and off + size <= len(self._ram)`
abbrev pub spans : Bytes → ℕ → ℕ → Bool
spans ram address size = leb ram_base address && leb (address - ram_base + size) (length ram)

-- `bytes(self._ram[off : off + size])`
abbrev pub slice : Bytes → ℕ → ℕ → Bytes
slice ram address size = take size (drop (address - ram_base) ram)

-- `((addr + alignment - 1) // alignment) * alignment`
abbrev pub align_up : ℕ → ℕ → ℕ
align_up addr alignment = (addr + alignment - 1) / alignment * alignment

-- The `if match_u32(…)` of `_walk_segments` on one slot. Its one caller gives no previous values,
-- so the previous bytes are the current ones.
unfoldable pub slot_matches : Bytes → ℕ → ℕ → ℕ → Outcome Error Bool
unfolding u32_from_bytes match_u32
slot_matches current compare value size =
    Result.◌>>=◌ (u32_from_bytes current) λ now. match_u32 compare now now value

unfoldable pub add_hit : ℕ → Bytes → Bool → List ScanHit → List ScanHit
add_hit cur current true hits =
    record { addr = cur; current = current; previous = some current } ∷ hits
add_hit cur current false hits = hits

-- The `while` loop over one segment that ends at `end`, with fuel.
unfoldable pub walk :
    ℕ → Bytes → (compare alignment value size end cur : ℕ) → Outcome Error (List ScanHit)
unfolding slot_matches add_hit
walk zero ram compare alignment value size end cur = ok []
walk (suc fuel) ram compare alignment value size end cur =
    let rest = walk fuel ram compare alignment value size end (cur + alignment) in
    if leb (cur + size) end
    then (if spans ram cur size
        then (Result.◌>>=◌ (slot_matches (slice ram cur size) compare value size)
            λ kept. Result.◌>>=◌ rest λ hits. ok (add_hit cur (slice ram cur size) kept hits))
        else rest)
    else ok []

-- A segment of `len` bytes has at most `len` slots.
unfoldable pub walk_segments :
    Bytes → (compare alignment value size : ℕ) → List Segment → Outcome Error (List ScanHit)
unfolding walk
walk_segments ram compare alignment value size [] = ok []
walk_segments ram compare alignment value size ((addr, len) ∷ segments) =
    Result.◌>>=◌
      (walk (suc len) ram compare alignment value size (addr + len) (align_up addr alignment))
      λ hits.
        Result.◌>>=◌ (walk_segments ram compare alignment value size segments)
          λ rest. ok (hits ++ rest)

unfoldable pub scan_caps : Action (Option (ℕ × ℕ × ℕ))
unfolding require
scan_caps = do
  require
  let engines : ℕ = bit_or tse_aliasing (
      bit_or tse_server_resident
        (bit_or tse_snapshot (bit_or tse_snapshot_segments tse_rescan_aliasing)))
  pure (some (1, engines, 1))

unfoldable pub scan_authenticate : Action (Unit {0})
unfolding require
scan_authenticate = do require; modify (λ t. record t { scan_authed = true })

unfoldable pub regions_of_maps : List MemoryMap → List ScanRegion
unfolding eq_text
regions_of_maps [] = []
regions_of_maps (m ∷ maps) =
    record {
      start = m.start;
      end = m.end;
      prot = m.prot;
      uncached = eq_text m.name (text "SceGnm");
    }
    ∷ regions_of_maps maps

unfoldable pub scan_regions : (pid probe_bytes : ℕ) → Action (Option (List ScanRegion))
unfolding require regions_of_maps maps_of
scan_regions pid probe_bytes = do
  require
  failing ← gets (λ t. t.fail_regions_probe)
  if failing then pure none else gets (λ t. some (regions_of_maps (maps_of pid t)))

-- `scan_start_turbo` once it has not been declined.
unfoldable pub start_walk : List Segment → StartArgs → Bool → Action (Bool × ℕ)
unfolding value_size walk_segments
start_walk segments args unknown = do
  modify (λ t. record t { value_type = args.value_type })
  size ← lift (value_size args.value_type)
  ram ← gets (λ t. t.ram)
  hits ← lift (
      walk_segments ram (if unknown then scan_compare_unknown else args.compare_type)
        (if ltb 0 args.alignment then args.alignment else scan_align_u32) args.value size segments)
  modify (λ t. record t { survivors = hits; turbo_open = true })
  pure (true, length hits)

unfoldable pub scan_start_turbo :
    (pid : ℕ) → List Segment → StartArgs → Bool → ℕ → Action (Bool × ℕ)
unfolding require start_walk
scan_start_turbo pid segments args unknown engines = do
  require
  authed ← gets (λ t. t.scan_authed)
  raise_if (not authed) scan_unsupported
  no_resident ← gets (λ t. t.decline_resident)
  no_snapshot ← gets (λ t. t.decline_snapshot)
  if no_resident && not unknown
      then pure (false, 0)
      else (do raise_if (no_snapshot && unknown) scan_unsupported; start_walk segments args unknown)

-- One round of the loop of `scan_count_resident`: the hit as it is now, and whether it stays.
unfoldable pub recount_hit : Bytes → CountArgs → ℕ → ScanHit → Outcome Error (Bool × ScanHit)
unfolding u32_from_bytes match_u32
recount_hit ram args size hit =
    let current = if spans ram hit.addr size then slice ram hit.addr size else hit.current in
    Result.◌>>=◌ (u32_from_bytes current) λ now. Result.◌>>=◌ (u32_from_bytes hit.current) λ before.
      Result.◌>>=◌ (match_u32 args.compare_type now before args.value) λ stays.
        ok (stays, record { addr = hit.addr; current = current; previous = some hit.current })

unfoldable pub recount : Bytes → CountArgs → ℕ → List ScanHit → Outcome Error (List ScanHit)
unfolding recount_hit
recount ram args size [] = ok []
recount ram args size (hit ∷ hits) = Result.◌>>=◌ (recount_hit ram args size hit) λ verdict.
    Result.◌>>=◌ (recount ram args size hits)
      λ rest. ok (if verdict.0 then verdict.1 ∷ rest else rest)

unfoldable pub scan_count_resident : CountArgs → Action ℕ
unfolding require value_size recount
scan_count_resident args = do
  require
  opened ← gets (λ t. t.turbo_open)
  raise_if (not opened) scan_unsupported
  size ← lift (value_size args.value_type)
  ram ← gets (λ t. t.ram)
  survivors ← gets (λ t. t.survivors)
  nxt ← lift (recount ram args size survivors)
  modify (λ t. record t { survivors = nxt })
  pure (length nxt)

-- `b[:value_length] if value_length else b`
abbrev cut : ℕ → Bytes → Bytes
cut value_length b = if value_length == 0 then b else take value_length b

-- The third field of a row: the previous bytes, or the current ones where there are none.
abbrev previous_or : ℕ → Bytes → Option Bytes → Bytes
previous_or value_length cur none = cur
previous_or value_length cur (some b) = cut value_length b

unfoldable pub resident_rows : ℕ → List ScanHit → List ResidentRow
resident_rows value_length [] = []
resident_rows value_length (h ∷ hits) =
    (
      h.addr,
      cut value_length h.current,
      previous_or value_length (cut value_length h.current) h.previous,
      none,
    )
    ∷ resident_rows value_length hits

unfoldable pub scan_get_resident : (start_index count value_length : ℕ) → Action (List ResidentRow)
unfolding require resident_rows
scan_get_resident start_index count value_length = do
  require
  gets (λ t. resident_rows value_length (take count (drop start_index t.survivors)))

unfoldable pub scan_end : Action (Unit {0})
scan_end = modify (λ t. record t { turbo_open = false; survivors = [] })

unfoldable pub scan_start_iterative : (pid : ℕ) → List Segment → StartArgs → Action (List ScanHit)
unfolding scan_start_turbo
scan_start_iterative pid segments args = do
  answer ←
      scan_start_turbo pid segments args (args.compare_type == scan_compare_unknown)
        tse_server_resident
  if not answer.0 then pure [] else gets (λ t. t.survivors)

unfoldable pub scan_next_iterative :
    (pid : ℕ) → List Segment → List ScanHit → CountArgs → Action (List ScanHit)
unfolding require scan_count_resident
scan_next_iterative pid segments candidates args = do
  require
  modify (λ t. record t { survivors = candidates; turbo_open = true })
  scan_count_resident args
  gets (λ t. t.survivors)
