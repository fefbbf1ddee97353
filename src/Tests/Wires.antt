-- ===== src/Tests/Wires.antt =====
-- The theorems on the wire, at small answers of a server.
use nite_pr.Base.{◌+◌, ◌*◌, ◌≡◌, refl, true, false, List, [], ◌∷◌, ◌++◌, length, take, drop, arith}
use nite_pr.Base.Exec.{ok}
use nite_pr.Types.{Bytes}
use nite_pr.Scan.Ranges.{Range, merge_ranges}
use nite_pr.Scan.Segments.{Segment, split_all, ranges_to_segments}
use nite_pr.Wire.Pack.{le_bytes, le_value}
use nite_pr.Wire.Requests.{
  segments_blob, drain_result_blocks, turbo_start_resident_segments, turbo_start_snapshot_segments,
}
use nite_pr.Wire.Stream.{frames, ticks}
use nite_pr.Wire.Drain.{Leaves, drain_result_blocks-frames}
use nite_pr.Wire.Layout.{entries, segments_blob-ranges_to_segments}
use nite_pr.Wire.Reach.{Reaches}
use nite_pr.Wire.InSync.{overflow, turbo_start_resident_segments-in_sync}
use nite_pr.Wire.Snapshot.{turbo_start_snapshot_segments-in_sync}
use nite_pr.Tests.Pipe.{status, pipe, pipe-Reads, pipe-Speaks}

abbrev blocks : List Bytes
blocks = (7 ∷ 8 ∷ []) ∷ [] ∷ []

abbrev next_reply : Bytes
next_reply = 1 ∷ 2 ∷ 3 ∷ []

drain_result_blocks-frames_example :
    Leaves (λ s. s) tt next_reply (drain_result_blocks pipe 3 (frames blocks ++ next_reply))
drain_result_blocks-frames_example =
    drain_result_blocks-frames pipe (λ s. s) pipe-Reads 3 blocks (frames blocks ++ next_reply)
      next_reply (omega arith) (omega arith, (omega arith, tt)) refl

abbrev heap : List Range
heap = (0x2_0000_0000, 0x2_0000_4000) ∷ (0x3_0000_0000, 0x3_0000_0010) ∷ []

abbrev heap_segments : List Segment
heap_segments = (0x2_0000_0000, 0x4000) ∷ (0x3_0000_0000, 0x10) ∷ []

heap_planned : ranges_to_segments heap ≡ ok heap_segments
unfolding ranges_to_segments split_all merge_ranges
heap_planned = refl

segments_blob-ranges_to_segments_example :
    (blob : Bytes) × (segments_blob heap_segments ≡ ok blob)
    × (length blob ≡ 4 + 12 * length heap_segments)
    × (le_value (take 4 blob) ≡ length heap_segments)
    × (entries (length heap_segments) (drop 4 blob) ≡ heap_segments)
segments_blob-ranges_to_segments_example =
    segments_blob-ranges_to_segments heap heap_planned (omega arith, (omega arith, tt))

abbrev resident_reply : Bytes
resident_reply =
    status ++ ((le_bytes 4 0 ++ le_bytes 8 9) ++ (overflow 0 blocks ++ (status ++ next_reply)))

turbo_start_resident_segments-in_sync_example :
    Reaches
      (λ s. s)
      (turbo_start_resident_segments pipe 3 1234 heap_segments 2 0 4 100 true)
      resident_reply
      (0, 9)
      next_reply
unfolding le_bytes
turbo_start_resident_segments-in_sync_example =
    turbo_start_resident_segments-in_sync pipe (λ s. s) status status pipe-Speaks 3 1234 heap 2 0 4
      100 true resident_reply 0 9 blocks next_reply (omega arith) heap_planned
      (omega arith, (omega arith, tt)) refl (omega arith) (omega arith) (omega arith) (omega arith)
      (omega arith, (omega arith, tt)) refl

abbrev snapshot_reply : Bytes
snapshot_reply =
    status
    ++ ((le_bytes 8 4100 ++ le_bytes 8 64)
        ++ (ticks (16 ∷ 64 ∷ []) ++ ((le_bytes 4 1 ++ le_bytes 8 4100) ++ (status ++ next_reply))))

turbo_start_snapshot_segments-in_sync_example :
    Reaches
      (λ s. s)
      (turbo_start_snapshot_segments pipe 1234 heap_segments 2 4 false)
      snapshot_reply
      4100
      next_reply
unfolding le_bytes
turbo_start_snapshot_segments-in_sync_example =
    turbo_start_snapshot_segments-in_sync pipe (λ s. s) status status pipe-Speaks 1234 heap 2 4
      false snapshot_reply 4100 64 (16 ∷ 64 ∷ []) 1 4100 next_reply (omega arith) heap_planned
      (omega arith, (omega arith, tt)) refl (omega arith) (omega arith) (omega arith)
      ((omega arith, λ h. omega arith), ((omega arith, λ h. omega arith), tt)) (omega arith)
      (omega arith) (omega arith) refl
