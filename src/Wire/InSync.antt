-- ===== src/Wire/InSync.antt =====
-- A segmented turbo start as a whole, on a connection with the server's full answer: what the
-- function takes from the connection, and what it leaves there for the next command.
use nite_pr.Base.{
  ℕ, ◌<◌, ◌≡◌, refl, ap, sym, ◌∙◌, subst, Bool, true, false, List, [], ◌++◌, length, take, drop,
  arith, ◌==◌, if◌then◌else◌,
}
use nite_pr.Base.Exec.{ok, Exec, pure, ◌>>◌}
use nite_pr.Types.{Bytes}
use nite_pr.Scan.Ranges.{Range}
use nite_pr.Scan.Segments.{Segment, ranges_to_segments}
use nite_pr.Scan.Classify.{turbo_start_flags}
use nite_pr.Wire.{Failure, Cmd, turboscan_start, Conn, lib, as_raised}
use nite_pr.Wire.Pack.{le_bytes, le_value}
use nite_pr.Wire.Pack.Laws.{le_value-le_bytes, pack_u32_ok, pack_u64_ok}
use nite_pr.Wire.Requests.{
  segments_blob, send_segments, drain_result_blocks, turbo_start_resident_segments,
}
use nite_pr.Wire.Stream.{Reads, frames, IsBlocks, recv_exact_next}
use nite_pr.Wire.Drain.{drain_result_blocks-frames}
use nite_pr.Wire.Layout.{IsAddressable, start_body_ok, segments_blob-ranges_to_segments}
use nite_pr.Wire.Reach.{Reaches, Reaches-bind, Reaches-bind-lift, Reaches-pure, Reaches-lib}

-- Sending takes nothing that has come in; the status of success and the acknowledgement that a
-- start waits for are bytes of the protocol.
pub record Speaks {S : Type 0} (conn : Conn S) (incoming : S → Bytes) (ack success : Bytes)
    : Type 0 where
  pub reads : Reads conn incoming
  pub sends :
      (s : S) (bs : Bytes)
      → ((conn.sendall bs s).0 ≡ ok tt) × (incoming (conn.sendall bs s).1 ≡ incoming s)
  pub starts :
      (s : S) (cmd : Cmd) (body value rest : Bytes)
      → incoming s ≡ ack ++ rest
      → ((conn.send_value_after_ack cmd body value s).0 ≡ ok tt)
        × (incoming (conn.send_value_after_ack cmd body value s).1 ≡ rest)
  pub succeeds :
      (s : S) (rest : Bytes)
      → incoming s ≡ success ++ rest
      → ((conn.expect_success s).0 ≡ ok tt) × (incoming (conn.expect_success s).1 ≡ rest)

-- The calls of `turbo_start_resident_segments` that come after its summary.
finish : {S : Type 0} → Conn S → (fuel stored count : ℕ) → Exec Failure S (ℕ × ℕ)
unfolding lib
finish conn fuel stored count = do
  if stored == 0 then drain_result_blocks conn fuel else pure tt
  lib conn.expect_success
  pure (stored, count)

-- What the server sends between the summary and the last status: the blocks of the results where
-- it keeps no list.
abbrev pub overflow : (stored : ℕ) → List Bytes → Bytes
overflow stored bs = if stored == 0 then frames bs else []

module _ {S : Type 0} (conn : Conn S) (incoming : S → Bytes) (ack success : Bytes)
    (speaks : Speaks conn incoming ack success) where
  pub send_segments_quiet :
      (segments : List Segment) (s : S) {blob rest : Bytes}
      → segments_blob segments ≡ ok blob
      → incoming s ≡ rest
      → Reaches incoming (send_segments conn segments) s tt rest
  unfolding send_segments
  send_segments_quiet segments s {blob} sent came =
      let (went, left) = speaks.sends s blob in
      Reaches-bind-lift _ sent (Reaches-lib _ (went, left ∙ came))

  drain_overflow :
      (fuel : ℕ) (none_stored : Bool) (bs : List Bytes) (s : S) (rest : Bytes)
      → length bs < fuel
      → IsBlocks bs
      → incoming s ≡ (if none_stored then frames bs else []) ++ rest
      → Reaches incoming (if none_stored then drain_result_blocks conn fuel else pure tt) s tt rest
  drain_overflow fuel true bs s rest few small came = record {
    at = drain_result_blocks-frames conn incoming speaks.reads fuel bs s rest few small came;
  }
  drain_overflow fuel false bs s rest few small came = Reaches-pure came

  -- The end of the function, once the summary is read.
  after_summary :
      (fuel stored count : ℕ) (bs : List Bytes) (s : S) (rest : Bytes)
      → length bs < fuel
      → IsBlocks bs
      → incoming s ≡ overflow stored bs ++ (success ++ rest)
      → Reaches incoming (finish conn fuel stored count) s (stored, count) rest
  unfolding finish
  after_summary fuel stored count bs s rest few small came =
      Reaches-bind _ (drain_overflow fuel (stored == 0) bs s (success ++ rest) few small came)
        λ t at. Reaches-bind _ (Reaches-lib _ (speaks.succeeds t rest at)) λ u end. Reaches-pure end

  -- The summary, as it is taken apart.
  pub summary_read :
      (stored count : ℕ) (s : S) (rest : Bytes)
      → incoming s ≡ (le_bytes 4 stored ++ le_bytes 8 count) ++ rest
      → Reaches incoming (lib (conn.recv_exact 12)) s (le_bytes 4 stored ++ le_bytes 8 count) rest
  unfolding le_bytes
  summary_read stored count s rest came = record {
    at =
        recv_exact_next conn incoming speaks.reads 12 s (le_bytes 4 stored ++ le_bytes 8 count) rest
          refl came;
  }

  pub summary_parts :
      (stored count : ℕ)
      → stored < 0x1_0000_0000
      → count < 0x1_0000_0000_0000_0000
      → (le_value (take 4 (le_bytes 4 stored ++ le_bytes 8 count)) ≡ stored)
        × (le_value (drop 4 (le_bytes 4 stored ++ le_bytes 8 count)) ≡ count)
  unfolding le_bytes le_value
  summary_parts stored count hs hc = (
    le_value-le_bytes 4 stored (pack_u32_ok stored hs).1,
    le_value-le_bytes 8 count (pack_u64_ok count hc).1,
  )

  -- A segmented value scan of the segments of addressable ranges is started on a connection that
  -- holds the server's whole answer: the acknowledgement, whether the list is resident and the count
  -- of the hits, result blocks if it is not, and the status. The function comes back with these two
  -- numbers and has read exactly this answer, where the fuel is more than the number of the blocks.
  pub turbo_start_resident_segments-in_sync :
      (fuel pid : ℕ) (rs : List Range) {segments : List Segment} (vt ct al value : ℕ)
      (use_aliasing : Bool) (s : S) (stored count : ℕ) (bs : List Bytes) (rest : Bytes)
      {vbytes : Bytes}
      → pid < 0x1_0000_0000
      → ranges_to_segments rs ≡ ok segments
      → IsAddressable rs
      → conn.scan_value_bytes vt value ≡ ok vbytes
      → length vbytes < 0x1_0000_0000
      → stored < 0x1_0000_0000
      → count < 0x1_0000_0000_0000_0000
      → length bs < fuel
      → IsBlocks bs
      → incoming s
        ≡ ack
          ++ ((le_bytes 4 stored ++ le_bytes 8 count) ++ (overflow stored bs ++ (success ++ rest)))
      → Reaches incoming
          (turbo_start_resident_segments conn fuel pid segments vt ct al value use_aliasing)
          s
          (stored, count)
          rest
  unfolding turbo_start_resident_segments finish
  turbo_start_resident_segments-in_sync fuel pid rs {segments} vt ct al value use_aliasing s stored
        count bs rest {vbytes} hp planned fit hv lv hs hc few small came =
      let (blob, sent, _, _, _) = segments_blob-ranges_to_segments rs planned fit in
      let flags = turbo_start_flags false use_aliasing in
      let body =
        start_body_ok pid 0 0 vt ct al (length vbytes) flags hp (omega arith) (omega arith) lv in
      let (is_stored, is_count) = summary_parts stored count hs hc in
      Reaches-bind-lift _ (ap as_raised hv) (
        Reaches-bind-lift _ body (
          Reaches-bind _ (Reaches-lib _ (speaks.starts s turboscan_start _ vbytes _ came)) λ t1 at1.
            Reaches-bind _ (send_segments_quiet segments t1 sent at1) λ t2 at2.
              Reaches-bind _ (summary_read stored count t2 _ at2) λ t3 at3.
                subst
                  (λ n.
                    Reaches incoming
                      (finish conn fuel n
                        (le_value (drop 4 (le_bytes 4 stored ++ le_bytes 8 count))))
                      t3 (stored, count) rest)
                  (sym is_stored)
                  (subst (λ c. Reaches incoming (finish conn fuel stored c) t3 (stored, count) rest)
                    (sym is_count) (after_summary fuel stored count bs t3 rest few small at3))))
