-- ===== src/Wire/Snapshot.antt =====
-- A segmented snapshot as a whole, on a connection with the server's full answer.
use nite_pr.Base.{
  ℕ, ◌<◌, ◌≡◌, refl, ap, sym, subst, Bool, true, false, List, ◌++◌, length, take, drop, arith, All,
  ◌==◌,
}
use nite_pr.Base.Exec.{ok, Exec, pure, raise_if, ◌>>=◌, ◌>>◌}
use nite_pr.Constants.{scan_compare_unknown}
use nite_pr.Types.{Bytes}
use nite_pr.Errors.{scan_unsupported}
use nite_pr.Scan.Ranges.{Range}
use nite_pr.Scan.Segments.{Segment, ranges_to_segments}
use nite_pr.Scan.Classify.{turbo_start_flags}
use nite_pr.Wire.{Failure, own, turboscan_start, Conn, lib, as_raised}
use nite_pr.Wire.Pack.{le_bytes, le_value}
use nite_pr.Wire.Pack.Laws.{le_value-le_bytes, pack_u64_ok}
use nite_pr.Wire.Requests.{
  is_unsafe, unsupported_if, drain_progress, turbo_start_snapshot_segments, snapshot_progress_max,
}
use nite_pr.Wire.Stream.{ticks, recv_exact_next}
use nite_pr.Wire.Drain.{InPlan, drain_progress-ticks}
use nite_pr.Wire.Layout.{IsAddressable, start_body_ok, segments_blob-ranges_to_segments}
use nite_pr.Wire.Reach.{
  Reaches, Reaches-bind, Reaches-bind-lift, Reaches-pure, Reaches-lib, Reaches-guarded,
}
use nite_pr.Wire.InSync.{Speaks, send_segments_quiet, summary_read, summary_parts}

-- The calls of `turbo_start_snapshot_segments` that come after its trailer.
trailer_end : {S : Type 0} → Conn S → (kept count : ℕ) → Exec Failure S ℕ
unfolding lib
trailer_end conn kept count = do
  lib conn.expect_success
  raise_if (kept == 0) (own scan_unsupported)
  pure count

-- The calls that come after its plan.
plan_end : {S : Type 0} → Conn S → (total : ℕ) → Exec Failure S ℕ
unfolding lib le_value
plan_end conn total = do
  drain_progress conn snapshot_progress_max total
  trailer ← unsupported_if is_unsafe (lib (conn.recv_exact 12))
  lib conn.expect_success
  raise_if (le_value (take 4 trailer) == 0) (own scan_unsupported)
  pure (le_value (drop 4 trailer))

module _ {S : Type 0} (conn : Conn S) (incoming : S → Bytes) (ack success : Bytes)
    (speaks : Speaks conn incoming ack success) where
  kept_passes :
      (kept : ℕ) (s : S) {rest : Bytes}
      → 0 < kept
      → incoming s ≡ rest
      → Reaches incoming (raise_if (kept == 0) (own scan_unsupported)) s tt rest
  unfolding raise_if
  kept_passes kept s {rest} h came = record {
    at =
        subst
          (λ b.
            ((raise_if b (own scan_unsupported) s).0 ≡ ok tt)
            × (incoming (raise_if {E = Failure} b (own scan_unsupported) s).1 ≡ rest))
          (sym (the_test kept h)) (refl, came);
  }
    where
      the_test : (kept : ℕ) → 0 < kept → (kept == 0) ≡ false
      the_test kept h = ground arith

  trailer_end-Reaches :
      (kept count : ℕ) (s : S) (rest : Bytes)
      → 0 < kept
      → incoming s ≡ success ++ rest
      → Reaches incoming (trailer_end conn kept count) s count rest
  unfolding trailer_end
  trailer_end-Reaches kept count s rest h came =
      Reaches-bind _ (Reaches-lib _ (speaks.succeeds s rest came))
        λ t at. Reaches-bind _ (kept_passes kept t h at) λ u end. Reaches-pure end

  plan_end-Reaches :
      (total : ℕ) (vs : List ℕ) (kept count : ℕ) (s : S) (rest : Bytes)
      → length vs < snapshot_progress_max
      → All (InPlan total) vs
      → 0 < kept
      → kept < 0x1_0000_0000
      → count < 0x1_0000_0000_0000_0000
      → incoming s ≡ ticks vs ++ ((le_bytes 4 kept ++ le_bytes 8 count) ++ (success ++ rest))
      → Reaches incoming (plan_end conn total) s count rest
  unfolding plan_end trailer_end
  plan_end-Reaches total vs kept count s rest few inside some_kept hk hc came =
      let (is_kept, is_count) = summary_parts conn incoming ack success speaks kept count hk hc in
      Reaches-bind _
        (record {
          at =
              drain_progress-ticks conn incoming speaks.reads snapshot_progress_max total vs s _ few
                inside came;
        })
        λ t at.
          Reaches-bind _
            (Reaches-guarded is_unsafe
              (summary_read conn incoming ack success speaks kept count t (success ++ rest) at))
            λ u end.
              subst
                (λ n.
                  Reaches incoming
                    (trailer_end conn n (le_value (drop 4 (le_bytes 4 kept ++ le_bytes 8 count)))) u
                    count rest)
                (sym is_kept)
                (subst (λ c. Reaches incoming (trailer_end conn kept c) u count rest) (sym is_count)
                  (trailer_end-Reaches kept count u rest some_kept end))

  plan_read :
      (slots total : ℕ) (s : S) (rest : Bytes)
      → incoming s ≡ (le_bytes 8 slots ++ le_bytes 8 total) ++ rest
      → Reaches incoming
          (unsupported_if is_unsafe (lib (conn.recv_exact 16)))
          s
          (le_bytes 8 slots ++ le_bytes 8 total)
          rest
  unfolding le_bytes
  plan_read slots total s rest came = Reaches-guarded is_unsafe (record {
    at =
        recv_exact_next conn incoming speaks.reads 16 s (le_bytes 8 slots ++ le_bytes 8 total) rest
          refl came;
  })

  plan_total :
      (slots total : ℕ)
      → total < 0x1_0000_0000_0000_0000
      → le_value (drop 8 (le_bytes 8 slots ++ le_bytes 8 total)) ≡ total
  unfolding le_bytes le_value
  plan_total slots total h = le_value-le_bytes 8 total (pack_u64_ok total h).1

  -- A snapshot of the segments of addressable ranges is started on a connection that holds the
  -- server's whole answer: the acknowledgement, the plan, fewer progress values than the loop has
  -- rounds and none above the plan's total, the end mark, a trailer that does not decline, and the
  -- status. The function comes back with the count of the survivors and has read exactly this
  -- answer.
  pub turbo_start_snapshot_segments-in_sync :
      (pid : ℕ) (rs : List Range) {segments : List Segment} (vt al : ℕ) (use_aliasing : Bool)
      (s : S) (slots total : ℕ) (vs : List ℕ) (kept count : ℕ) (rest : Bytes) {vbytes : Bytes}
      → pid < 0x1_0000_0000
      → ranges_to_segments rs ≡ ok segments
      → IsAddressable rs
      → conn.scan_value_bytes vt 0 ≡ ok vbytes
      → length vbytes < 0x1_0000_0000
      → total < 0x1_0000_0000_0000_0000
      → length vs < snapshot_progress_max
      → All (InPlan total) vs
      → 0 < kept
      → kept < 0x1_0000_0000
      → count < 0x1_0000_0000_0000_0000
      → incoming s
        ≡ ack
          ++ ((le_bytes 8 slots ++ le_bytes 8 total)
              ++ (ticks vs ++ ((le_bytes 4 kept ++ le_bytes 8 count) ++ (success ++ rest))))
      → Reaches incoming
          (turbo_start_snapshot_segments conn pid segments vt al use_aliasing)
          s
          count
          rest
  unfolding turbo_start_snapshot_segments plan_end
  turbo_start_snapshot_segments-in_sync pid rs {segments} vt al use_aliasing s slots total vs kept
        count rest {vbytes} hp planned fit hv lv ht few inside some_kept hk hc came =
      let (blob, sent, _, _, _) = segments_blob-ranges_to_segments rs planned fit in
      let flags = turbo_start_flags true use_aliasing in
      let body =
        start_body_ok pid 0 0 vt scan_compare_unknown al (length vbytes) flags hp (omega arith)
          (omega arith) lv in
      Reaches-bind-lift _ (ap as_raised hv) (
        Reaches-bind-lift _ body (
          Reaches-bind _ (Reaches-lib _ (speaks.starts s turboscan_start _ vbytes _ came)) λ t1 at1.
            Reaches-bind _
              (send_segments_quiet conn incoming ack success speaks segments t1 sent at1)
              λ t2 at2. Reaches-bind _ (plan_read slots total t2 _ at2) λ t3 at3.
                subst (λ n. Reaches incoming (plan_end conn n) t3 count rest)
                  (sym (plan_total slots total ht))
                  (plan_end-Reaches total vs kept count t3 rest few inside some_kept hk hc at3)))
