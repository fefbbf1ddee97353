-- ===== src/Transport/Ps5dbg/Starting.antt =====
-- `scan_start_turbo` of `Ps5dbgTransport`.
use nite_pr.Base.{ℕ, Bool, true, false, not, ◌&&◌, ◌||◌, List, [], ◌∷◌, ◌==◌, length, if◌then◌else◌}
use nite_pr.Base.Exec.{pure, raise, raise_if, modify, catch, ◌>>=◌, ◌>>◌}
use nite_pr.Constants.{tse_aliasing, tse_server_resident, tse_snapshot, tse_snapshot_segments}
use nite_pr.Errors.{scan_unsupported}
use nite_pr.Scan.Segments.{Segment}
use nite_pr.Transport.{StartArgs}
use nite_pr.Wire.{Failure, own, lib}
use nite_pr.Wire.Requests.{turbo_start_resident_segments, turbo_start_snapshot_segments}
use nite_pr.Transport.Ps5dbg.{Package, Action, on_world, require, waiting}
use nite_pr.Transport.Ps5dbg.Scanning.{
  has, is_nil, is_scan_unsupported, single_flags, scan_sync, after_scan, scan_end,
}

module _ {C W K Tm : Type 0} (pk : Package C W K Tm) (fuel : ℕ) where
  -- A value scan over one range, `segments[0]`, without the segmented command.
  unfoldable pub start_single : C → ℕ → List Segment → StartArgs → Bool → Action C W K Tm (ℕ × ℕ)
  unfolding on_world lib
  start_single c pid [] args use_aliasing = raise (own scan_unsupported)
  start_single c pid ((addr, len) ∷ segments) args use_aliasing =
      on_world (lib (pk.turboscan_start_resident c pid addr len args (single_flags use_aliasing)))

  unfoldable pub start_resident :
      C → ℕ → List Segment → StartArgs → (engines : ℕ) → Action C W K Tm (ℕ × ℕ)
  unfolding on_world start_single turbo_start_resident_segments
  start_resident c pid segments args engines =
      let use_aliasing = has engines tse_aliasing in
      if has engines tse_snapshot_segments
      then on_world (
          turbo_start_resident_segments (pk.connection c) fuel pid segments args.value_type
            args.compare_type args.alignment args.value use_aliasing)
      else start_single c pid segments args use_aliasing

  -- What the `with` of `scan_start_turbo` does: whether the scan is accepted, and its count.
  unfoldable pub start_scan :
      C
      → ℕ
      → List Segment
      → StartArgs
      → (unknown : Bool) → (engines : ℕ) → Action C W K Tm (Bool × ℕ)
  unfolding on_world start_resident turbo_start_snapshot_segments
  start_scan c pid segments args true engines = do
    raise_if (not (has engines tse_snapshot)) (own scan_unsupported)
    count ← on_world (
        turbo_start_snapshot_segments (pk.connection c) pid segments args.value_type args.alignment
          (has engines tse_aliasing))
    modify (λ l. record l { turbo_open = true })
    pure (true, count)
  start_scan c pid segments args false engines =
      if not (has engines tse_server_resident)
        || (not (has engines tse_snapshot_segments) && not (length segments == 1))
      then pure (false, 0)
      else (do
        (stored, count) ← start_resident c pid segments args engines
        if stored == 0
            then pure (false, count)
            else (do modify (λ l. record l { turbo_open = true }); pure (true, count)))

  -- The `except` clauses of `scan_start_turbo`: what the clean-up raises is dropped.
  unfoldable pub after_start : Failure → Action C W K Tm (Bool × ℕ)
  unfolding scan_end after_scan
  after_start e =
      if is_scan_unsupported e
      then (do catch (scan_end pk) (λ _. pure tt); raise (own scan_unsupported))
      else after_scan pk e

  unfoldable pub scan_start_turbo :
      (pid : ℕ)
      → List Segment
      → StartArgs
      → (unknown : Bool) → (engines : ℕ) → Action C W K Tm (Bool × ℕ)
  unfolding require waiting start_scan scan_sync after_start
  scan_start_turbo pid segments args unknown engines = do
    raise_if (is_nil segments) (own scan_unsupported)
    c ← require
    modify (λ l. record l { rescan_aliasing = false })
    catch
        (do
          (accepted, count) ← waiting pk (start_scan c pid segments args unknown engines)
          if accepted then scan_sync pk else pure tt
          pure (accepted, count))
        after_start
