-- ===== src/Transport/Ps5dbg/Launching.antt =====
-- `scan_start_turbo` of `Ps5dbgTransport`: where it raises `NotConnected`.
use nite_pr.Base.{ℕ, refl, Bool, true, false, List, [], ◌∷◌, if◌then◌else◌}
use nite_pr.Base.Exec.{pure, raise, catch, ◌>>◌}
use nite_pr.Base.Exec.Raises.{
  OfError, Raises-pure, Raises-modify, Raises-if, Raises-catch, Raises-catch-from, Raises-bind,
}
use nite_pr.Errors.{scan_unsupported}
use nite_pr.Constants.{tse_aliasing}
use nite_pr.Scan.Segments.{Segment}
use nite_pr.Transport.{StartArgs}
use nite_pr.Wire.{Failure, own}
use nite_pr.Wire.Losing.{
  Losing, lib-Losing, raise-Losing, raise_if-Losing, turbo_start_resident_segments-Losing,
  turbo_start_snapshot_segments-Losing,
}
use nite_pr.Transport.Ps5dbg.{Package, Link, Action}
use nite_pr.Transport.Ps5dbg.Losing.{IsDown, Honest, on_world-Honest, waiting-Honest, world_rules}
use nite_pr.Transport.Ps5dbg.Scanning.{after_scan, scan_end, is_scan_unsupported, has}
use nite_pr.Transport.Ps5dbg.Starting.{
  start_single, start_resident, start_scan, after_start, scan_start_turbo,
}
use nite_pr.Transport.Ps5dbg.Honesty.{scan_sync-Honest, after_scan-from, scan_end-Honest}

module _ {C W K Tm : Type 0} (pk : Package C W K Tm) (fuel : ℕ) where
  start_single-Honest :
      (c : C) (pid : ℕ) (gs : List Segment) (args : StartArgs) (use_aliasing : Bool)
      → Honest (start_single pk fuel c pid gs args use_aliasing)
  unfolding start_single
  start_single-Honest c pid [] args use_aliasing = raise-Losing (own scan_unsupported) refl
  start_single-Honest c pid ((addr, len) ∷ gs) args use_aliasing = on_world-Honest _ (lib-Losing _)

  start_resident-Honest :
      (c : C) (pid : ℕ) (gs : List Segment) (args : StartArgs) (engines : ℕ)
      → Honest (start_resident pk fuel c pid gs args engines)
  unfolding start_resident
  start_resident-Honest c pid gs args engines =
      Raises-if _ _ _
        (on_world-Honest _ (
          turbo_start_resident_segments-Losing (pk.connection c) fuel pid gs args.value_type
            args.compare_type args.alignment args.value (has engines tse_aliasing)))
        (start_single-Honest c pid gs args (has engines tse_aliasing))

  start_scan-Honest :
      (c : C) (pid : ℕ) (gs : List Segment) (args : StartArgs) (unknown : Bool) (engines : ℕ)
      → Honest (start_scan pk fuel c pid gs args unknown engines)
  unfolding start_scan
  start_scan-Honest c pid gs args true engines =
      Raises-bind _ _ (raise_if-Losing _ (own scan_unsupported) refl)
        λ _. search (world_rules, turbo_start_snapshot_segments-Losing)
  start_scan-Honest c pid gs args false engines = Raises-if _ _ _ (Raises-pure _) (
      Raises-bind _ _ (start_resident-Honest c pid gs args engines)
        λ r. Raises-if _ _ _ (Raises-pure _) (Raises-bind _ _ (Raises-modify _) λ _. Raises-pure _))

  after_start-from :
      (e : Failure) (l : Link C W K Tm)
      → Losing IsDown e l
      → OfError (Losing IsDown) (after_start pk fuel e l).0 (after_start pk fuel e l).1
  unfolding after_start
  after_start-from e l h = either (is_scan_unsupported e) h
    where
      cleaned_up : Action C W K Tm (Bool × ℕ)
      cleaned_up = do catch (scan_end pk) (λ _. pure tt); raise (own scan_unsupported)

      cleans : Honest cleaned_up
      cleans =
          Raises-bind _ _ (Raises-catch _ _ (scan_end-Honest pk) λ _. Raises-pure tt)
            λ _. raise-Losing (own scan_unsupported) refl

      either :
          (b : Bool)
          → Losing IsDown e l
          → OfError
              (Losing IsDown)
              ((if b then cleaned_up else after_scan pk e) l).0
              ((if b then cleaned_up else after_scan pk e) l).1
      either true h = cleans.at l
      either false h = after_scan-from pk _ e l h

  pub scan_start_turbo-Honest :
      (pid : ℕ) (gs : List Segment) (args : StartArgs) (unknown : Bool) (engines : ℕ)
      → Honest (scan_start_turbo pk fuel pid gs args unknown engines)
  unfolding scan_start_turbo
  scan_start_turbo-Honest pid gs args unknown engines =
      Raises-bind _ _ (raise_if-Losing _ (own scan_unsupported) refl) λ _.
        Raises-bind _ _ (search world_rules) λ c. Raises-bind _ _ (Raises-modify _) λ _.
          Raises-catch-from _ _
            (Raises-bind _ _ (waiting-Honest pk _ (start_scan-Honest c pid gs args unknown engines))
              λ r.
                Raises-bind _ _ (Raises-if r.0 _ _ (scan_sync-Honest pk) (Raises-pure tt))
                  λ _. Raises-pure _)
            after_start-from
