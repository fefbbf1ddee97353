-- ===== src/Transport/Ps5dbg/Honesty.antt =====
-- The operations of the scan of `Ps5dbgTransport`: where they raise `NotConnected`.
use nite_pr.Base.{ℕ, refl, not, ◌||◌, none, List, [], ◌∷◌}
use nite_pr.Base.Exec.{pure, raise}
use nite_pr.Base.Exec.Raises.{
  OfError, Raises-pure, Raises-gets, Raises-modify, Raises-if, Raises-catch-from, Raises-bind,
}
use nite_pr.Types.{Bytes, ScanHit}
use nite_pr.Errors.{is_not_connected}
use nite_pr.Scan.Segments.{Segment}
use nite_pr.Transport.{StartArgs, CountArgs}
use nite_pr.Wire.{Kind, Failure, raised, own}
use nite_pr.Wire.Losing.{Losing, raise-Losing}
use nite_pr.Transport.Ps5dbg.{Package, Link}
use nite_pr.Transport.Ps5dbg.Losing.{
  IsDown, Honest, rethrow-Honest, disconnect-Honest, lost-Honest, call-Honest, waiting-Honest,
  world_rules,
}
use nite_pr.Transport.Ps5dbg.Scanning.{
  scan_sync, after_scan, after_caps, scan_caps, scan_authenticate, after_regions, scan_regions,
  after_end, scan_end, scan_count_resident, scan_get_resident, start_each, scan_start_iterative,
  count_one, count_each, scan_next_iterative,
}

module _ {C W K Tm : Type 0} (pk : Package C W K Tm) where
  pub scan_sync-Honest : Honest (scan_sync pk)
  unfolding scan_sync
  scan_sync-Honest = search (world_rules, call-Honest)

  -- The handlers, on a failure of the package's.
  raised-Honest :
      {A : Type 0} (k : Kind) → Honest {C = C} {W = W} {K = K} {Tm = Tm} {A = A} (raise (raised k))
  raised-Honest k = raise-Losing (raised k) refl

  after_raised-Honest : {A : Type 0} (k : Kind) → Honest (after_scan pk {A = A} (raised k))
  unfolding after_scan
  after_raised-Honest k = search (world_rules, lost-Honest, raised-Honest)

  pub after_scan-from :
      (A : Type 0) (e : Failure) (l : Link C W K Tm)
      → Losing IsDown e l
      → OfError (Losing IsDown) (after_scan pk {A = A} e l).0 (after_scan pk {A = A} e l).1
  unfolding after_scan raise
  after_scan-from A (own e) l h = h
  after_scan-from A (raised k) l h = (after_raised-Honest k).at l

  after_caps-from :
      (e : Failure) (l : Link C W K Tm)
      → Losing IsDown e l
      → OfError (Losing IsDown) (after_caps pk e l).0 (after_caps pk e l).1
  unfolding after_caps
  after_caps-from (own e) l h = after_scan-from _ (own e) l h
  after_caps-from (raised k) l h =
      (Raises-if k.is_bad_status _ _ (Raises-pure none) (after_raised-Honest k)).at l

  after_regions-from :
      (e : Failure) (l : Link C W K Tm)
      → Losing IsDown e l
      → OfError (Losing IsDown) (after_regions pk e l).0 (after_regions pk e l).1
  unfolding after_regions raise
  after_regions-from (own e) l h = h
  after_regions-from (raised k) l h =
      (Raises-if k.is_connection_lost _ _ (lost-Honest pk) (
          Raises-if (k.is_bad_status || (k.is_ps5dbg_error || k.is_os_error)) _ _ (Raises-pure none)
            (raised-Honest k))).at
        l

  pub scan_caps-Honest : Honest (scan_caps pk)
  unfolding scan_caps
  scan_caps-Honest =
      Raises-bind _ _ (search world_rules)
        λ c. Raises-catch-from _ _ (search (world_rules, waiting-Honest)) after_caps-from

  pub scan_authenticate-Honest : Honest (scan_authenticate pk)
  unfolding scan_authenticate
  scan_authenticate-Honest = search (world_rules, call-Honest) depth 20

  pub scan_regions-Honest : (pid probe_bytes : ℕ) → Honest (scan_regions pk pid probe_bytes)
  unfolding scan_regions
  scan_regions-Honest pid probe_bytes =
      Raises-bind _ _ (search world_rules)
        λ c. Raises-catch-from _ _ (search (world_rules, waiting-Honest)) after_regions-from

  after_end-from :
      (e : Failure) (l : Link C W K Tm)
      → Losing IsDown e l
      → OfError (Losing IsDown) (after_end pk e l).0 (after_end pk e l).1
  unfolding after_end
  after_end-from (own e) l h =
      rethrow-Honest (is_not_connected e) (own e) l (pure tt) (Raises-pure tt) h
  after_end-from (raised k) l h =
      (Raises-if k.is_connection_lost _ _ (disconnect-Honest pk) (
          Raises-if (k.is_ps5dbg_error || k.is_os_error) _ _ (Raises-pure tt) (raised-Honest k))).at
        l

  pub scan_end-Honest : Honest (scan_end pk)
  unfolding scan_end
  scan_end-Honest = Raises-bind _ _ (Raises-gets _) λ is_open.
      Raises-if (not is_open) _ _ (Raises-pure tt) (
        Raises-bind _ _
          (Raises-catch-from _ _ (search (world_rules, waiting-Honest)) after_end-from)
          λ _. Raises-modify _)

  pub scan_count_resident-Honest : (args : CountArgs) → Honest (scan_count_resident pk args)
  unfolding scan_count_resident
  scan_count_resident-Honest args =
      search (world_rules, waiting-Honest, call-Honest, scan_sync-Honest) depth 20

  pub scan_get_resident-Honest :
      (start_index count value_length : ℕ)
      → Honest (scan_get_resident pk start_index count value_length)
  unfolding scan_get_resident
  scan_get_resident-Honest start_index count value_length =
      search (world_rules, waiting-Honest, call-Honest) depth 20

  start_each-Honest :
      (c : C) (pid : ℕ) (gs : List Segment) (args : StartArgs)
      → Honest (start_each pk c pid gs args)
  unfolding start_each
  start_each-Honest c pid [] args = Raises-pure []
  start_each-Honest c pid ((addr, len) ∷ gs) args =
      Raises-bind _ _ (search (world_rules, call-Honest))
        λ rel. Raises-bind _ _ (start_each-Honest c pid gs args) λ rest. Raises-pure _

  pub scan_start_iterative-Honest :
      (pid : ℕ) (gs : List Segment) (args : StartArgs)
      → Honest (scan_start_iterative pk pid gs args)
  unfolding scan_start_iterative
  scan_start_iterative-Honest pid gs args = search (world_rules, waiting-Honest, start_each-Honest)

  count_one-Honest :
      (c : C) (pid addr : ℕ) (group : List (ℕ × Bytes)) (hits : List ScanHit) (args : CountArgs)
      → Honest (count_one pk c pid addr group hits args)
  unfolding count_one
  count_one-Honest c pid addr [] hits args = Raises-pure []
  count_one-Honest c pid addr (g ∷ group) hits args =
      Raises-bind _ _ (search (world_rules, call-Honest)) λ got. Raises-pure _

  count_each-Honest :
      (c : C) (pid : ℕ) (gs : List Segment) (hits : List ScanHit) (args : CountArgs)
      → Honest (count_each pk c pid gs hits args)
  unfolding count_each
  count_each-Honest c pid [] hits args = Raises-pure []
  count_each-Honest c pid ((addr, len) ∷ gs) hits args =
      Raises-bind _ _ (count_one-Honest c pid addr _ hits args)
        λ kept. Raises-bind _ _ (count_each-Honest c pid gs hits args) λ rest. Raises-pure _

  pub scan_next_iterative-Honest :
      (pid : ℕ) (gs : List Segment) (hits : List ScanHit) (args : CountArgs)
      → Honest (scan_next_iterative pk pid gs hits args)
  unfolding scan_next_iterative
  scan_next_iterative-Honest pid gs hits args =
      search (world_rules, waiting-Honest, count_each-Honest)
