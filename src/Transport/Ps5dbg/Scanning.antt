-- ===== src/Transport/Ps5dbg/Scanning.antt =====
-- The scan of `Ps5dbgTransport`: `_scan_sync`, `scan_caps`, `scan_authenticate`, `scan_regions`,
-- `scan_start_turbo`, `scan_count_resident`, `scan_get_resident`, `scan_end`,
-- `scan_start_iterative` and `scan_next_iterative`.
use nite_pr.Base.{
  ℕ, ◌+◌, ◌-◌, Bool, true, false, not, ◌&&◌, ◌||◌, Option, none, some, List, [], ◌∷◌, ◌++◌, map,
  ltb, leb, ◌==◌, bit_and, bit_or, if◌then◌else◌,
}
use nite_pr.Base.Exec.{pure, raise, raise_if, gets, modify, catch, ◌>>=◌, ◌>>◌}
use nite_pr.Constants.{ts_server_resident, ts_use_aliasing, results_max, scan_regions_probe_bytes}
use nite_pr.Types.{Bytes, ScanRegion, ScanHit}
use nite_pr.Errors.{scan_unsupported, is_not_connected, nite_pr5_error}
use nite_pr.Scan.Segments.{Segment}
use nite_pr.Scan.Classify.{ResidentRow}
use nite_pr.Transport.{StartArgs, CountArgs}
use nite_pr.Wire.{Failure, raised, own, lib}
use nite_pr.Transport.Ps5dbg.{Package, Action, on_world, require, disconnect, lost, call, waiting}

-- `engines & bit`
abbrev pub has : ℕ → ℕ → Bool
has engines bit = not (bit_and engines bit == 0)

abbrev pub is_nil : List Segment → Bool
is_nil [] = true
is_nil (g ∷ gs) = false

abbrev pub is_scan_unsupported : Failure → Bool
is_scan_unsupported (own scan_unsupported) = true
is_scan_unsupported _ = false

-- The flags of a start on a single range.
abbrev pub single_flags : Bool → ℕ
single_flags use_aliasing =
    if use_aliasing then bit_or ts_server_resident ts_use_aliasing else ts_server_resident

-- `[(h.addr - addr, h.current) for h in candidates if addr <= h.addr < addr + length]`
unfoldable pub group_of : Segment → List ScanHit → List (ℕ × Bytes)
group_of (addr, len) [] = []
group_of (addr, len) (h ∷ hs) =
    if leb addr h.addr && ltb h.addr (addr + len)
    then (h.addr - addr, h.current) ∷ group_of (addr, len) hs
    else group_of (addr, len) hs

-- The loop over the candidates for the value that a survivor had.
unfoldable pub previous_of : ℕ → List ScanHit → Option Bytes
previous_of abs_addr [] = none
previous_of abs_addr (h ∷ hs) =
    if h.addr == abs_addr then some h.current else previous_of abs_addr hs

abbrev pub found_hit : ℕ → ℕ × Bytes → ScanHit
found_hit addr (off, val) = record { addr = addr + off; current = val; previous = some val }

unfoldable pub survivor : List ScanHit → ℕ → ℕ × Bytes → ScanHit
unfolding previous_of
survivor candidates addr (off, val) = record {
  addr = addr + off;
  current = val;
  previous = previous_of (addr + off) candidates;
}

module _ {C W K Tm : Type 0} (pk : Package C W K Tm) where
  -- `_scan_sync`
  unfoldable pub scan_sync : Action C W K Tm (Unit {0})
  unfolding require call lib
  scan_sync = do c ← require; call pk (lib (pk.proc_nop c))

  -- `except ConnectionLost` and `except PS5DbgError`, as the scan's own `try`s end.
  unfoldable pub after_scan : {A : Type 0} → Failure → Action C W K Tm A
  unfolding lost
  after_scan (own e) = raise (own e)
  after_scan (raised k) =
      if k.is_connection_lost
      then lost pk
      else (if k.is_ps5dbg_error then raise (own nite_pr5_error) else raise (raised k))

  -- The `except` clauses of `scan_caps`.
  unfoldable pub after_caps : Failure → Action C W K Tm (Option (ℕ × ℕ × ℕ))
  unfolding after_scan
  after_caps (own e) = after_scan (own e)
  after_caps (raised k) = if k.is_bad_status then pure none else after_scan (raised k)

  unfoldable pub scan_caps : Action C W K Tm (Option (ℕ × ℕ × ℕ))
  unfolding require waiting on_world lib after_caps
  scan_caps = do
    c ← require
    catch (waiting pk (do caps ← on_world (lib (pk.turboscan_caps c)); pure (some caps))) after_caps

  unfoldable pub scan_authenticate : Action C W K Tm (Unit {0})
  unfolding require call lib
  scan_authenticate = do
    authed ← gets (λ l. l.scan_authed)
    if authed then pure tt else (do
      c ← require
      call pk (lib (pk.authenticate c 2))
      modify (λ l. record l { scan_authed = true }))

  -- The `except` clauses of `scan_regions`.
  unfoldable pub after_regions : Failure → Action C W K Tm (Option (List ScanRegion))
  unfolding lost
  after_regions (own e) = raise (own e)
  after_regions (raised k) =
      if k.is_connection_lost
      then lost pk
      else (if k.is_bad_status || (k.is_ps5dbg_error || k.is_os_error)
          then pure none
          else raise (raised k))

  unfoldable pub scan_regions : (pid probe_bytes : ℕ) → Action C W K Tm (Option (List ScanRegion))
  unfolding require waiting on_world lib after_regions
  scan_regions pid asked = do
    let probe_bytes = if asked == 0 then scan_regions_probe_bytes else asked
    c ← require
    catch
        (waiting pk
          (do raw ← on_world (lib (pk.turboscan_regions c pid 0 probe_bytes)); pure (some raw)))
        after_regions

  -- The `except` clauses of `scan_end`.
  unfoldable pub after_end : Failure → Action C W K Tm (Unit {0})
  unfolding disconnect
  after_end (own e) = if is_not_connected e then pure tt else raise (own e)
  after_end (raised k) =
      if k.is_connection_lost
      then disconnect pk
      else (if k.is_ps5dbg_error || k.is_os_error then pure tt else raise (raised k))

  unfoldable pub scan_end : Action C W K Tm (Unit {0})
  unfolding require waiting on_world lib after_end
  scan_end = do
    is_open ← gets (λ l. l.turbo_open)
    if not is_open then pure tt else (do
      catch (waiting pk (do c ← require; on_world (lib (pk.turboscan_end c)))) after_end
      modify (λ l. record l { turbo_open = false }))

  unfoldable pub scan_count_resident : CountArgs → Action C W K Tm ℕ
  unfolding require waiting call lib scan_sync
  scan_count_resident args = do
    c ← require
    count ← waiting pk (call pk (lib (pk.turboscan_count_resident c args ts_server_resident)))
    scan_sync
    pure count

  unfoldable pub scan_get_resident :
      (start_index count value_length : ℕ) → Action C W K Tm (List ResidentRow)
  unfolding require waiting call lib
  scan_get_resident start_index count value_length = do
    raise_if (count == 0 || ltb results_max count) (own scan_unsupported)
    c ← require
    waiting pk (call pk (lib (pk.turboscan_get_resident c start_index count value_length 0)))

  -- The loop of `scan_start_iterative`.
  unfoldable pub start_each : C → ℕ → List Segment → StartArgs → Action C W K Tm (List ScanHit)
  unfolding call lib
  start_each c pid [] args = pure []
  start_each c pid ((addr, len) ∷ segments) args = do
    rel ← call pk (lib (pk.proc_scan_start c pid addr len args))
    rest ← start_each c pid segments args
    pure (map (found_hit addr) rel ++ rest)

  unfoldable pub scan_start_iterative :
      ℕ → List Segment → StartArgs → Action C W K Tm (List ScanHit)
  unfolding require waiting start_each
  scan_start_iterative pid segments args = do
    c ← require
    waiting pk (start_each c pid segments args)

  -- One turn of the loop of `scan_next_iterative`.
  unfoldable pub count_one :
      C → ℕ → ℕ → List (ℕ × Bytes) → List ScanHit → CountArgs → Action C W K Tm (List ScanHit)
  unfolding call lib survivor
  count_one c pid addr [] candidates args = pure []
  count_one c pid addr (g ∷ group) candidates args = do
    got ← call pk (lib (pk.proc_scan_count c pid addr args (g ∷ group)))
    pure (map (survivor candidates addr) got)

  unfoldable pub count_each :
      C → ℕ → List Segment → List ScanHit → CountArgs → Action C W K Tm (List ScanHit)
  unfolding count_one group_of
  count_each c pid [] candidates args = pure []
  count_each c pid ((addr, len) ∷ segments) candidates args = do
    kept ← count_one c pid addr (group_of (addr, len) candidates) candidates args
    rest ← count_each c pid segments candidates args
    pure (kept ++ rest)

  unfoldable pub scan_next_iterative :
      ℕ → List Segment → List ScanHit → CountArgs → Action C W K Tm (List ScanHit)
  unfolding require waiting count_each
  scan_next_iterative pid segments candidates args = do
    c ← require
    waiting pk (count_each c pid segments candidates args)
