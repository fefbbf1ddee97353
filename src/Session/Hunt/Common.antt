-- ===== src/Session/Hunt/Common.antt =====
-- What the methods of the scan share: the state of the hunt, and the brackets around it.

use nite_pr.Base.{ℕ, true, Option, none, some}
use nite_pr.Base.Exec.{or_raise, gets, ensure, ◌>>=◌, ◌>>◌}
use nite_pr.Errors.{foreign, no_scan}
use nite_pr.Transport.{Transport}
use nite_pr.Session.{Session, ScanState, Method}
use nite_pr.Session.Lock.{begin_busy, end_busy, hold_io}

abbrev map_scan : (ScanState → ScanState) → Option ScanState → Option ScanState
map_scan f none = none
map_scan f (some scan) = some (f scan)

module _ {T : Type 0} where
  -- `if self._scan is None: raise NoScan`
  unfoldable pub active_scan : Method T ScanState
  active_scan = do scan ← gets (λ s. s.scan); or_raise scan no_scan

  -- `self._scan` where the code takes for granted that it is set; otherwise Python raises.
  unfoldable pub the_scan : Method T ScanState
  the_scan = do scan ← gets (λ s. s.scan); or_raise scan foreign

  -- Assignments to the fields of `self._scan`.
  abbrev pub on_scan : (ScanState → ScanState) → Session T → Session T
  on_scan f s = record s { scan = map_scan f s.scan }

  module _ {A : Type 0} (tr : Transport T) where
    -- `with self._transport.scan_wait():`
    unfoldable pub waiting : Method T A → Method T A
    waiting body s =
        ensure body (λ t. record t { transport = tr.scan_wait_exit t.transport })
          (record s { transport = tr.scan_wait_enter s.transport })

    -- `self._begin_busy()`, then `try: with self._hold_io(): … finally: self._end_busy()`.
    unfoldable pub hunting : ℕ → Method T A → Method T A
    unfolding begin_busy end_busy hold_io
    hunting me body = begin_busy >> ensure (hold_io me true body) end_busy
