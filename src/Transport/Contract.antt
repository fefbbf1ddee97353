-- ===== src/Transport/Contract.antt =====
-- What the session relies on of a transport, whichever it is: that `connected` tells the truth about
-- the link.
pub mod Calm
pub mod Mocked
pub mod Real
use nite_pr.Base.{ℕ, ◌≡◌, Bool, true, false, List, if◌then◌else◌}
use nite_pr.Base.Text.{Text}
use nite_pr.Base.Exec.{ok}
use nite_pr.Base.Exec.Raises.{Raises}
use nite_pr.Types.{Bytes, ScanHit}
use nite_pr.Errors.{Error, is_not_connected}
use nite_pr.Scan.Segments.{Segment}
use nite_pr.Transport.{Transport, StartArgs, CountArgs}

-- If the error is `NotConnected`, then the transport is not connected.
abbrev pub Lost : {T : Type 0} → Transport T → Error → T → Type 0
Lost tr e t = if is_not_connected e then tr.connected t ≡ false else Unit

-- An operation that raises `NotConnected` leaves a transport that is not connected; `connect`
-- connects, `disconnect` disconnects even where it raises, and `scan_wait` does neither.
pub record IsHonest {T : Type 0} (tr : Transport T) : Type 0 where
  pub connect : (host : Text) (port : ℕ) → Raises (Lost tr) (tr.connect host port)
  pub connect_up :
      (host : Text) (port : ℕ) (t : T)
      → (tr.connect host port t).0 ≡ ok tt
      → tr.connected (tr.connect host port t).1 ≡ true
  pub disconnect : Raises (Lost tr) tr.disconnect
  pub disconnect_down : (t : T) → tr.connected (tr.disconnect t).1 ≡ false
  pub scan_wait :
      (t : T)
      → (tr.connected (tr.scan_wait_enter t) ≡ tr.connected t)
        × (tr.connected (tr.scan_wait_exit t) ≡ tr.connected t)
  pub discover : Raises (Lost tr) tr.discover
  pub procs : Raises (Lost tr) tr.procs
  pub foreground_app : Raises (Lost tr) tr.foreground_app
  pub proc_info : (pid : ℕ) → Raises (Lost tr) (tr.proc_info pid)
  pub maps : (pid : ℕ) → Raises (Lost tr) (tr.maps pid)
  pub read : (pid address len : ℕ) → Raises (Lost tr) (tr.read pid address len)
  pub write : (pid address : ℕ) (content : Bytes) → Raises (Lost tr) (tr.write pid address content)
  pub scan_caps : Raises (Lost tr) tr.scan_caps
  pub scan_authenticate : Raises (Lost tr) tr.scan_authenticate
  pub scan_regions : (pid probe_bytes : ℕ) → Raises (Lost tr) (tr.scan_regions pid probe_bytes)
  pub scan_start_turbo :
      (pid : ℕ) (gs : List Segment) (args : StartArgs) (unknown : Bool) (engines : ℕ)
      → Raises (Lost tr) (tr.scan_start_turbo pid gs args unknown engines)
  pub scan_count_resident : (args : CountArgs) → Raises (Lost tr) (tr.scan_count_resident args)
  pub scan_get_resident :
      (start_index count value_length : ℕ)
      → Raises (Lost tr) (tr.scan_get_resident start_index count value_length)
  pub scan_end : Raises (Lost tr) tr.scan_end
  pub scan_start_iterative :
      (pid : ℕ) (gs : List Segment) (args : StartArgs)
      → Raises (Lost tr) (tr.scan_start_iterative pid gs args)
  pub scan_next_iterative :
      (pid : ℕ) (gs : List Segment) (hits : List ScanHit) (args : CountArgs)
      → Raises (Lost tr) (tr.scan_next_iterative pid gs hits args)
