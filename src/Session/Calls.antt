-- ===== src/Session/Calls.antt =====
-- The calls of a session that change its state or use its socket, as data: what the requests of
-- the web application come to. A caller is a thread; `serve` runs one call after another.
use nite_pr.Base.{ℕ, Bool, List, [], ◌∷◌}
use nite_pr.Base.Int.{ℤ}
use nite_pr.Base.Text.{Text}
use nite_pr.Base.Exec.{Outcome, pure, ◌>>◌}
use nite_pr.Types.{Dyn}
use nite_pr.Errors.{Error}
use nite_pr.Cheat.Json.{Json}
use nite_pr.Transport.{Transport}
use nite_pr.Session.{Session, Method}
use nite_pr.Session.Cheats
use nite_pr.Session.Connect
use nite_pr.Session.Memory
use nite_pr.Session.Pins
use nite_pr.Session.Hunt.Plan.{ScanRequest}
use nite_pr.Session.Hunt.First
use nite_pr.Session.Hunt.Next
use nite_pr.Session.Hunt.Undo
use nite_pr.Session.Hunt.Results

pub data Call : Type 0 where
  discover disconnect processes foreground watch_poll freeze_tick scan_undo : Call
  connect : Text → Call
  attach_target : (pid : Dyn) → Call
  maps : (pid : Dyn) → (refresh : Bool) → Call
  read : (pid addr n : Dyn) → Call
  write : (pid addr content : Dyn) → Call
  watch_add : (pid addr n : Dyn) → (label : Text) → Call
  freeze_add : (pid addr content : Dyn) → Call
  watch_remove freeze_remove : (id : ℤ) → Call
  scan_start : (pid : Dyn) → ScanRequest → Call
  scan_next : (compare : Text) → (value : Dyn) → Call
  scan_results : (limit : Dyn) → Call
  cheat_load : Outcome Error Json → Call
  cheat_from_freezes : (name title_id version process : Text) → Call
  cheat_toggle : (name : Text) → (enabled : Bool) → Call

module _ {T : Type 0} (tr : Transport T) where
  -- One call by the thread `me`; its result is dropped.
  unfoldable pub perform : ℕ → Call → Method T (Unit {0})
  perform me discover = Connect.discover tr me >> pure tt
  perform me disconnect = Connect.disconnect tr me
  perform me processes = Connect.processes tr me >> pure tt
  perform me foreground = Connect.foreground tr me >> pure tt
  perform me watch_poll = Pins.watch_poll tr me >> pure tt
  perform me freeze_tick = Pins.freeze_tick tr me >> pure tt
  perform me scan_undo = Undo.scan_undo tr me >> pure tt
  perform me (connect host) = Connect.connect tr me host
  perform me (attach_target pid) = Connect.attach_target tr me pid
  perform me (maps pid refresh) = Memory.maps tr me pid refresh >> pure tt
  perform me (read pid addr n) = Memory.read tr me pid addr n >> pure tt
  perform me (write pid addr content) = Memory.write tr me pid addr content
  perform me (watch_add pid addr n label) = Pins.watch_add tr me pid addr n label >> pure tt
  perform me (freeze_add pid addr content) = Pins.freeze_add tr me pid addr content >> pure tt
  perform me (watch_remove id) = Pins.watch_remove id
  perform me (freeze_remove id) = Pins.freeze_remove id
  perform me (scan_start pid request) = First.scan_start tr me pid request >> pure tt
  perform me (scan_next compare value) = Next.scan_next tr me compare value >> pure tt
  perform me (scan_results limit) = Results.scan_results tr me limit >> pure tt
  perform me (cheat_load content) = Cheats.cheat_load content >> pure tt
  perform me (cheat_from_freezes name title_id version process) =
      Cheats.cheat_from_freezes tr me name title_id version process >> pure tt
  perform me (cheat_toggle name enabled) = Cheats.cheat_toggle tr me name enabled

  -- What is left of a session after the calls of its threads; an exception ends only its own call.
  unfoldable pub serve : List (ℕ × Call) → Session T → Session T
  unfolding perform
  serve [] s = s
  serve ((me, call) ∷ calls) s = serve calls (perform me call s).1
