-- ===== src/Session.antt =====
-- web/nitepr5_core/session.py, `class Session`: its fields, and the helpers that every method
-- calls. The methods stand in the modules below, by topic.
pub mod Lock
pub mod Connect
pub mod Memory
pub mod Pins
pub mod Hunt
pub mod Cheats
pub mod Calls
pub mod Valid
pub mod Truthful
use nite_pr.Base.{
  ℕ, ◌≤◌, Bool, true, false, not, ◌&&◌, Option, none, some, List, [], ◌∷◌, ltb, if◌then◌else◌,
}
use nite_pr.Base.Int.{ℤ, pos, negsuc}
use nite_pr.Base.Text.{Text}
use nite_pr.Base.Dict.{Dict}
use nite_pr.Base.Exec.{
  Outcome, ok, err, blocked, Exec, pure, raise, raise_if, gets, or_raise, ◌>>=◌, ◌>>◌,
}
use nite_pr.Types.{Dyn, MemoryMap, ScanHit, WatchEntry, FreezeEntry, CheatFile}
use nite_pr.Errors.{Error, not_connected, no_target, invalid_address}
use nite_pr.Scan.Segments.{Segment}
use nite_pr.Transport.{Transport}

pub data Engine : Type 0 where
  turbo iterative local : Engine

-- A generation that undo can restore: its count, and its hits where they were fetched.
abbrev pub Generation : Type 0
Generation = ℕ × Option (List ScanHit)

-- `_ScanState`. The undo stack has its last entry first.
pub record ScanState : Type 0 where
  pub pid : ℕ
  pub value_type : ℕ
  pub alignment : ℕ
  pub engine : Engine
  pub count : ℕ
  pub segments : List Segment
  pub hits : Option (List ScanHit)
  pub iterative_all : Option (List ScanHit)
  pub undo_stack : List Generation

-- The fields of `Session`. `io_owner` and `io_depth` are those of the re-entrant lock `_io` too:
-- the code changes them only while it holds the lock.
pub record Session (T : Type 0) : Type 0 where
  pub transport : T
  pub host : Option Text
  pub target_pid : Option ℕ
  pub maps_cache : Dict (List MemoryMap)
  pub scan : Option ScanState
  pub busy : Bool
  pub io_owner : Option ℕ
  pub io_depth : ℕ
  pub watches : Dict WatchEntry
  pub freezes : Dict FreezeEntry
  pub next_watch_id : ℕ
  pub next_freeze_id : ℕ
  pub cheat : Option CheatFile
  pub cheat_enabled : List Text
  pub plugin_host : Option Text
  pub plugin_armed : Bool

-- `Session.__init__`
abbrev pub new_session : {T : Type 0} → T → Session T
new_session transport = record {
  transport = transport;
  host = none;
  target_pid = none;
  maps_cache = [];
  scan = none;
  busy = false;
  io_owner = none;
  io_depth = 0;
  watches = [];
  freezes = [];
  next_watch_id = 1;
  next_freeze_id = 1;
  cheat = none;
  cheat_enabled = [];
  plugin_host = none;
  plugin_armed = false;
}

-- A method of the session.
abbrev pub Method : Type 0 → Type 0 → Type 0
Method T A = Exec Error (Session T) A

-- A call of the session's transport.
unfoldable pub via : {T A : Type 0} → Exec Error T A → Method T A
via m s = ((m s.transport).0, record s { transport = (m s.transport).1 })

-- `_is_pid`, with the number that it lets through.
unfoldable pub as_pid : Dyn → Option ℕ
as_pid (Dyn.int (pos n)) = some n
as_pid _ = none

abbrev pub u64_max : ℕ
u64_max = 0xffff_ffff_ffff_ffff

-- `_require_addr`
unfoldable pub require_addr : Dyn → Outcome Error ℕ
require_addr (Dyn.int (pos n)) =
    if ltb u64_max n then err (invalid_address (Dyn.int (pos n))) else ok n
require_addr addr = err (invalid_address addr)

module _ {T : Type 0} where
  -- `_resolve_pid`
  unfoldable pub resolve_pid : Dyn → Method T ℕ
  unfolding as_pid
  resolve_pid Dyn.nothing = do target ← gets (λ s. s.target_pid); or_raise target no_target
  resolve_pid pid = or_raise (as_pid pid) no_target

  -- `_clear_watches_and_freezes`
  abbrev pub clear_pins : Session T → Session T
  clear_pins s = record s { watches = []; freezes = []; next_watch_id = 1; next_freeze_id = 1 }

  module _ (tr : Transport T) where
    -- `_require_connected`
    unfoldable pub require_connected : Method T (Unit {0})
    require_connected = do
      up ← gets (λ s. tr.connected s.transport)
      raise_if (not up) not_connected
