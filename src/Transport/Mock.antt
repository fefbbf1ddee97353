-- ===== src/Transport/Mock.antt =====
-- web/nitepr5_core/transport.py, `class MockTransport`: the in-memory console of the tests. The
-- counters of calls that only the tests read are left out, but for the list of the writes.
pub mod Memory
pub mod Scanning
pub mod Console
use nite_pr.Base.{ℕ, ◌+◌, Bool, true, false, Option, none, some, List, [], ◌∷◌, ◌==◌, if◌then◌else◌}
use nite_pr.Base.Text.{Text, text, strip, is_nonempty, eq_text}
use nite_pr.Base.Dict.{Dict, lookup}
use nite_pr.Base.Exec.{Outcome, ok, err, Exec, raise_if, gets, modify, pure, raise, ◌>>=◌, ◌>>◌}
use nite_pr.Types.{
  Bytes, ProcessInfo, ForegroundInfo, ProcessDetail, MemoryMap, ScanRegion, ScanHit,
}
use nite_pr.Errors.{Error, not_connected, connect_failed, nite_pr5_error}

-- `RAM_BASE`
abbrev pub ram_base : ℕ
ram_base = 0x2_0000_0000

-- `EBOOT_PID`, `TITLEID` and `CONTENTID`
abbrev pub eboot_pid : ℕ
eboot_pid = 1234

abbrev pub titleid : Text
titleid = text "CUSA00004"

abbrev pub contentid : Text
contentid = text "IV0000-CUSA00004_00-EXAMPLE000000000"

pub record Mock : Type 0 where
  pub host : Option Text
  pub is_connected : Bool
  pub decline_resident : Bool
  pub decline_snapshot : Bool
  pub fail_regions_probe : Bool
  pub write_calls : List (ℕ × ℕ × Bytes)
  pub drop_io : Bool
  pub scan_authed : Bool
  pub turbo_open : Bool
  pub survivors : List ScanHit
  pub value_type : ℕ
  pub ram : Bytes
  pub procs : List ProcessInfo
  pub foreground : ForegroundInfo
  pub maps : Dict (List MemoryMap)

abbrev pub Action : Type 0 → Type 0
Action A = Exec Error Mock A

unfoldable pub connect : Text → ℕ → Action (Unit {0})
connect name port =
    let host = strip name in
    if is_nonempty host
    then modify (λ t. record t { host = some host; is_connected = true })
    else raise connect_failed

abbrev pub closed : Mock → Mock
closed t = record t {
  is_connected = false;
  host = none;
  scan_authed = false;
  turbo_open = false;
  survivors = [];
}

unfoldable pub disconnect : Action (Unit {0})
disconnect = modify closed

unfoldable pub discover : Action (List Text)
discover = pure (text "127.0.0.1" ∷ [])

-- `_require`
unfoldable pub require : Action (Unit {0})
require t = if t.is_connected then (ok tt, t) else (err not_connected, t)

-- `_maybe_drop`
unfoldable pub maybe_drop : Action (Unit {0})
maybe_drop t = if t.drop_io then (err not_connected, closed t) else (ok tt, t)

unfoldable pub procs : Action (List ProcessInfo)
unfolding require
procs = do require; gets (λ t. t.procs)

unfoldable pub foreground_app : Action ForegroundInfo
unfolding require
foreground_app = do require; gets (λ t. t.foreground)

-- The details of the mock's process `p`.
abbrev detail : ProcessInfo → ProcessDetail
detail p = record {
  pid = p.pid;
  name = p.name;
  path = if eq_text p.name (text "eboot.bin") then text "/app0/eboot.bin" else [];
  titleid = if p.pid == eboot_pid then titleid else [];
  contentid = if p.pid == eboot_pid then contentid else [];
}

unfoldable pub find_proc : ℕ → List ProcessInfo → Action ProcessDetail
unfolding eq_text
find_proc pid [] = raise nite_pr5_error
find_proc pid (p ∷ ps) = if p.pid == pid then pure (detail p) else find_proc pid ps

unfoldable pub proc_info : ℕ → Action ProcessDetail
unfolding require find_proc
proc_info pid = do require; ps ← gets (λ t. t.procs); find_proc pid ps

-- `self._maps.get(pid, ())`
unfoldable pub maps_of : ℕ → Mock → List MemoryMap
maps_of pid t = elim (lookup pid t.maps) [ none ↦ [] | some rows ↦ rows ]

unfoldable pub maps : ℕ → Action (List MemoryMap)
unfolding require maps_of
maps pid = do require; gets (maps_of pid)
