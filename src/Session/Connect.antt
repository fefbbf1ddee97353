-- ===== src/Session/Connect.antt =====
-- `discover`, `connect`, `disconnect`, `attach_target`, `processes` and `foreground` of
-- web/nitepr5_core/session.py, with `_end_scan`.
use nite_pr.Base.{
  ℕ, Bool, true, false, not, ◌&&◌, Option, none, some, List, [], ◌∷◌, ◌==◌, is_some, if◌then◌else◌,
}
use nite_pr.Base.Text.{Text, strip, or_text, is_nonempty, eq_text}
use nite_pr.Base.Exec.{pure, raise, raise_if, or_raise, gets, modify, catch, ◌>>=◌, ◌>>◌}
use nite_pr.Constants.{ps5debug_port, eboot_name}
use nite_pr.Types.{Dyn, ProcessInfo, ForegroundInfo}
use nite_pr.Errors.{Error, no_target, connect_failed, scan_active}
use nite_pr.Transport.{Transport}
use nite_pr.Session.{Session, ScanState, Method, via, as_pid, clear_pins, require_connected}
use nite_pr.Session.Lock.{hold_io}

-- `self._target_pid is not None and pid != self._target_pid`
abbrev pub differs : ℕ → Option ℕ → Bool
differs pid none = false
differs pid (some p) = not (pid == p)

-- `self._scan is not None and pid != self._scan.pid`
abbrev pub hunts_other : ℕ → Option ScanState → Bool
hunts_other pid none = false
hunts_other pid (some scan) = not (pid == scan.pid)

-- The entry of `title_by_pid` for a pid: at most the foreground app's, if its title is not empty.
abbrev pub foreground_title : ℕ → Option ForegroundInfo → Text
foreground_title pid none = []
foreground_title pid (some fg) = if fg.pid == pid then fg.titleid else []

module _ {T : Type 0} where
  -- The state that `attach_target` leaves when it accepts.
  abbrev pub retarget : ℕ → Session T → Session T
  retarget pid s =
      let s' = if differs pid s.target_pid then clear_pins (record s { maps_cache = [] }) else s in
      record s' { target_pid = some pid }

  abbrev pub drop_scan : Session T → Session T
  drop_scan s = record s { scan = none }

  -- What `disconnect` resets after the transport has let go of the socket.
  abbrev pub forget : Session T → Session T
  forget s = clear_pins (record s { host = none; target_pid = none; maps_cache = [] })

  module _ (tr : Transport T) (me : ℕ) where
    unfoldable pub discover : Method T (List Text)
    discover = via tr.discover

    -- `if not silent: raise`
    abbrev pub unless_silent : Bool → Error → Method T (Unit {0})
    unless_silent true e = pure tt
    unless_silent false e = raise e

    -- `_end_scan`
    unfoldable pub end_scan : Bool → Method T (Unit {0})
    end_scan silent = do
      had_scan ← gets (λ s. is_some s.scan)
      modify drop_scan
      if not had_scan then pure tt else catch (via tr.scan_end) (λ e. unless_silent silent e)

    unfoldable pub disconnect : Method T (Unit {0})
    unfolding end_scan
    disconnect = hold_io me true (do end_scan true; via tr.disconnect; modify forget)

    unfoldable pub connect : Text → Method T (Unit {0})
    unfolding disconnect
    connect name = do
      let host = strip name
      raise_if (not (is_nonempty host)) connect_failed
      hold_io me true (do
        disconnect
        via (tr.connect host ps5debug_port)
        modify (λ s. record s { host = some host; plugin_host = some host }))

    unfoldable pub foreground : Method T ForegroundInfo
    unfolding require_connected
    foreground = do require_connected tr; hold_io me false (via tr.foreground_app)

    -- The title of one process.
    unfoldable pub title_of : Option ForegroundInfo → ProcessInfo → Method T Text
    title_of fg p =
        let title = or_text p.titleid (foreground_title p.pid fg) in
        if not (is_nonempty title) && eq_text p.name eboot_name
        then catch (do detail ← via (tr.proc_info p.pid); pure detail.titleid) (λ e. pure [])
        else pure title

    unfoldable pub title_all :
        Option ForegroundInfo → List ProcessInfo → Method T (List ProcessInfo)
    unfolding title_of
    title_all fg [] = pure []
    title_all fg (p ∷ procs) = do
      title ← title_of fg p
      rest ← title_all fg procs
      pure (record { pid = p.pid; name = p.name; titleid = title } ∷ rest)

    unfoldable pub processes : Method T (List ProcessInfo)
    unfolding require_connected title_all
    processes = do
      require_connected tr
      hold_io me false (do
        procs ← via tr.procs
        fg ← catch (do info ← via tr.foreground_app; pure (some info)) (λ e. pure none)
        title_all fg procs)

    unfoldable pub attach_target : Dyn → Method T (Unit {0})
    unfolding require_connected as_pid
    attach_target arg = do
      require_connected tr
      pid ← or_raise (as_pid arg) no_target
      raise_if (← gets (λ s. hunts_other pid s.scan)) scan_active
      modify (retarget pid)
