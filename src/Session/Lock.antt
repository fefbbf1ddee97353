-- ===== src/Session/Lock.antt =====
-- `_begin_busy`, `_end_busy` and `_hold_io` of web/nitepr5_core/session.py, as the thread `me` runs
-- them. A thread that would wait for the lock is `blocked`, in the state in which it waits.
pub mod Values
use nite_pr.Base.{
  ℕ, ◌+◌, ◌-◌, Bool, true, false, not, ◌&&◌, Option, none, some, ltb, ◌==◌, if◌then◌else◌,
}
use nite_pr.Base.Exec.{Outcome, ok, err, blocked, Exec, ensure, after}
use nite_pr.Errors.{Error, scan_active}
use nite_pr.Session.{Session, Method}

-- `self._io_owner == me`
abbrev pub owns : ℕ → Option ℕ → Bool
owns me none = false
owns me (some owner) = owner == me

module _ {T : Type 0} where
  unfoldable pub begin_busy : Method T (Unit {0})
  begin_busy s = if s.busy then (err scan_active, s) else (ok tt, record s { busy = true })

  unfoldable pub end_busy : Session T → Session T
  end_busy s = record s { busy = false }

  -- The lock is held, and by another thread.
  abbrev pub held_by_other : ℕ → Session T → Bool
  held_by_other me s = ltb 0 s.io_depth && not (owns me s.io_owner)

  abbrev pub take_io : ℕ → Session T → Session T
  take_io me s = record s { io_owner = some me; io_depth = s.io_depth + 1 }

  -- The `finally` of the context manager.
  abbrev pub release_io : Session T → Session T
  release_io s =
      if s.io_depth - 1 == 0
      then record s { io_owner = none; io_depth = 0 }
      else record s { io_depth = s.io_depth - 1 }

  -- The test for a hunt, made before and again after the lock is taken.
  abbrev pub refuses : Bool → Bool → Session T → Bool
  refuses block already s = not block && (s.busy && not already)

  module _ {A : Type 0} where
    -- The body of the `with` block, once the lock is taken.
    unfoldable pub guarded : Bool → Bool → Method T A → Method T A
    guarded block already body s = if refuses block already s then (err scan_active, s) else body s

    unfoldable pub hold_io : ℕ → Bool → Method T A → Method T A
    unfolding guarded
    hold_io me block body s =
        let already = owns me s.io_owner in
        if refuses block already s
        then (err scan_active, s)
        else if held_by_other me s
        then (blocked, s)
        else ensure (guarded block already body) release_io (take_io me s)
