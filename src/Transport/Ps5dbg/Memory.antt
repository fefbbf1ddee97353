-- ===== src/Transport/Ps5dbg/Memory.antt =====
-- The operations of `Ps5dbgTransport` that are not a scan's: `discover`, `procs`, `foreground_app`,
-- `proc_info`, `maps`, `read` and `write`. The records that they copy field by field are the ones
-- that came in, but for a process, which has no title of its own.
use nite_pr.Base.{ℕ, List, [], ◌∷◌, ltb, ◌==◌, length}
use nite_pr.Base.Int.{pos}
use nite_pr.Base.Text.{Text}
use nite_pr.Base.Exec.{pure, raise_if, ◌>>=◌, ◌>>◌}
use nite_pr.Constants.{read_max, write_max}
use nite_pr.Types.{Dyn, Bytes, ProcessInfo, ForegroundInfo, ProcessDetail, MemoryMap}
use nite_pr.Errors.{read_too_large, invalid_read_size, invalid_write_size, write_too_large}
use nite_pr.Wire.{own, lib}
use nite_pr.Wire.Requests.{proc_write_phased}
use nite_pr.Transport.Ps5dbg.{Package, Action, on_world, require, call}

-- `[ProcessInfo(pid=p.pid, name=p.name) for p in raw]`
unfoldable pub process_rows : List (ℕ × Text) → List ProcessInfo
process_rows [] = []
process_rows ((pid, name) ∷ raw) =
    record { pid = pid; name = name; titleid = [] } ∷ process_rows raw

module _ {C W K Tm : Type 0} (pk : Package C W K Tm) where
  unfoldable pub discover : Action C W K Tm (List Text)
  unfolding on_world lib
  discover = on_world (lib pk.lan_discover)

  unfoldable pub procs : Action C W K Tm (List ProcessInfo)
  unfolding require call lib process_rows
  procs = do c ← require; raw ← call pk (lib (pk.procs c)); pure (process_rows raw)

  unfoldable pub foreground_app : Action C W K Tm ForegroundInfo
  unfolding require call lib
  foreground_app = do c ← require; call pk (lib (pk.foreground_app c))

  unfoldable pub proc_info : ℕ → Action C W K Tm ProcessDetail
  unfolding require call lib
  proc_info pid = do c ← require; call pk (lib (pk.proc_info c pid))

  unfoldable pub maps : ℕ → Action C W K Tm (List MemoryMap)
  unfolding require call lib
  maps pid = do c ← require; call pk (lib (pk.maps c pid))

  unfoldable pub read : (pid address len : ℕ) → Action C W K Tm Bytes
  unfolding require call lib
  read pid address len = do
    raise_if (ltb read_max len) (own (read_too_large len read_max))
    raise_if (len == 0) (own (invalid_read_size (Dyn.int (pos len))))
    c ← require
    call pk (lib (pk.read c pid address len))

  unfoldable pub write : (pid address : ℕ) → Bytes → Action C W K Tm (Unit {0})
  unfolding require call proc_write_phased
  write pid address content = do
    raise_if (length content == 0) (own (invalid_write_size (Dyn.int (pos 0))))
    raise_if (ltb write_max (length content)) (own (write_too_large (length content) write_max))
    c ← require
    call pk (proc_write_phased (pk.connection c) pid address content)
