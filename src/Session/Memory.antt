-- ===== src/Session/Memory.antt =====
-- `maps`, `read` and `write` of web/nitepr5_core/session.py.
pub mod Bounds
pub mod Writing
use nite_pr.Base.{
  ℕ, zero, suc, Bool, true, false, not, ◌&&◌, Option, none, some, List, [], ◌∷◌, ltb, length,
  if◌then◌else◌,
}
use nite_pr.Base.Int.{ℤ, pos, negsuc}
use nite_pr.Base.Dict.{lookup, insert}
use nite_pr.Base.Exec.{Outcome, ok, err, Exec, pure, gets, lift, modify, ◌>>=◌, ◌>>◌}
use nite_pr.Constants.{read_max, write_max}
use nite_pr.Types.{Dyn, Bytes, MemoryMap}
use nite_pr.Errors.{Error, invalid_read_size, read_too_large, invalid_write_size, write_too_large}
use nite_pr.Transport.{Transport}
use nite_pr.Session.{Session, Method, via, resolve_pid, require_addr, require_connected}
use nite_pr.Session.Lock.{hold_io}

-- The tests on `n` with which `read` begins.
unfoldable pub read_length : Dyn → Outcome Error ℕ
read_length (Dyn.int (pos zero)) = err (invalid_read_size (Dyn.int (pos 0)))
read_length (Dyn.int (pos (suc m))) =
    if ltb read_max (suc m) then err (read_too_large (suc m) read_max) else ok (suc m)
read_length n = err (invalid_read_size n)

-- The tests on `data` with which `write` begins.
unfoldable pub write_payload : Dyn → Outcome Error Bytes
write_payload (Dyn.bytes []) = err (invalid_write_size (Dyn.int (pos 0)))
write_payload (Dyn.bytes (b ∷ bs)) =
    if ltb write_max (length (b ∷ bs))
    then err (write_too_large (length (b ∷ bs)) write_max)
    else ok (b ∷ bs)
write_payload content = err (invalid_write_size content)

-- The cache is asked unless `refresh` is set.
abbrev pub cached : Bool → Option (List MemoryMap) → Option (List MemoryMap)
cached refresh entry = if refresh then none else entry

module _ {T : Type 0} (tr : Transport T) (me : ℕ) where
  unfoldable pub fetch_maps : ℕ → Method T (List MemoryMap)
  fetch_maps pid = hold_io me false (do
    rows ← via (tr.maps pid)
    modify (λ s. record s { maps_cache = insert pid rows s.maps_cache })
    pure rows)

  unfoldable pub or_fetch : ℕ → Option (List MemoryMap) → Method T (List MemoryMap)
  unfolding fetch_maps
  or_fetch pid none = fetch_maps pid
  or_fetch pid (some rows) = pure rows

  unfoldable pub maps : Dyn → Bool → Method T (List MemoryMap)
  unfolding require_connected resolve_pid or_fetch
  maps arg refresh = do
    require_connected tr
    pid ← resolve_pid arg
    entry ← gets (λ s. cached refresh (lookup pid s.maps_cache))
    or_fetch pid entry

  unfoldable pub read : (pid addr n : Dyn) → Method T Bytes
  unfolding require_connected resolve_pid require_addr read_length
  read pid addr n = do
    len ← lift (read_length n)
    require_connected tr
    p ← resolve_pid pid
    a ← lift (require_addr addr)
    hold_io me false (via (tr.read p a len))

  unfoldable pub write : (pid addr content : Dyn) → Method T (Unit {0})
  unfolding require_connected resolve_pid require_addr write_payload
  write pid addr content = do
    payload ← lift (write_payload content)
    require_connected tr
    p ← resolve_pid pid
    a ← lift (require_addr addr)
    hold_io me false (via (tr.write p a payload))
