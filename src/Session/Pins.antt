-- ===== src/Session/Pins.antt =====
-- The watches and the freezes of web/nitepr5_core/session.py: `watch_add`, `watch_remove`,
-- `watch_poll`, `watches`, `freeze_add`, `freeze_remove`, `freeze_tick` and `freezes`.
pub mod Ticking
use nite_pr.Base.{
  ℕ, zero, suc, ◌+◌, Bool, true, false, not, ◌&&◌, ◌||◌, Option, none, some, List, [], ◌∷◌, ltb,
  leb, ◌==◌, length, is_some, if◌then◌else◌,
}
use nite_pr.Base.Int.{ℤ, pos, negsuc}
use nite_pr.Base.Text.{Text}
use nite_pr.Base.Dict.{Dict, lookup, insert, erase, values}
use nite_pr.Base.Exec.{
  Outcome, ok, err, Exec, pure, raise, raise_if, gets, lift, modify, ◌>>=◌, ◌>>◌,
}
use nite_pr.Constants.{watch_max, watch_sizes, freeze_max, freeze_size_min, freeze_size_max}
use nite_pr.Types.{Dyn, Bytes, WatchEntry, WatchValue, FreezeEntry}
use nite_pr.Errors.{
  Error, invalid_watch_size, invalid_freeze_size, watch_limit, freeze_limit, no_watch, no_freeze,
}
use nite_pr.Transport.{Transport}
use nite_pr.Session.{Session, Method, via, resolve_pid, require_addr, require_connected}
use nite_pr.Session.Lock.{hold_io}

-- `n in sizes`
abbrev pub mem_size : ℕ → List ℕ → Bool
mem_size n [] = false
mem_size n (k ∷ ks) = n == k || mem_size n ks

unfoldable pub watch_size : Dyn → Outcome Error ℕ
watch_size (Dyn.int (pos n)) =
    if mem_size n watch_sizes then ok n else err (invalid_watch_size (Dyn.int (pos n)))
watch_size n = err (invalid_watch_size n)

unfoldable pub freeze_payload : Dyn → Outcome Error Bytes
freeze_payload (Dyn.bytes bs) =
    if ltb (length bs) freeze_size_min || ltb freeze_size_max (length bs)
    then err (invalid_freeze_size (Dyn.int (pos (length bs))))
    else ok bs
freeze_payload content = err (invalid_freeze_size content)

module _ {T : Type 0} where
  abbrev pub pin_watch : WatchEntry → Session T → Session T
  pin_watch entry s = record s {
    watches = insert entry.id entry s.watches;
    next_watch_id = entry.id + 1;
  }

  abbrev pub pin_freeze : FreezeEntry → Session T → Session T
  pin_freeze entry s = record s {
    freezes = insert entry.id entry s.freezes;
    next_freeze_id = entry.id + 1;
  }

  -- `watch_add` once its arguments are checked: the cap, the fresh id and the new entry.
  unfoldable pub store_watch : (pid addr n : ℕ) → Text → Method T WatchEntry
  store_watch pid addr n label = do
    raise_if (← gets (λ s. leb watch_max (length s.watches))) (watch_limit watch_max)
    id ← gets (λ s. s.next_watch_id)
    let entry : WatchEntry = record { id = id; pid = pid; addr = addr; n = n; label = label }
    modify (pin_watch entry)
    pure entry

  -- `freeze_add` once its arguments are checked.
  unfoldable pub store_freeze : (pid addr : ℕ) → Bytes → Method T FreezeEntry
  store_freeze pid addr content = do
    raise_if (← gets (λ s. leb freeze_max (length s.freezes))) (freeze_limit freeze_max)
    id ← gets (λ s. s.next_freeze_id)
    let entry : FreezeEntry = record { id = id; pid = pid; addr = addr; content = content }
    modify (pin_freeze entry)
    pure entry

  unfoldable pub watches : Method T (List WatchEntry)
  watches = gets (λ s. values s.watches)

  unfoldable pub freezes : Method T (List FreezeEntry)
  freezes = gets (λ s. values s.freezes)

  -- A negative id is no key of the dictionary.
  unfoldable pub watch_remove : ℤ → Method T (Unit {0})
  watch_remove (pos id) s =
      if is_some (lookup id s.watches)
      then (ok tt, record s { watches = erase id s.watches })
      else (err (no_watch (Dyn.int (pos id))), s)
  watch_remove (negsuc id) s = (err (no_watch (Dyn.int (negsuc id))), s)

  unfoldable pub freeze_remove : ℤ → Method T (Unit {0})
  freeze_remove (pos id) s =
      if is_some (lookup id s.freezes)
      then (ok tt, record s { freezes = erase id s.freezes })
      else (err (no_freeze (Dyn.int (pos id))), s)
  freeze_remove (negsuc id) s = (err (no_freeze (Dyn.int (negsuc id))), s)

  module _ (tr : Transport T) (me : ℕ) where
    unfoldable pub watch_add : (pid addr n : Dyn) → Text → Method T WatchEntry
    unfolding require_connected resolve_pid require_addr watch_size store_watch
    watch_add pid addr n label = do
      size ← lift (watch_size n)
      a ← lift (require_addr addr)
      require_connected tr
      p ← resolve_pid pid
      store_watch p a size label

    unfoldable pub freeze_add : (pid addr content : Dyn) → Method T FreezeEntry
    unfolding require_connected resolve_pid require_addr freeze_payload store_freeze
    freeze_add pid addr content = do
      payload ← lift (freeze_payload content)
      a ← lift (require_addr addr)
      require_connected tr
      p ← resolve_pid pid
      store_freeze p a payload

    -- The loop of `watch_poll`.
    unfoldable pub poll_all : List WatchEntry → Method T (List WatchValue)
    poll_all [] = pure []
    poll_all (entry ∷ rest) = do
      content ← via (tr.read entry.pid entry.addr entry.n)
      samples ← poll_all rest
      pure (record { id = entry.id; addr = entry.addr; content = content } ∷ samples)

    unfoldable pub poll_some : List WatchEntry → Method T (List WatchValue)
    unfolding require_connected poll_all
    poll_some [] = pure []
    poll_some (entry ∷ rest) = do require_connected tr; hold_io me false (poll_all (entry ∷ rest))

    unfoldable pub watch_poll : Method T (List WatchValue)
    unfolding watches poll_some
    watch_poll = do entries ← watches; poll_some entries

    -- The loop of `freeze_tick`, which counts the writes.
    unfoldable pub write_all : List FreezeEntry → Method T ℕ
    write_all [] = pure 0
    write_all (entry ∷ rest) = do
      via (tr.write entry.pid entry.addr entry.content)
      written ← write_all rest
      pure (suc written)

    unfoldable pub write_some : List FreezeEntry → Method T ℕ
    unfolding require_connected write_all
    write_some [] = pure 0
    write_some (entry ∷ rest) = do require_connected tr; hold_io me false (write_all (entry ∷ rest))

    unfoldable pub freeze_tick : Method T ℕ
    unfolding freezes write_some
    freeze_tick = do
      armed ← gets (λ s. s.plugin_armed)
      if armed then pure 0 else (do entries ← freezes; write_some entries)
