-- ===== src/Session/Truthful/Methods.antt =====
-- The methods that reach the console without a hunt, over a transport that keeps the contract.
use nite_pr.Base.{ℕ, zero, suc, refl, Bool, true, Option, none, some, List, [], ◌∷◌}
use nite_pr.Base.Int.{pos}
use nite_pr.Base.Text.{Text}
use nite_pr.Base.Exec.Raises.{Raises-pure, Raises-bind}
use nite_pr.Types.{Dyn, MemoryMap, ProcessInfo, ForegroundInfo}
use nite_pr.Transport.{Transport}
use nite_pr.Transport.Contract.{IsHonest}
use nite_pr.Transport.Contract.Calm.{Calm, Calm-ok, Calm-err, Calm-if}
use nite_pr.Session.{via, require_addr}
use nite_pr.Session.Connect.{
  end_scan, disconnect, connect, foreground, title_of, title_all, processes, attach_target,
}
use nite_pr.Session.Memory.{read_length, write_payload, fetch_maps, or_fetch, maps, read, write}
use nite_pr.Session.Truthful.{Truthful, via-Truthful, truthful_rules}

require_addr-Calm : (addr : Dyn) → Calm (require_addr addr)
unfolding require_addr
require_addr-Calm (Dyn.int (pos n)) = Calm-if _ _ _ (Calm-err _ refl) (Calm-ok n)
require_addr-Calm _ = Calm-err _ refl

read_length-Calm : (n : Dyn) → Calm (read_length n)
unfolding read_length
read_length-Calm (Dyn.int (pos zero)) = Calm-err _ refl
read_length-Calm (Dyn.int (pos (suc m))) = Calm-if _ _ _ (Calm-err _ refl) (Calm-ok (suc m))
read_length-Calm _ = Calm-err _ refl

write_payload-Calm : (content : Dyn) → Calm (write_payload content)
unfolding write_payload
write_payload-Calm (Dyn.bytes []) = Calm-err _ refl
write_payload-Calm (Dyn.bytes (b ∷ bs)) = Calm-if _ _ _ (Calm-err _ refl) (Calm-ok (b ∷ bs))
write_payload-Calm _ = Calm-err _ refl

module _ {T : Type 0} (tr : Transport T) (honest : IsHonest tr) (me : ℕ) where
  via_procs-Truthful : Truthful tr (via tr.procs)
  via_procs-Truthful = via-Truthful tr tr.procs honest.procs

  via_foreground_app-Truthful : Truthful tr (via tr.foreground_app)
  via_foreground_app-Truthful = via-Truthful tr tr.foreground_app honest.foreground_app

  via_scan_end-Truthful : Truthful tr (via tr.scan_end)
  via_scan_end-Truthful = via-Truthful tr tr.scan_end honest.scan_end

  via_disconnect-Truthful : Truthful tr (via tr.disconnect)
  via_disconnect-Truthful = via-Truthful tr tr.disconnect honest.disconnect

  pub read-Truthful : (pid addr n : Dyn) → Truthful tr (read tr me pid addr n)
  unfolding read
  read-Truthful pid addr n =
      search (truthful_rules, read_length-Calm, require_addr-Calm, honest.read) depth 12

  pub write-Truthful : (pid addr content : Dyn) → Truthful tr (write tr me pid addr content)
  unfolding write
  write-Truthful pid addr content =
      search (truthful_rules, write_payload-Calm, require_addr-Calm, honest.write) depth 12

  fetch_maps-Truthful : (pid : ℕ) → Truthful tr (fetch_maps tr me pid)
  unfolding fetch_maps
  fetch_maps-Truthful pid = search (truthful_rules, honest.maps)

  or_fetch-Truthful :
      (pid : ℕ) (entry : Option (List MemoryMap)) → Truthful tr (or_fetch tr me pid entry)
  unfolding or_fetch
  or_fetch-Truthful pid none = fetch_maps-Truthful pid
  or_fetch-Truthful pid (some rows) = Raises-pure rows

  pub maps-Truthful : (pid : Dyn) (refresh : Bool) → Truthful tr (maps tr me pid refresh)
  unfolding maps
  maps-Truthful pid refresh = search (truthful_rules, or_fetch-Truthful) depth 12

  pub foreground-Truthful : Truthful tr (foreground tr me)
  unfolding foreground
  foreground-Truthful = search (truthful_rules, via_foreground_app-Truthful)

  title_of-Truthful :
      (fg : Option ForegroundInfo) (p : ProcessInfo) → Truthful tr (title_of tr me fg p)
  unfolding title_of
  title_of-Truthful fg p = search (truthful_rules, honest.proc_info)

  title_all-Truthful :
      (fg : Option ForegroundInfo) (ps : List ProcessInfo) → Truthful tr (title_all tr me fg ps)
  unfolding title_all
  title_all-Truthful fg [] = Raises-pure []
  title_all-Truthful fg (p ∷ ps) =
      Raises-bind _ _ (title_of-Truthful fg p)
        λ t. Raises-bind _ _ (title_all-Truthful fg ps) λ r. Raises-pure _

  pub processes-Truthful : Truthful tr (processes tr me)
  unfolding processes
  processes-Truthful =
      search (truthful_rules, title_all-Truthful, via_procs-Truthful, via_foreground_app-Truthful)
        depth 12

  pub attach_target-Truthful : (pid : Dyn) → Truthful tr (attach_target tr me pid)
  unfolding attach_target
  attach_target-Truthful pid = search truthful_rules

  end_scan-Truthful : Truthful tr (end_scan tr me true)
  unfolding end_scan
  end_scan-Truthful = search (truthful_rules, via_scan_end-Truthful)

  pub disconnect-Truthful : Truthful tr (disconnect tr me)
  unfolding disconnect
  disconnect-Truthful = search (truthful_rules, end_scan-Truthful, via_disconnect-Truthful) depth 12

  pub connect-Truthful : (name : Text) → Truthful tr (connect tr me name)
  unfolding connect
  connect-Truthful name = search (truthful_rules, disconnect-Truthful, honest.connect) depth 12

  -- Over a transport that keeps the contract, `read`, `write`, `maps`, `foreground`, `processes`,
  -- `attach_target`, `connect` and `disconnect` tell the truth by `NotConnected`: where one of them
  -- raises it, `connected` of the session is false afterwards.
  pub not_connected-is_down :
      ((pid addr n : Dyn) → Truthful tr (read tr me pid addr n))
      × ((pid addr content : Dyn) → Truthful tr (write tr me pid addr content))
      × ((pid : Dyn) (refresh : Bool) → Truthful tr (maps tr me pid refresh))
      × Truthful tr (foreground tr me)
      × Truthful tr (processes tr me)
      × ((pid : Dyn) → Truthful tr (attach_target tr me pid))
      × ((name : Text) → Truthful tr (connect tr me name))
      × Truthful tr (disconnect tr me)
  not_connected-is_down = (
    read-Truthful, write-Truthful, maps-Truthful, foreground-Truthful, processes-Truthful,
    attach_target-Truthful, connect-Truthful, disconnect-Truthful,
  )
