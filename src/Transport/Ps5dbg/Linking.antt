-- ===== src/Transport/Ps5dbg/Linking.antt =====
-- `connect` of `Ps5dbgTransport` and the operations that are not a scan's: where they raise
-- `NotConnected`.
use nite_pr.Base.{ℕ, false, Option, none, some}
use nite_pr.Base.Text.{Text}
use nite_pr.Base.Exec.{pure, raise, ◌>>◌}
use nite_pr.Base.Exec.Raises.{Raises-pure, Raises-catch-from, Raises-bind}
use nite_pr.Types.{Bytes}
use nite_pr.Errors.{connect_failed}
use nite_pr.Wire.{own, lib}
use nite_pr.Wire.Losing.{proc_write_phased-Losing}
use nite_pr.Transport.Ps5dbg.{
  Package, SocketOption, on_world, set_option, tune_keepalive, configure_sock, configure_cmd_socket,
  make_client, open_client, connect, is_os_error, is_link_error,
}
use nite_pr.Transport.Ps5dbg.Losing.{
  Honest, rethrow-Honest, disconnect-Honest, call-Honest, world_rules,
}
use nite_pr.Transport.Ps5dbg.Memory.{discover, procs, foreground_app, proc_info, maps, read, write}

module _ {C W K Tm : Type 0} (pk : Package C W K Tm) where
  set_option-Honest : (k : K) (o : SocketOption) (v : ℕ) → Honest (set_option {C = C} pk k o v)
  unfolding set_option
  set_option-Honest k o v = search world_rules

  tune_keepalive-Honest : (k : K) → Honest (tune_keepalive {C = C} pk k)
  unfolding tune_keepalive
  tune_keepalive-Honest k = search (world_rules, set_option-Honest)

  configure_sock-Honest : (o : Option K) → Honest (configure_sock {C = C} pk o)
  unfolding configure_sock
  configure_sock-Honest none = Raises-pure tt
  configure_sock-Honest (some k) =
      Raises-bind _ _
        (Raises-catch-from _ _ (search world_rules)
          λ e l h. rethrow-Honest (is_os_error e) e l (pure false) (Raises-pure false) h)
        λ on. search (world_rules, tune_keepalive-Honest)

  open_client-Honest : (c : C) → Honest (open_client {K = K} {Tm = Tm} pk c)
  unfolding open_client
  open_client-Honest c = Raises-catch-from _ _ (search world_rules) λ e l h.
      rethrow-Honest (is_link_error e) e l
        (do on_world (lib (pk.close c)); raise (own connect_failed)) (search world_rules) h

  make_client-Honest : (host : Text) (port : ℕ) → Honest (make_client pk host port)
  unfolding make_client
  make_client-Honest host port = record { at = λ l. tt }

  pub connect-Honest : (name : Text) (port : ℕ) → Honest (connect pk name port)
  unfolding connect configure_cmd_socket
  connect-Honest name port =
      search
        (
          world_rules, disconnect-Honest, make_client-Honest, open_client-Honest,
          configure_sock-Honest,
        )
        depth 20

  pub discover-Honest : Honest (discover pk)
  unfolding discover
  discover-Honest = search world_rules

  pub procs-Honest : Honest (procs pk)
  unfolding procs
  procs-Honest = search (world_rules, call-Honest)

  pub foreground_app-Honest : Honest (foreground_app pk)
  unfolding foreground_app
  foreground_app-Honest = search (world_rules, call-Honest)

  pub proc_info-Honest : (pid : ℕ) → Honest (proc_info pk pid)
  unfolding proc_info
  proc_info-Honest pid = search (world_rules, call-Honest)

  pub maps-Honest : (pid : ℕ) → Honest (maps pk pid)
  unfolding maps
  maps-Honest pid = search (world_rules, call-Honest)

  pub read-Honest : (pid address len : ℕ) → Honest (read pk pid address len)
  unfolding read
  read-Honest pid address len = search (world_rules, call-Honest)

  pub write-Honest : (pid address : ℕ) (content : Bytes) → Honest (write pk pid address content)
  unfolding write
  write-Honest pid address content = search (world_rules, call-Honest, proc_write_phased-Losing)
