-- ===== src/Transport/Ps5dbg/Connecting.antt =====
-- `connect` of `Ps5dbgTransport`, where it returns.
use nite_pr.Base.{ℕ, ◌≡◌, refl, true, Option, none, some, is_some}
use nite_pr.Base.Text.{Text}
use nite_pr.Base.Exec.{Outcome, ok, err, blocked, Exec}
use nite_pr.Base.Exec.Keeps.{
  Ends, Keeps, Keeps-pure, Keeps-raise, Keeps-if, Keeps-bind, Keeps-catch, keeps_rules,
}
use nite_pr.Base.Exec.Arrives.{Arrives, Arrives-bind, Arrives-modify}
use nite_pr.Wire.{Failure}
use nite_pr.Transport.Ps5dbg.{
  Package, Link, Action, SocketOption, on_world, but_os_error, set_option, tune_keepalive,
  configure_sock, configure_cmd_socket, connect,
}

abbrev pub IsUp : {C W K Tm : Type 0} → Link C W K Tm → Type 0
IsUp l = is_some l.ps5 ≡ true

abbrev KeepsUp : {C W K Tm A : Type 0} → Action C W K Tm A → Type 0
KeepsUp m = Keeps IsUp (λ l. Unit {0}) m

module _ {C W K Tm : Type 0} where
  on_world-IsUp :
      {A : Type 0} (m : Exec Failure W A) → KeepsUp (on_world {C = C} {K = K} {Tm = Tm} m)
  unfolding on_world
  on_world-IsUp {A} m = record { at = λ l h. kept (m l.world).0 _ h }
    where
      kept : (r : Outcome Failure A) (l : Link C W K Tm) → IsUp l → Ends IsUp (λ l. Unit {0}) r l
      kept (ok a) l h = h
      kept (err e) l h = h
      kept blocked l h = tt

  but_os_error-IsUp : (m : Action C W K Tm (Unit {0})) → KeepsUp m → KeepsUp (but_os_error m)
  unfolding but_os_error
  but_os_error-IsUp m p = Keeps-catch m _ p λ e. Keeps-if _ _ _ (Keeps-pure tt) (Keeps-raise e)

ruleset up_rules = (keeps_rules, on_world-IsUp, but_os_error-IsUp)

module _ {C W K Tm : Type 0} (pk : Package C W K Tm) where
  set_option-IsUp : (k : K) (o : SocketOption) (v : ℕ) → KeepsUp (set_option {C = C} pk k o v)
  unfolding set_option
  set_option-IsUp k o v = search up_rules

  tune_keepalive-IsUp : (k : K) → KeepsUp (tune_keepalive {C = C} pk k)
  unfolding tune_keepalive
  tune_keepalive-IsUp k = search (up_rules, set_option-IsUp)

  configure_sock-IsUp : (o : Option K) → KeepsUp (configure_sock {C = C} pk o)
  unfolding configure_sock
  configure_sock-IsUp none = Keeps-pure tt
  configure_sock-IsUp (some k) =
      Keeps-bind _ _ (search up_rules) λ on. search (up_rules, tune_keepalive-IsUp)

  configure_cmd_socket-IsUp : KeepsUp (configure_cmd_socket pk)
  unfolding configure_cmd_socket
  configure_cmd_socket-IsUp = search (up_rules, configure_sock-IsUp)

  pub connect-IsUp : (name : Text) (port : ℕ) → Arrives IsUp (connect pk name port)
  unfolding connect
  connect-IsUp name port = Arrives-bind _ _ λ _. Arrives-bind _ _ λ _.
      Arrives-bind _ _
        λ c. Arrives-bind _ _ λ _. Arrives-modify _ _ (λ l. refl) configure_cmd_socket-IsUp
