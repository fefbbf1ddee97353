-- ===== src/Transport/Contract/Real.antt =====
-- `Ps5dbgTransport`, whatever the package does.
use nite_pr.Base.{ℕ, ◌≡◌, ap, is_some}
use nite_pr.Base.Exec.{Outcome, ok, err, blocked}
use nite_pr.Base.Exec.Arrives.{OnReturn}
use nite_pr.Transport.Ps5dbg as Basics
use nite_pr.Transport.Ps5dbg.Connecting.{IsUp, connect-IsUp}
use nite_pr.Base.Exec.Raises.{OfError, Raises}
use nite_pr.Errors.{Error}
use nite_pr.Wire.{Failure, raised, own}
use nite_pr.Wire.Losing.{Losing}
use nite_pr.Transport.Contract.{Lost, IsHonest}
use nite_pr.Transport.Ps5dbg.{Package, Link, Action, to_error, exported}
use nite_pr.Transport.Ps5dbg.Losing.{
  IsDown, Honest, disconnect-Honest, disconnect-IsDown, scan_wait-ps5,
}
use nite_pr.Transport.Ps5dbg.Linking
use nite_pr.Transport.Ps5dbg.Honesty
use nite_pr.Transport.Ps5dbg.Launching
use nite_pr.Transport.Ps5dbg.Console.{ps5dbg_transport}

err_is_not_ok : (x : Error) → ◌≡◌ {A = Outcome Error (Unit {0})} (err x) (ok tt) → ⊥
err_is_not_ok x e = cc

blocked_is_not_ok : ◌≡◌ {A = Outcome Error (Unit {0})} blocked (ok tt) → ⊥
blocked_is_not_ok e = cc

module _ {C W K Tm : Type 0} (pk : Package C W K Tm) (fuel : ℕ) where
  exported-Lost :
      {A : Type 0} (m : Action C W K Tm A)
      → Honest m
      → Raises (Lost (ps5dbg_transport pk fuel)) (exported m)
  unfolding exported
  exported-Lost {A} m p = record { at = λ l. seen (m l).0 (m l).1 (p.at l) }
    where
      seen :
          (r : Outcome Failure A) (l : Link C W K Tm)
          → OfError (Losing IsDown) r l
          → OfError (Lost (ps5dbg_transport pk fuel)) (to_error r) l
      seen (ok a) l h = tt
      seen (err (own e)) l h = h
      seen (err (raised k)) l h = tt
      seen blocked l h = tt

  came-IsUp :
      (r : Outcome Failure (Unit {0})) (l : Link C W K Tm)
      → OnReturn IsUp r l
      → to_error r ≡ ok tt
      → IsUp l
  came-IsUp (ok a) l h e = h
  came-IsUp (err (own x)) l h e = absurd (err_is_not_ok x e)
  came-IsUp (err (raised k)) l h e = absurd (err_is_not_ok _ e)
  came-IsUp blocked l h e = absurd (blocked_is_not_ok e)

  pub ps5dbg_transport-IsHonest : IsHonest (ps5dbg_transport pk fuel)
  unfolding exported
  ps5dbg_transport-IsHonest = record {
    connect = λ host port. exported-Lost _ (Linking.connect-Honest pk host port);
    connect_up = λ host port l.
        came-IsUp (Basics.connect pk host port l).0 _ ((connect-IsUp pk host port).at l);
    disconnect = exported-Lost _ (disconnect-Honest pk);
    disconnect_down = disconnect-IsDown pk;
    scan_wait = λ l. (ap is_some (scan_wait-ps5 pk l).0, ap is_some (scan_wait-ps5 pk l).1);
    discover = exported-Lost _ (Linking.discover-Honest pk);
    procs = exported-Lost _ (Linking.procs-Honest pk);
    foreground_app = exported-Lost _ (Linking.foreground_app-Honest pk);
    proc_info = λ pid. exported-Lost _ (Linking.proc_info-Honest pk pid);
    maps = λ pid. exported-Lost _ (Linking.maps-Honest pk pid);
    read = λ pid address len. exported-Lost _ (Linking.read-Honest pk pid address len);
    write = λ pid address content. exported-Lost _ (Linking.write-Honest pk pid address content);
    scan_caps = exported-Lost _ (Honesty.scan_caps-Honest pk);
    scan_authenticate = exported-Lost _ (Honesty.scan_authenticate-Honest pk);
    scan_regions = λ pid probe. exported-Lost _ (Honesty.scan_regions-Honest pk pid probe);
    scan_start_turbo = λ pid gs args unknown engines.
        exported-Lost _ (Launching.scan_start_turbo-Honest pk fuel pid gs args unknown engines);
    scan_count_resident = λ args. exported-Lost _ (Honesty.scan_count_resident-Honest pk args);
    scan_get_resident =
        λ start n size. exported-Lost _ (Honesty.scan_get_resident-Honest pk start n size);
    scan_end = exported-Lost _ (Honesty.scan_end-Honest pk);
    scan_start_iterative =
        λ pid gs args. exported-Lost _ (Honesty.scan_start_iterative-Honest pk pid gs args);
    scan_next_iterative = λ pid gs hits args.
        exported-Lost _ (Honesty.scan_next_iterative-Honest pk pid gs hits args);
  }
