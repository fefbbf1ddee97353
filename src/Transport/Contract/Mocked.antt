-- ===== src/Transport/Contract/Mocked.antt =====
-- `MockTransport`.
use nite_pr.Base.{ℕ, ◌≡◌, refl, Bool, true, false, some, List, [], ◌∷◌, if◌then◌else◌, sym, subst}
use nite_pr.Base.Text.{Text, strip, is_nonempty}
use nite_pr.Base.Exec.{Outcome, ok, err, blocked, raise, modify, raise_if, lift}
use nite_pr.Base.Exec.Raises.{
  OfError, Raises, Raises-pure, Raises-raise, Raises-modify, Raises-if, Raises-lift,
  Raises-raise_if, raises_rules,
}
use nite_pr.Types.{ProcessInfo}
use nite_pr.Errors.{Error, not_connected, is_not_connected, nite_pr5_error, connect_failed}
use nite_pr.Scan.Segments.{Segment}
use nite_pr.Transport.{StartArgs, CountArgs}
use nite_pr.Transport.Contract.{Lost, IsHonest}
use nite_pr.Transport.Mock.{
  Mock, closed, Action, require, maybe_drop, procs, foreground_app, find_proc, proc_info, maps,
  connect, disconnect, discover,
}
use nite_pr.Transport.Contract.Calm.{
  CalmAt, Calm, value_size-Calm, walk_segments-Calm, recount-Calm,
}
use nite_pr.Transport.Mock.Memory
use nite_pr.Transport.Mock.Scanning.{start_walk, scan_start_turbo, scan_count_resident}
use nite_pr.Transport.Mock.Scanning
use nite_pr.Transport.Mock.Console.{mock_transport}

abbrev Honest : {A : Type 0} → Action A → Type 0
Honest m = Raises (Lost mock_transport) m

Lost-other : (e : Error) (t : Mock) → is_not_connected e ≡ false → Lost mock_transport e t
Lost-other e t h = subst (λ b. if b then t.is_connected ≡ false else Unit) (sym h) tt

module _ {A : Type 0} where
  raise-Honest : (e : Error) → is_not_connected e ≡ false → Honest (raise {A = A} e)
  raise-Honest e h = Raises-raise e λ t. Lost-other e t h

  lift-Honest : (r : Outcome Error A) → Calm r → Honest (lift r)
  lift-Honest r h = Raises-lift r λ t. of_calm r h.at t
    where
      of_calm : (r : Outcome Error A) → CalmAt r → (t : Mock) → OfError (Lost mock_transport) r t
      of_calm (ok a) h t = tt
      of_calm (err e) h t = Lost-other e t h
      of_calm blocked h t = tt

raise_if-Honest : (b : Bool) (e : Error) → is_not_connected e ≡ false → Honest (raise_if b e)
raise_if-Honest b e h = Raises-raise_if b e λ t. Lost-other e t h

require-Honest : Honest require
unfolding require
require-Honest = record { at = λ t. by_flag t.is_connected t refl }
  where
    by_flag :
        (b : Bool) (t : Mock)
        → t.is_connected ≡ b
        → let r : Outcome Error (Unit {0}) × Mock =
            if b then (ok tt, t) else (err not_connected, t) in
          OfError (Lost mock_transport) r.0 r.1
    by_flag true t e = tt
    by_flag false t e = e

maybe_drop-Honest : Honest maybe_drop
unfolding maybe_drop
maybe_drop-Honest = record { at = λ t. by_flag t.drop_io t }
  where
    by_flag :
        (b : Bool) (t : Mock)
        → let r : Outcome Error (Unit {0}) × Mock =
            if b then (err not_connected, closed t) else (ok tt, t) in
          OfError (Lost mock_transport) r.0 r.1
    by_flag true t = refl
    by_flag false t = tt

ruleset mock_rules = (
  raises_rules, raise-Honest, raise_if-Honest, lift-Honest, require-Honest, maybe_drop-Honest,
  value_size-Calm, walk_segments-Calm, recount-Calm,
)

find_proc-Honest : (pid : ℕ) (ps : List ProcessInfo) → Honest (find_proc pid ps)
unfolding find_proc
find_proc-Honest pid [] = raise-Honest nite_pr5_error refl
find_proc-Honest pid (p ∷ ps) = Raises-if _ _ _ (Raises-pure _) (find_proc-Honest pid ps)

start_walk-Honest :
    (gs : List Segment) (args : StartArgs) (unknown : Bool) → Honest (start_walk gs args unknown)
unfolding start_walk
start_walk-Honest gs args unknown = search mock_rules depth 20

scan_start_turbo-Honest :
    (pid : ℕ) (gs : List Segment) (args : StartArgs) (unknown : Bool) (engines : ℕ)
    → Honest (scan_start_turbo pid gs args unknown engines)
unfolding scan_start_turbo
scan_start_turbo-Honest pid gs args unknown engines =
    search (mock_rules, start_walk-Honest) depth 20

scan_count_resident-Honest : (args : CountArgs) → Honest (scan_count_resident args)
unfolding scan_count_resident
scan_count_resident-Honest args = search mock_rules depth 20

connect-Honest : (host : Text) (port : ℕ) → Honest (connect host port)
unfolding connect
connect-Honest host port = search mock_rules

connect_up :
    (host : Text) (port : ℕ) (t : Mock)
    → (connect host port t).0 ≡ ok tt
    → (connect host port t).1.is_connected ≡ true
unfolding connect modify raise
connect_up host port t = by_flag (is_nonempty (strip host))
  where
    by_flag :
        (b : Bool)
        → let m : Action (Unit {0}) =
            if b
            then modify (λ t. record t { host = some (strip host); is_connected = true })
            else raise connect_failed in
          (m t).0 ≡ ok tt → (m t).1.is_connected ≡ true
    by_flag true e = refl
    by_flag false e = cc

pub mock_transport-IsHonest : IsHonest mock_transport
unfolding disconnect modify discover procs foreground_app proc_info maps Memory.read Memory.write
    Scanning.scan_caps Scanning.scan_authenticate Scanning.scan_regions Scanning.scan_get_resident
    Scanning.scan_end Scanning.scan_start_iterative Scanning.scan_next_iterative
mock_transport-IsHonest = record {
  connect = connect-Honest;
  connect_up = connect_up;
  disconnect = Raises-modify closed;
  disconnect_down = λ t. refl;
  scan_wait = λ t. (refl, refl);
  discover = search mock_rules;
  procs = search mock_rules;
  foreground_app = search mock_rules;
  proc_info = λ pid. search (mock_rules, find_proc-Honest);
  maps = λ pid. search mock_rules;
  read = λ pid address len. search mock_rules depth 12;
  write = λ pid address content. search mock_rules depth 12;
  scan_caps = search mock_rules;
  scan_authenticate = search mock_rules;
  scan_regions = λ pid probe. search mock_rules;
  scan_start_turbo = scan_start_turbo-Honest;
  scan_count_resident = scan_count_resident-Honest;
  scan_get_resident = λ start n size. search mock_rules;
  scan_end = search mock_rules;
  scan_start_iterative = λ pid gs args. search (mock_rules, scan_start_turbo-Honest) depth 12;
  scan_next_iterative =
      λ pid gs hits args. search (mock_rules, scan_count_resident-Honest) depth 12;
}
