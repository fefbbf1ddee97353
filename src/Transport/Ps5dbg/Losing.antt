-- ===== src/Transport/Ps5dbg/Losing.antt =====
-- Where `Ps5dbgTransport` raises `NotConnected`.
use nite_pr.Base.{
  ◌≡◌, refl, ◌∙◌, Bool, true, false, ◌||◌, Option, none, some, List, [], ◌∷◌, if◌then◌else◌,
  is_some, ap,
}
use nite_pr.Base.Exec.{Outcome, ok, err, blocked, Exec, pure, raise, catch, handle, continue, ◌>>=◌}
use nite_pr.Base.Exec.Raises.{
  OfError, Raises, Raises-pure, Raises-modify, Raises-if, Raises-ensure, Raises-catch-from,
  Raises-bind,
}
use nite_pr.Errors.{not_connected, nite_pr5_error}
use nite_pr.Wire.{Failure, raised, own, lib}
use nite_pr.Wire.Losing.{
  is_lost, Losing, lib-Losing, losing_rules, raise-Losing, raise_if-Losing,
  proc_write_phased-Losing, turbo_start_resident_segments-Losing,
  turbo_start_snapshot_segments-Losing,
}
use nite_pr.Transport.Ps5dbg.{
  Package, Link, Action, client_or_raise, unlinked, on_world, but_os_error, require, close_client,
  disconnect, lost, after_call, call, waiting, sock_of, save_timeout, restore_timeout,
  scan_wait_enter, scan_wait_exit, is_os_error,
}

abbrev pub IsDown : {C W K Tm : Type 0} → Link C W K Tm → Type 0
IsDown l = is_some l.ps5 ≡ false

abbrev pub Honest : {C W K Tm A : Type 0} → Action C W K Tm A → Type 0
Honest m = Raises (Losing IsDown) m

module _ {C W K Tm : Type 0} where
  pub on_world-Honest :
      {A : Type 0} (m : Exec Failure W A)
      → Raises (Losing (λ w. ⊥)) m
      → Raises (Losing IsDown) (on_world {C = C} {K = K} {Tm = Tm} m)
  unfolding on_world
  on_world-Honest {A} m p = record { at = λ l. weaker (m l.world).0 _ _ (p.at l.world) }
    where
      not_lost :
          (b : Bool) (l : Link C W K Tm) → (if b then ⊥ else Unit) → (if b then IsDown l else Unit)
      not_lost true l h = absurd h
      not_lost false l h = tt

      weaker :
          (r : Outcome Failure A) (w : W) (l : Link C W K Tm)
          → OfError (Losing (λ w. ⊥)) r w
          → OfError (Losing IsDown) r l
      weaker (ok a) w l h = tt
      weaker (err e) w l h = not_lost (is_lost e) l h
      weaker blocked w l h = tt

  pub require-Honest : Honest (require {C = C} {W = W} {K = K} {Tm = Tm})
  unfolding require
  require-Honest = record { at = λ l. by_client l.ps5 l refl }
    where
      by_client :
          (o : Option C) (l : Link C W K Tm)
          → l.ps5 ≡ o
          → OfError (Losing IsDown) (client_or_raise o l).0 (client_or_raise o l).1
      by_client none l e = ap is_some e
      by_client (some c) l e = tt

  -- A handler that lets some failures go on.
  pub rethrow-Honest :
      {A : Type 0} (b : Bool) (e : Failure) (l : Link C W K Tm) (m : Action C W K Tm A)
      → Honest m
      → Losing IsDown e l
      → OfError (Losing IsDown) ((if b then m else raise e) l).0 ((if b then m else raise e) l).1
  unfolding raise
  rethrow-Honest true e l m p h = p.at l
  rethrow-Honest false e l m p h = h

  pub but_os_error-Honest : (m : Action C W K Tm (Unit {0})) → Honest m → Honest (but_os_error m)
  unfolding but_os_error
  but_os_error-Honest m p =
      Raises-catch-from m _ p
        λ e l h. rethrow-Honest (is_os_error e) e l (pure tt) (Raises-pure tt) h

pub ruleset world_rules = (losing_rules, on_world-Honest, require-Honest, but_os_error-Honest)

module _ {C W K Tm : Type 0} (pk : Package C W K Tm) where
  close_client-Honest : (o : Option C) → Honest (close_client {K = K} {Tm = Tm} pk o)
  unfolding close_client
  close_client-Honest none = Raises-pure tt
  close_client-Honest (some c) = but_os_error-Honest _ (on_world-Honest _ (lib-Losing (pk.close c)))

  pub disconnect-Honest : Honest (disconnect pk)
  unfolding disconnect
  disconnect-Honest = search (world_rules, close_client-Honest)

  close_client-ps5 : (o : Option C) (l : Link C W K Tm) → (close_client pk o l).1.ps5 ≡ l.ps5
  unfolding close_client pure raise catch
  close_client-ps5 none l = refl
  close_client-ps5 (some c) l =
      handled (lib (pk.close c) l.world).0 (record l { world = (lib (pk.close c) l.world).1 }) refl
    where
      passed :
          (b : Bool) (e : Failure) (t : Link C W K Tm)
          → t.ps5 ≡ l.ps5
          → ((if b then pure tt else raise e) t).1.ps5 ≡ l.ps5
      passed true e t h = h
      passed false e t h = h

      handled :
          (r : Outcome Failure (Unit {0})) (t : Link C W K Tm)
          → t.ps5 ≡ l.ps5
          → (handle (λ e. if is_os_error e then pure tt else raise e) r t).1.ps5 ≡ l.ps5
      handled (ok a) t h = h
      handled (err e) t h = passed (is_os_error e) e t h
      handled blocked t h = h

  -- `disconnect` leaves no client, also where it raises.
  pub disconnect-IsDown : (l : Link C W K Tm) → IsDown (disconnect pk l).1
  unfolding disconnect ◌>>=◌
  disconnect-IsDown l = ap is_some (close_client-ps5 l.ps5 (unlinked l))

  pub lost-Honest : {A : Type 0} → Honest (lost pk {A = A})
  unfolding lost ◌>>=◌ raise
  lost-Honest {A} = record {
    at = λ l.
        after_disconnect (disconnect pk l).0 (disconnect pk l).1 (disconnect-Honest.at l)
          (disconnect-IsDown l);
  }
    where
      after_disconnect :
          (r : Outcome Failure (Unit {0})) (t : Link C W K Tm)
          → OfError (Losing IsDown) r t
          → IsDown t
          → OfError
              (Losing IsDown)
              (continue (λ _. raise {A = A} (own not_connected)) r t).0
              (continue (λ _. raise {A = A} (own not_connected)) r t).1
      after_disconnect (ok a) t h d = d
      after_disconnect (err e) t h d = h
      after_disconnect blocked t h d = tt

  pub call-Honest :
      {A : Type 0} (m : Exec Failure W A) → Raises (Losing (λ w. ⊥)) m → Honest (call pk m)
  unfolding call after_call raise
  call-Honest {A} m p = Raises-catch-from _ _ (on_world-Honest m p) λ e l h. handled e l h
    where
      handled :
          (e : Failure) (l : Link C W K Tm)
          → Losing IsDown e l
          → OfError (Losing IsDown) (after_call pk {A = A} e l).0 (after_call pk {A = A} e l).1
      handled (own e) l h = h
      handled (raised k) l h =
          (Raises-if (k.is_connection_lost || k.is_os_error) (lost pk) _ lost-Honest (
              Raises-if k.is_ps5dbg_error _ _ (raise-Losing (own nite_pr5_error) refl)
                (raise-Losing (raised k) refl))).at
            l

  restore-ps5 :
      (ws : List (Option (K × Tm))) (l : Link C W K Tm) → (restore_timeout pk ws l).ps5 ≡ l.ps5
  restore-ps5 [] l = refl
  restore-ps5 (none ∷ ws) l = refl
  restore-ps5 (some (k, previous) ∷ ws) l = refl

  save-ps5 : (o : Option K) (l : Link C W K Tm) → (save_timeout pk o l).ps5 ≡ l.ps5
  save-ps5 none l = refl
  save-ps5 (some k) l = refl

  -- `scan_wait` leaves the client as it is.
  pub scan_wait-ps5 :
      (l : Link C W K Tm)
      → ((scan_wait_enter pk l).ps5 ≡ l.ps5) × ((scan_wait_exit pk l).ps5 ≡ l.ps5)
  unfolding scan_wait_enter scan_wait_exit
  scan_wait-ps5 l = (save-ps5 (sock_of pk l.ps5 l.world) l, restore-ps5 l.waits l)

  pub waiting-Honest : {A : Type 0} (m : Action C W K Tm A) → Honest m → Honest (waiting pk m)
  unfolding waiting
  waiting-Honest m p =
      Raises-ensure _ _ (Raises-bind _ _ (Raises-modify _) λ _. p) λ e l. kept (is_lost e) l
    where
      kept :
          (b : Bool) (l : Link C W K Tm)
          → (if b then IsDown l else Unit)
          → (if b then IsDown (scan_wait_exit pk l) else Unit)
      kept true l h = ap is_some (scan_wait-ps5 l).1 ∙ h
      kept false l h = tt
