-- ===== src/Session/Valid/Serving.antt =====
-- The calls of a session in sequence, and the invariant of the watches and the freezes.
use nite_pr.Base.{ℕ, List, [], ◌∷◌}
use nite_pr.Base.Exec.{Outcome, ok, err, blocked}
use nite_pr.Base.Exec.Keeps.{Ends, Keeps-pure, Keeps-bind}
use nite_pr.Errors.{Error}
use nite_pr.Transport.{Transport}
use nite_pr.Session.{Session}
use nite_pr.Session.Connect.{discover}
use nite_pr.Session.Valid.Rules.{valid_rules}
use nite_pr.Session.Valid.Methods.{
  disconnect-IsValid, connect-IsValid, processes-IsValid, foreground-IsValid, attach_target-IsValid,
  maps-IsValid, read-IsValid, write-IsValid, watch_add-IsValid, freeze_add-IsValid,
  watch_poll-IsValid, freeze_tick-IsValid,
}
use nite_pr.Session.Valid.{watch_remove-IsValid, freeze_remove-IsValid, IsValid, KeepsValid}
use nite_pr.Session.Calls.{Call, perform, serve}
use nite_pr.Session.Valid.Cheating.{
  cheat_load-IsValid, cheat_from_freezes-IsValid, cheat_toggle-IsValid,
}
use nite_pr.Session.Valid.Hunting.{scan_start-IsValid}
use nite_pr.Session.Valid.Narrowing.{scan_next-IsValid, scan_undo-IsValid, scan_results-IsValid}

module _ {T : Type 0} (tr : Transport T) where
  perform-IsValid : (me : ℕ) (call : Call) → KeepsValid (perform tr me call)
  unfolding perform discover
  perform-IsValid me Call.discover = search valid_rules
  perform-IsValid me Call.disconnect = disconnect-IsValid tr me
  perform-IsValid me Call.processes = Keeps-bind _ _ (processes-IsValid tr me) (λ r. Keeps-pure _)
  perform-IsValid me Call.foreground = Keeps-bind _ _ (foreground-IsValid tr me) (λ r. Keeps-pure _)
  perform-IsValid me Call.watch_poll = Keeps-bind _ _ (watch_poll-IsValid tr me) (λ r. Keeps-pure _)
  perform-IsValid me Call.freeze_tick =
      Keeps-bind _ _ (freeze_tick-IsValid tr me) (λ r. Keeps-pure _)
  perform-IsValid me Call.scan_undo = Keeps-bind _ _ (scan_undo-IsValid tr me) (λ r. Keeps-pure _)
  perform-IsValid me (Call.connect h) = connect-IsValid tr me h
  perform-IsValid me (Call.attach_target p) = attach_target-IsValid tr me p
  perform-IsValid me (Call.maps p r) = Keeps-bind _ _ (maps-IsValid tr me p r) (λ r. Keeps-pure _)
  perform-IsValid me (Call.read p a n) =
      Keeps-bind _ _ (read-IsValid tr me p a n) (λ r. Keeps-pure _)
  perform-IsValid me (Call.write p a c) = write-IsValid tr me p a c
  perform-IsValid me (Call.watch_add p a n l) =
      Keeps-bind _ _ (watch_add-IsValid tr me p a n l) (λ r. Keeps-pure _)
  perform-IsValid me (Call.freeze_add p a c) =
      Keeps-bind _ _ (freeze_add-IsValid tr me p a c) (λ r. Keeps-pure _)
  perform-IsValid me (Call.watch_remove id) = watch_remove-IsValid id
  perform-IsValid me (Call.freeze_remove id) = freeze_remove-IsValid id
  perform-IsValid me (Call.scan_start p r) =
      Keeps-bind _ _ (scan_start-IsValid tr me p r) (λ r. Keeps-pure _)
  perform-IsValid me (Call.scan_next c v) =
      Keeps-bind _ _ (scan_next-IsValid tr me c v) (λ r. Keeps-pure _)
  perform-IsValid me (Call.scan_results l) =
      Keeps-bind _ _ (scan_results-IsValid tr me l) (λ r. Keeps-pure _)
  perform-IsValid me (Call.cheat_load content) =
      Keeps-bind _ _ (cheat_load-IsValid content) (λ r. Keeps-pure _)
  perform-IsValid me (Call.cheat_from_freezes name title_id version process) =
      Keeps-bind _ _ (cheat_from_freezes-IsValid tr me name title_id version process)
        (λ r. Keeps-pure _)
  perform-IsValid me (Call.cheat_toggle name enabled) = cheat_toggle-IsValid tr me name enabled

  Ends-IsValid :
      {A : Type 0} (r : Outcome Error A) (s : Session T) → Ends IsValid IsValid r s → IsValid s
  Ends-IsValid (ok a) s h = h
  Ends-IsValid (err e) s h = h
  Ends-IsValid blocked s h = h

  -- After any calls by any threads, also calls that raise or that wait for ever, the session has at
  -- most 64 watches and at most 32 freezes, under different ids that are below the next id to be
  -- given; each watch reads 1, 2, 4 or 8 bytes, each freeze writes 1 to 8 bytes, and their addresses
  -- fit a u64. The condition is that this held before the calls.
  pub serve-IsValid :
      (calls : List (ℕ × Call)) (s : Session T) → IsValid s → IsValid (serve tr calls s)
  unfolding serve
  serve-IsValid [] s h = h
  serve-IsValid ((me, call) ∷ calls) s h = serve-IsValid calls (perform tr me call s).1 (
      Ends-IsValid (perform tr me call s).0 (perform tr me call s).1
        ((perform-IsValid me call).at s h))
