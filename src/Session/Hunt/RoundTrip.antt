-- ===== src/Session/Hunt/RoundTrip.antt =====
-- `scan_undo` after `scan_next`.
use nite_pr.Base.{ℕ, ◌≤◌, ◌≡◌, ◌≢◌, ap, refl, true, Option, none, some, List, ◌∷◌, arith, ◌∙◌}
use nite_pr.Base.Text.{Text}
use nite_pr.Base.Exec.{ok, blocked, ensure, ◌>>=◌}
use nite_pr.Constants.{results_max}
use nite_pr.Types.{Dyn, ScanHit}
use nite_pr.Transport.{Transport}
use nite_pr.Session.{Session, ScanState, Engine, turbo, iterative, local, Method, via}
use nite_pr.Session.Lock.{end_busy}
use nite_pr.Session.Hunt.Common.{hunting}
use nite_pr.Session.Hunt.Undo.{scan_undo}
use nite_pr.Session.Hunt.Plan.{plan_next}
use nite_pr.Session.Hunt.Next.{next_scan, scan_next}
use nite_pr.Session.Hunt.Restoring.{
  undone, IsIdle, entered, hunting_idle, past_plan, scan_undo_restores,
}

-- The iterative engine's rows after a narrowing: those of the scan that it leaves. The console's
-- engine keeps what was there.
abbrev all_of : Engine → ScanState → Option ScanState → Option (List ScanHit)
all_of iterative scan (some after) = after.iterative_all
all_of _ scan _ = scan.iterative_all

module _ {T : Type 0} (tr : Transport T) (me : ℕ) where
  -- What a narrowing of a generation with its rows at hand leaves: a new count, the rows to be
  -- fetched, and the old generation on the stack.
  abbrev Narrowed : ScanState → List ScanHit → ℕ → Session T → Type 0
  Narrowed scan rows n after =
      after.scan
      ≡ some (record scan {
        count = n;
        hits = none;
        iterative_all = all_of scan.engine scan after.scan;
        undo_stack = (scan.count, some rows) ∷ scan.undo_stack;
      })

  next_scan_narrows :
      (c v n : ℕ) (s : Session T) (scan : ScanState) (rows : List ScanHit) (e : Engine)
      → s.scan ≡ some scan
      → scan.engine ≡ e
      → e ≢ local
      → scan.hits ≡ some rows
      → (next_scan tr me c v s).0 ≡ ok n
      → Narrowed scan rows n (next_scan tr me c v s).1
        × ((next_scan tr me c v s).1.io_depth ≡ s.io_depth)
  unfolding next_scan via ◌>>=◌
  next_scan_narrows c v n s scan rows turbo found engine e hits done = ground arith
  next_scan_narrows c v n s scan rows iterative found engine e hits done = ground arith
  next_scan_narrows c v n s scan rows local found engine e hits done = absurd (e refl)

  hunting_done :
      {A : Type 0} (body : Method T A) (s : Session T) (a : A)
      → IsIdle tr me s
      → (hunting tr me body s).0 ≡ ok a
      → ((body (entered tr me s)).0 ≡ ok a)
        × ((hunting tr me body s).1.scan ≡ (body (entered tr me s)).1.scan)
        × ((body (entered tr me s)).1.io_depth ≡ 1 → IsIdle tr me (hunting tr me body s).1)
  unfolding ensure end_busy
  hunting_done body s a idle = rw (hunting_idle tr me body s idle) (λ h. ground arith)

  narrowed_undone :
      (scan : ScanState) (rows : List ScanHit) (n : ℕ) (after : Option ScanState) (e : Engine)
      → scan.engine ≡ e
      → e ≢ local
      → undone
          (scan.count, some rows)
          scan.undo_stack
          scan.engine
          (record scan {
            count = n;
            hits = none;
            iterative_all = all_of scan.engine scan after;
            undo_stack = (scan.count, some rows) ∷ scan.undo_stack;
          })
        ≡ undone (scan.count, some rows) scan.undo_stack scan.engine scan
  narrowed_undone scan rows n after turbo engine e = rw engine refl
  narrowed_undone scan rows n after iterative engine e = rw engine refl
  narrowed_undone scan rows n after local engine e = absurd (e refl)

  -- A generation of at most 256 rows that were fetched, on the console's or the iterative engine:
  -- when `scan_next` returns and leaves the session connected, a `scan_undo` returns the old count,
  -- and afterwards the scan has the old count, the old rows and the old undo stack, unless the
  -- transport hangs at the end of the console's scan. The condition is that no hunt is under way and
  -- that the lock is free.
  pub scan_undo-scan_next :
      (compare : Text) (value : Dyn) (c v n : ℕ) (s : Session T) (scan : ScanState)
      (rows : List ScanHit)
      → IsIdle tr me s
      → tr.connected s.transport ≡ true
      → s.scan ≡ some scan
      → scan.engine ≢ local
      → scan.hits ≡ some rows
      → scan.count ≤ results_max
      → plan_next compare value ≡ ok (c, v)
      → (scan_next tr me compare value s).0 ≡ ok n
      → tr.connected (scan_next tr me compare value s).1.transport ≡ true
      → (tr.scan_end (tr.scan_wait_enter (scan_next tr me compare value s).1.transport)).0 ≢ blocked
      → let s' = (scan_next tr me compare value s).1 in
        ((scan_undo tr me s').0 ≡ ok (some scan.count))
        × ((scan_undo tr me s').1.scan
            ≡ some (undone (scan.count, some rows) scan.undo_stack scan.engine scan))
  scan_undo-scan_next compare value c v n s scan rows idle up found engine hits small plan =
      rw (past_plan tr me compare value c v s scan up found plan) λ done up' ends.
        let (body_done, kept, free) = hunting_done (next_scan tr me c v) s n idle done in
        let (narrowed, depth) =
          next_scan_narrows c v n (entered tr me s) scan rows scan.engine found refl engine hits
            body_done in
        let (count, after) =
          scan_undo_restores tr me _ _ (scan.count, some rows) scan.undo_stack
            (free (omega (arith, depth, idle.1))) up' (kept ∙ narrowed) refl small ends in
        (count, after ∙ ap some (narrowed_undone scan rows n _ scan.engine refl engine))
