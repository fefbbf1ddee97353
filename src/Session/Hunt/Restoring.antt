-- ===== src/Session/Hunt/Restoring.antt =====
-- The generation that `scan_undo` takes off the stack, and the one that `scan_next` pushes.
use nite_pr.Base.{
  ℕ, ◌≤◌, ◌<◌, ◌≡◌, ◌≢◌, refl, true, false, Option, none, some, List, [], ◌∷◌, arith, ◌∙◌,
}
use nite_pr.Base.Text.{Text}
use nite_pr.Base.Exec.{Outcome, ok, err, blocked, ensure, ◌>>=◌}
use nite_pr.Constants.{results_max}
use nite_pr.Types.{Dyn, ScanHit}
use nite_pr.Errors.{Error}
use nite_pr.Transport.{Transport}
use nite_pr.Session.{Session, ScanState, Generation, Engine, turbo, iterative, local, Method, via}
use nite_pr.Session.Lock.{take_io, release_io, end_busy}
use nite_pr.Session.Hunt.Common.{hunting}
use nite_pr.Session.Hunt.Undo.{undo_scan, scan_undo}
use nite_pr.Session.Hunt.Plan.{plan_next}
use nite_pr.Session.Hunt.Next.{next_scan, scan_next}

-- The fetched rows of a generation; none where they were not fetched.
abbrev rows_of : Option (List ScanHit) → List ScanHit
rows_of none = []
rows_of (some hits) = hits

-- The scan after an undo: the generation's count and rows are back, `rest` is the stack, and a scan
-- that ran on the console goes on in the session.
abbrev pub undone : Generation → List Generation → Engine → ScanState → ScanState
undone gen rest iterative scan = record scan {
  count = gen.0;
  hits = some (rows_of gen.1);
  iterative_all = some (rows_of gen.1);
  undo_stack = rest;
}
undone gen rest _ scan = record scan {
  engine = local;
  count = gen.0;
  hits = some (rows_of gen.1);
  undo_stack = rest;
}

module _ {T : Type 0} (tr : Transport T) (me : ℕ) where
  -- No hunt is under way and nobody holds the lock.
  abbrev pub IsIdle : Session T → Type 0
  IsIdle s = (s.busy ≡ false) × (s.io_depth ≡ 0)

  -- The state in which the body of a hunt runs.
  abbrev pub entered : Session T → Session T
  entered s = take_io me (record s { busy = true })

  pub hunting_idle :
      {A : Type 0} (body : Method T A) (s : Session T)
      → IsIdle s
      → hunting tr me body s ≡ ensure (ensure body release_io) end_busy (entered s)
  unfolding hunting ◌>>=◌
  hunting_idle body s h = ground arith

  undo_scan_lem :
      (s : Session T) (scan : ScanState) (gen : Generation) (rest : List Generation) (e : Engine)
      → s.scan ≡ some scan
      → scan.engine ≡ e
      → scan.undo_stack ≡ gen ∷ rest
      → gen.0 ≤ results_max
      → (tr.scan_end (tr.scan_wait_enter s.transport)).0 ≢ blocked
      → ((undo_scan tr me s).0 ≡ ok (some gen.0))
        × ((undo_scan tr me s).1.scan ≡ some (undone gen rest e scan))
  unfolding undo_scan via ◌>>=◌
  undo_scan_lem s scan gen rest turbo found engine stack small ends = ground arith
  undo_scan_lem s scan gen rest iterative found engine stack small ends = ground arith
  undo_scan_lem s scan gen rest local found engine stack small ends = ground arith

  -- A body that comes back is what the hunt comes to, and the scan is as the body left it.
  hunting_returns :
      {A : Type 0} (body : Method T A) (s : Session T) (r : Outcome Error A)
      → IsIdle s
      → r ≢ blocked
      → (body (entered s)).0 ≡ r
      → ((hunting tr me body s).0 ≡ r) × ((hunting tr me body s).1.scan ≡ (body (entered s)).1.scan)
  unfolding ensure end_busy
  hunting_returns body s r idle back returned = rw (hunting_idle body s idle) (ground arith)

  past_checks :
      (s : Session T) (scan : ScanState)
      → tr.connected s.transport ≡ true
      → s.scan ≡ some scan
      → scan_undo tr me s ≡ hunting tr me (undo_scan tr me) s
  unfolding scan_undo ◌>>=◌
  past_checks s scan up found = rw (up, found)

  -- On a connected session with no hunt under way, whose lock is free and whose scan has a
  -- generation of at most 256 rows on its stack, `scan_undo` returns that generation's count, unless
  -- the transport hangs; afterwards the scan has the generation's count and hits, its stack is one
  -- shorter, and a scan of the console's engine goes on in the session.
  pub scan_undo_restores :
      (s : Session T) (scan : ScanState) (gen : Generation) (rest : List Generation)
      → IsIdle s
      → tr.connected s.transport ≡ true
      → s.scan ≡ some scan
      → scan.undo_stack ≡ gen ∷ rest
      → gen.0 ≤ results_max
      → (tr.scan_end (tr.scan_wait_enter s.transport)).0 ≢ blocked
      → ((scan_undo tr me s).0 ≡ ok (some gen.0))
        × ((scan_undo tr me s).1.scan ≡ some (undone gen rest scan.engine scan))
  unfolding scan_undo
  scan_undo_restores s scan gen rest idle up found stack small ends =
      let (returned, after) =
        undo_scan_lem (entered s) scan gen rest scan.engine found refl stack small ends in
      let (result, kept) = hunting_returns (undo_scan tr me) s _ idle (cc) returned in
      rw (past_checks s scan up found) (result, kept ∙ after)

  next_scan_failed :
      (c v : ℕ) (s : Session T) (scan : ScanState) (e : Error)
      → s.scan ≡ some scan
      → scan.engine ≡ turbo
      → scan.hits ≡ none
      → results_max < scan.count
      → (tr.scan_count_resident
          (record { value_type = scan.value_type; compare_type = c; value = v })
          (tr.scan_wait_enter s.transport)).0
        ≡ err e
      → ((next_scan tr me c v s).0 ≡ err e)
        × ((next_scan tr me c v s).1.scan
            ≡ some (record scan { undo_stack = (scan.count, none) ∷ scan.undo_stack }))
  unfolding next_scan via ◌>>=◌
  next_scan_failed c v s scan e found engine hits many fails = ground arith

  pub past_plan :
      (compare : Text) (value : Dyn) (c v : ℕ) (s : Session T) (scan : ScanState)
      → tr.connected s.transport ≡ true
      → s.scan ≡ some scan
      → plan_next compare value ≡ ok (c, v)
      → scan_next tr me compare value s ≡ hunting tr me (next_scan tr me c v) s
  unfolding scan_next ◌>>=◌
  past_plan compare value c v s scan up found plan = rw (up, found, plan)

  -- `scan_next` on the console's engine, over more than 256 rows, whose COUNT raises: the error is
  -- passed on, and the stack has one more generation, with the count that is still the scan's own.
  pub scan_next_failed_pushes :
      (compare : Text) (value : Dyn) (c v : ℕ) (s : Session T) (scan : ScanState) (e : Error)
      → IsIdle s
      → tr.connected s.transport ≡ true
      → s.scan ≡ some scan
      → scan.engine ≡ turbo
      → scan.hits ≡ none
      → results_max < scan.count
      → plan_next compare value ≡ ok (c, v)
      → (tr.scan_count_resident
          (record { value_type = scan.value_type; compare_type = c; value = v })
          (tr.scan_wait_enter s.transport)).0
        ≡ err e
      → ((scan_next tr me compare value s).0 ≡ err e)
        × ((scan_next tr me compare value s).1.scan
            ≡ some (record scan { undo_stack = (scan.count, none) ∷ scan.undo_stack }))
  scan_next_failed_pushes compare value c v s scan e idle up found engine hits many plan fails =
      let (raised, pushed) = next_scan_failed c v (entered s) scan e found engine hits many fails in
      let (result, kept) = hunting_returns (next_scan tr me c v) s _ idle (cc) raised in
      rw (past_plan compare value c v s scan up found plan) (result, kept ∙ pushed)
