-- ===== src/Session/Hunt/Undo.antt =====
-- `scan_undo` of web/nitepr5_core/session.py.
use nite_pr.Base.{ℕ, Option, none, some, List, [], ◌∷◌, ltb, false}
use nite_pr.Base.Exec.{pure, raise_if, modify, catch, ◌>>=◌, ◌>>◌}
use nite_pr.Constants.{results_max}
use nite_pr.Types.{ScanHit}
use nite_pr.Errors.{undo_too_large}
use nite_pr.Transport.{Transport}
use nite_pr.Session.{
  ScanState, Generation, Engine, turbo, iterative, local, Method, via, require_connected,
}
use nite_pr.Session.Connect.{end_scan}
use nite_pr.Session.Hunt.Common.{active_scan, the_scan, on_scan, waiting, hunting}

-- `prev_hits if prev_hits is not None else []`
abbrev pub or_empty : Option (List ScanHit) → List ScanHit
or_empty none = []
or_empty (some hits) = hits

-- `undo_stack.pop()`, and the count and the hits of the generation that it held.
abbrev pub restore : Generation → List Generation → ScanState → ScanState
restore (count, hits) rest scan = record scan {
  undo_stack = rest;
  count = count;
  hits = some (or_empty hits);
}

abbrev pub as_iterative : List ScanHit → ScanState → ScanState
as_iterative hits scan = record scan { iterative_all = some hits }

abbrev pub as_local : ScanState → ScanState
as_local scan = record scan { engine = local }

module _ {T : Type 0} (tr : Transport T) (me : ℕ) where
  unfoldable pub go_local : Method T (Unit {0})
  go_local = do catch (via tr.scan_end) (λ e. pure tt); modify (on_scan as_local)

  unfoldable pub undo_by_engine : List ScanHit → Engine → Method T (Unit {0})
  unfolding go_local
  undo_by_engine hits iterative = modify (on_scan (as_iterative hits))
  undo_by_engine hits turbo = go_local
  undo_by_engine hits local = go_local

  unfoldable pub undo_stack_top : ScanState → List Generation → Method T (Option ℕ)
  unfolding end_scan undo_by_engine
  undo_stack_top scan [] = do end_scan tr me false; pure none
  undo_stack_top scan (gen ∷ rest) = do
    raise_if (ltb results_max gen.0) (undo_too_large gen.0 results_max)
    modify (on_scan (restore gen rest))
    undo_by_engine (or_empty gen.1) scan.engine
    pure (some gen.0)

  -- The body of the two `with` blocks.
  unfoldable pub undo_scan : Method T (Option ℕ)
  unfolding undo_stack_top the_scan waiting
  undo_scan = waiting tr (do scan ← the_scan; undo_stack_top scan scan.undo_stack)

  unfoldable pub scan_undo : Method T (Option ℕ)
  unfolding require_connected active_scan hunting undo_scan
  scan_undo = do require_connected tr; active_scan; hunting tr me undo_scan
