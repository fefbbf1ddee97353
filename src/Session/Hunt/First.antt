-- ===== src/Session/Hunt/First.antt =====
-- `scan_start` and `_scan_segments` of web/nitepr5_core/session.py.
use nite_pr.Base.{
  ℕ, Bool, true, false, not, ◌&&◌, Option, none, some, List, [], ◌∷◌, length, if◌then◌else◌,
}
use nite_pr.Base.Int.{pos}
use nite_pr.Base.Text.{Text, eq_text}
use nite_pr.Base.Exec.{pure, raise, raise_if, lift, modify, ◌>>=◌, ◌>>◌}
use nite_pr.Constants.{
  tse_server_resident, tse_snapshot, scan_compare_exact, scan_regions_default,
  scan_regions_probe_bytes,
}
use nite_pr.Types.{Dyn, ScanRegion, ScanHit}
use nite_pr.Errors.{invalid_scan_regions, scan_unsupported}
use nite_pr.Scan.Ranges.{Range}
use nite_pr.Scan.Segments.{Segment, ranges_to_segments}
use nite_pr.Scan.Classify.{has_bit, classify_maps, classify_turbo_regions}
use nite_pr.Scan.Bitmap.{snapshot_fits}
use nite_pr.Transport.{Transport, StartArgs}
use nite_pr.Session.{
  ScanState, Engine, turbo, iterative, Method, via, resolve_pid, require_connected,
}
use nite_pr.Session.Connect.{end_scan}
use nite_pr.Session.Memory.{maps}
use nite_pr.Session.Hunt.Plan.{ScanRequest, HuntPlan, plan_scan}
use nite_pr.Session.Hunt.Common.{waiting, hunting}

-- What the chosen engine found: the engine, the count, and the hits of the iterative one.
abbrev Found : Type 0
Found = Engine × ℕ × Option (List ScanHit)

abbrev is_empty : List Segment → Bool
is_empty [] = true
is_empty (g ∷ gs) = false

abbrev start_args : HuntPlan → StartArgs
start_args plan = record {
  value_type = plan.value_type;
  compare_type = plan.compare_type;
  alignment = plan.alignment;
  value = plan.value;
}

module _ {T : Type 0} (tr : Transport T) (me : ℕ) where
  -- The regions of the probe, or the maps where the probe fails.
  unfoldable pub classify : ℕ → Option (List ScanRegion) → Method T (List Range)
  unfolding maps
  classify pid (some probed) = pure (classify_turbo_regions probed)
  classify pid none = do rows ← maps tr me (Dyn.int (pos pid)) false; pure (classify_maps rows)

  unfoldable pub scan_segments : ℕ → Text → Method T (List Segment)
  unfolding classify eq_text
  scan_segments pid regions = do
    raise_if (not (eq_text regions scan_regions_default)) (invalid_scan_regions regions)
    probed ← via (tr.scan_regions pid scan_regions_probe_bytes)
    classified ← classify pid probed
    merged_segs ← lift (ranges_to_segments classified)
    raise_if (is_empty merged_segs) scan_unsupported
    pure merged_segs

  -- The resident match list was declined: a snapshot, then the exact count over it.
  unfoldable pub snapshot_then_count : ℕ → List Segment → HuntPlan → ℕ → Method T Found
  snapshot_then_count pid segments plan engines = do
    via (tr.scan_start_turbo pid segments (start_args plan) true engines)
    count ← via (
        tr.scan_count_resident (record {
          value_type = plan.value_type;
          compare_type = scan_compare_exact;
          value = plan.value;
        }))
    pure (turbo, count, none)

  -- The cases on what `scan_start_turbo` answered.
  unfoldable pub resident_answer : ℕ → List Segment → HuntPlan → ℕ → Bool × ℕ → Method T Found
  unfolding snapshot_then_count
  resident_answer pid segments plan engines (true, count) = pure (turbo, count, none)
  resident_answer pid segments plan engines (false, count) =
      if plan.unknown
      then raise scan_unsupported
      else if has_bit engines tse_snapshot && snapshot_fits segments plan.alignment
      then snapshot_then_count pid segments plan engines
      else raise scan_unsupported

  unfoldable pub turbo_scan : ℕ → List Segment → HuntPlan → ℕ → Method T Found
  unfolding resident_answer
  turbo_scan pid segments plan engines = do
    raise_if (plan.unknown && not (has_bit engines tse_snapshot)) scan_unsupported
    answer ← via (tr.scan_start_turbo pid segments (start_args plan) plan.unknown engines)
    resident_answer pid segments plan engines answer

  unfoldable pub iterative_scan : ℕ → List Segment → HuntPlan → Method T Found
  iterative_scan pid segments plan = do
    raise_if plan.unknown scan_unsupported
    hits ← via (tr.scan_start_iterative pid segments (start_args plan))
    pure (iterative, length hits, some hits)

  -- `have_turbo and (engines & TSE_SERVER_RESIDENT)` chooses the engine.
  unfoldable pub engine_scan : ℕ → List Segment → HuntPlan → Option (ℕ × ℕ × ℕ) → Method T Found
  unfolding turbo_scan iterative_scan
  engine_scan pid segments plan none = iterative_scan pid segments plan
  engine_scan pid segments plan (some (_, engines, _)) =
      if has_bit engines tse_server_resident
      then turbo_scan pid segments plan engines
      else iterative_scan pid segments plan

  -- `self._scan = _ScanState(…)`
  abbrev pub new_scan : ℕ → List Segment → HuntPlan → Found → ScanState
  new_scan pid segments plan (engine, count, iterative_all) = record {
    pid = pid;
    value_type = plan.value_type;
    alignment = plan.alignment;
    engine = engine;
    count = count;
    segments = segments;
    hits = none;
    iterative_all = iterative_all;
    undo_stack = [];
  }

  -- The body of the two `with` blocks.
  unfoldable pub first_scan : ℕ → Text → HuntPlan → Method T ℕ
  unfolding end_scan scan_segments engine_scan waiting
  first_scan pid regions plan = do
    end_scan tr me true
    waiting tr (do
      caps ← via tr.scan_caps
      via tr.scan_authenticate
      segments ← scan_segments pid regions
      found ← engine_scan pid segments plan caps
      modify (λ s. record s { scan = some (new_scan pid segments plan found) })
      pure (found.1))

  unfoldable pub scan_start : Dyn → ScanRequest → Method T ℕ
  unfolding require_connected resolve_pid plan_scan hunting first_scan
  scan_start arg request = do
    require_connected tr
    pid ← resolve_pid arg
    plan ← lift (plan_scan request)
    hunting tr me (first_scan pid request.regions plan)
