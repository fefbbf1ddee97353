-- ===== src/Session/Hunt/Results.antt =====
-- `scan_count` and `scan_results` of web/nitepr5_core/session.py.
use nite_pr.Base.{
  ℕ, zero, suc, true, ◌||◌, Option, none, some, List, [], take, ltb, ◌==◌, if◌then◌else◌,
}
use nite_pr.Base.Int.{pos}
use nite_pr.Base.Exec.{Outcome, ok, err, pure, lift, modify, ◌>>=◌, ◌>>◌}
use nite_pr.Constants.{results_max}
use nite_pr.Types.{Dyn, ScanHit}
use nite_pr.Errors.{Error, invalid_result_limit, results_too_many}
use nite_pr.Scan.Parse.{value_size}
use nite_pr.Scan.Segments.{cap_get_count}
use nite_pr.Scan.Classify.{hits_from_resident}
use nite_pr.Transport.{Transport}
use nite_pr.Session.{ScanState, Engine, turbo, iterative, local, Method, via, require_connected}
use nite_pr.Session.Lock.{hold_io}
use nite_pr.Session.Hunt.Common.{active_scan, on_scan, waiting}

-- The tests on `limit` with which `scan_results` begins.
unfoldable pub result_limit : Dyn → Outcome Error ℕ
result_limit (Dyn.int (pos zero)) = err (invalid_result_limit (Dyn.int (pos 0)))
result_limit (Dyn.int (pos (suc m))) =
    if ltb results_max (suc m) then err (results_too_many (suc m) results_max) else ok (suc m)
result_limit limit = err (invalid_result_limit limit)

abbrev pub put_hits : List ScanHit → ScanState → ScanState
put_hits hits scan = record scan { hits = some hits }

module _ {T : Type 0} (tr : Transport T) (me : ℕ) where
  unfoldable pub scan_count : Method T ℕ
  unfolding require_connected active_scan
  scan_count = do require_connected tr; scan ← active_scan; pure scan.count

  -- The GET of the turbo engine.
  unfoldable pub turbo_results : ℕ → ScanState → Method T (List ScanHit)
  unfolding hold_io waiting value_size hits_from_resident
  turbo_results limit scan = do
    rows ← hold_io me true (
        waiting tr (do
          size ← lift (value_size scan.value_type)
          via (tr.scan_get_resident 0 (cap_get_count limit scan.count) size)))
    modify (on_scan (put_hits (hits_from_resident rows)))
    pure (take limit (hits_from_resident rows))

  unfoldable pub iterative_results : ℕ → Option (List ScanHit) → Method T (List ScanHit)
  iterative_results limit none = pure []
  iterative_results limit (some all) = do
    modify (on_scan (put_hits (take limit all)))
    pure (take limit all)

  unfoldable pub results_by_engine : ℕ → ScanState → Engine → Method T (List ScanHit)
  unfolding turbo_results iterative_results
  results_by_engine limit scan turbo = turbo_results limit scan
  results_by_engine limit scan iterative = iterative_results limit scan.iterative_all
  results_by_engine limit scan local = pure []

  unfoldable pub fetch_results : ℕ → ScanState → Option (List ScanHit) → Method T (List ScanHit)
  unfolding results_by_engine
  fetch_results limit scan (some hits) = pure (take limit hits)
  fetch_results limit scan none = results_by_engine limit scan scan.engine

  unfoldable pub scan_results : Dyn → Method T (List ScanHit)
  unfolding require_connected active_scan result_limit fetch_results
  scan_results arg = do
    limit ← lift (result_limit arg)
    require_connected tr
    scan ← active_scan
    if ltb results_max scan.count || scan.count == 0
        then pure []
        else fetch_results limit scan scan.hits
