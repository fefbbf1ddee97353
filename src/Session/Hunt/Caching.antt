-- ===== src/Session/Hunt/Caching.antt =====
-- The rows that `scan_results` hands out, and those that it keeps.
use nite_pr.Base.{
  ℕ, zero, suc, ◌≤◌, ◌<◌, ◌≡◌, refl, true, Option, none, some, List, [], arith, length, take,
  take_all, length-take-le, length-take, ap, ◌∙◌,
}
use nite_pr.Base.Int.{pos}
use nite_pr.Base.Exec.{Outcome, ok, err, blocked, lift, ◌>>=◌}
use nite_pr.Base.Exec.Returns.{
  Returns, Returns-pure, Returns-if, Returns-bind, Returns-any, Returns-mono, value_of,
}
use nite_pr.Constants.{results_max}
use nite_pr.Types.{Dyn, ScanHit}
use nite_pr.Errors.{Error}
use nite_pr.Scan.Classify.{hits_from_resident}
use nite_pr.Transport.{Transport}
use nite_pr.Session.{Session, ScanState, Engine, turbo, iterative, local}
use nite_pr.Session.Hunt.Common.{on_scan}
use nite_pr.Session.Hunt.Results.{
  result_limit, put_hits, scan_count, turbo_results, iterative_results, results_by_engine,
  fetch_results, scan_results,
}

result_limit_ok :
    (limit k : ℕ) → result_limit (Dyn.int (pos limit)) ≡ ok k → (k ≡ limit) × (k ≤ results_max)
unfolding result_limit
result_limit_ok zero k h = cc
result_limit_ok (suc m) k h = ground arith

AtMost : ℕ → List ScanHit → Type 0
AtMost limit hits = length hits ≤ limit

Bounded : ℕ → List ScanHit → Type 0
Bounded limit hits = (length hits ≤ limit) × (limit ≤ results_max)

take-AtMost : (limit : ℕ) (hits : List ScanHit) → AtMost limit (take limit hits)
unfolding AtMost
take-AtMost limit hits = length-take-le limit hits

lift-Returns : {S A : Type 0} (r : Outcome Error A) → Returns {S = S} (λ a. r ≡ ok a) (lift r)
unfolding lift
lift-Returns (ok a) = record { at = λ s. refl }
lift-Returns (err e) = record { at = λ s. tt }
lift-Returns blocked = record { at = λ s. tt }

module _ {T : Type 0} (tr : Transport T) (me : ℕ) where
  turbo_results-Returns :
      (limit : ℕ) (scan : ScanState) → Returns (AtMost limit) (turbo_results tr me limit scan)
  unfolding turbo_results
  turbo_results-Returns limit scan =
      Returns-bind (λ _. Unit) _ _ _ (Returns-any _)
        λ rows _.
          Returns-bind (λ _. Unit) _ _ _ (Returns-any _)
            λ _ _. Returns-pure _ _ (take-AtMost limit (hits_from_resident rows))

  iterative_results-Returns :
      (limit : ℕ) (all : Option (List ScanHit))
      → Returns (AtMost limit) (iterative_results tr me limit all)
  unfolding iterative_results AtMost
  iterative_results-Returns limit none = Returns-pure _ [] (omega arith)
  iterative_results-Returns limit (some all) =
      Returns-bind (λ _. Unit) _ _ _ (Returns-any _) λ _ _. Returns-pure _ _ (take-AtMost limit all)

  results_by_engine-Returns :
      (limit : ℕ) (scan : ScanState) (e : Engine)
      → Returns (AtMost limit) (results_by_engine tr me limit scan e)
  unfolding results_by_engine AtMost
  results_by_engine-Returns limit scan turbo = turbo_results-Returns limit scan
  results_by_engine-Returns limit scan iterative =
      iterative_results-Returns limit scan.iterative_all
  results_by_engine-Returns limit scan local = Returns-pure _ [] (omega arith)

  fetch_results-Returns :
      (limit : ℕ) (scan : ScanState) (hits : Option (List ScanHit))
      → Returns (AtMost limit) (fetch_results tr me limit scan hits)
  unfolding fetch_results
  fetch_results-Returns limit scan none = results_by_engine-Returns limit scan scan.engine
  fetch_results-Returns limit scan (some hits) = Returns-pure _ _ (take-AtMost limit hits)

  scan_results-Returns :
      (limit : ℕ) → Returns (Bounded limit) (scan_results tr me (Dyn.int (pos limit)))
  unfolding scan_results Bounded AtMost
  scan_results-Returns limit =
      Returns-bind _ _ _ _ (lift-Returns (result_limit (Dyn.int (pos limit)))) λ k e.
        let (same, cap) = result_limit_ok limit k e in
        Returns-bind (λ _. Unit) _ _ _ (Returns-any _)
          λ _ _.
            Returns-bind (λ _. Unit) _ _ _ (Returns-any _)
              λ scan _. Returns-if _ _ _ _ (Returns-pure _ [] (omega arith, omega arith)) (
                Returns-mono _ _ _ (λ hits h. (omega arith, omega arith))
                  (fetch_results-Returns k scan scan.hits))

  -- When `scan_results` returns rows for a limit, there are at most so many of them, and the limit
  -- is at most 256.
  pub scan_results_bounded :
      (limit : ℕ) (s : Session T) {hits : List ScanHit}
      → (scan_results tr me (Dyn.int (pos limit)) s).0 ≡ ok hits
      → (length hits ≤ limit) × (limit ≤ results_max)
  unfolding Bounded
  scan_results_bounded limit s h = value_of (scan_results-Returns limit) s h

module _ {T : Type 0} (tr : Transport T) (me : ℕ) (s : Session T) (scan : ScanState) where
  first_request :
      (limit : ℕ) (all : List ScanHit)
      → 1 ≤ limit
      → limit < length all
      → length all ≤ results_max
      → tr.connected s.transport ≡ true
      → s.scan ≡ some scan
      → scan.engine ≡ iterative
      → scan.hits ≡ none
      → scan.iterative_all ≡ some all
      → scan.count ≡ length all
      → scan_results tr me (Dyn.int (pos limit)) s
        ≡ (ok (take limit all), on_scan (put_hits (take limit all)) s)
  unfolding scan_results ◌>>=◌
  first_request zero all lo few cap up found engine fresh rows count = absurd (omega arith)
  first_request (suc m) all lo few cap up found engine fresh rows count = ground arith

  later_request :
      (kept : List ScanHit)
      → length kept ≤ results_max
      → tr.connected s.transport ≡ true
      → s.scan ≡ some scan
      → 1 ≤ scan.count
      → scan.count ≤ results_max
      → let s' = on_scan (put_hits kept) s in
        ((scan_results tr me (Dyn.int (pos results_max)) s').0 ≡ ok kept)
        × ((scan_count tr me s').0 ≡ ok scan.count)
  unfolding scan_results scan_count ◌>>=◌
  later_request kept few up found lo hi = let e = take_all results_max kept few in ground arith

  -- Of an iterative scan whose rows were not asked for yet, a first request with a limit below the
  -- number of the rows returns the first rows up to the limit, and keeps only those: any later
  -- request, the limit 256 included, returns no more of them, while the count still says that there
  -- are more.
  pub scan_results_sticks :
      (limit : ℕ) (all : List ScanHit)
      → 1 ≤ limit
      → limit < length all
      → length all ≤ results_max
      → tr.connected s.transport ≡ true
      → s.scan ≡ some scan
      → scan.engine ≡ iterative
      → scan.hits ≡ none
      → scan.iterative_all ≡ some all
      → scan.count ≡ length all
      → let (first, s') = scan_results tr me (Dyn.int (pos limit)) s in
        (first ≡ ok (take limit all))
        × ((scan_results tr me (Dyn.int (pos results_max)) s').0 ≡ ok (take limit all))
        × ((scan_count tr me s').0 ≡ ok (length all))
  scan_results_sticks limit all lo few cap up found engine fresh rows count =
      let e = first_request limit all lo few cap up found engine fresh rows count in
      let (again, counted) =
        later_request (take limit all) (omega (arith, length-take limit all)) up found (omega arith)
          (omega arith) in
      rw e (refl, again, counted ∙ ap ok count)
