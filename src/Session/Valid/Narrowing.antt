-- ===== src/Session/Valid/Narrowing.antt =====
-- `scan_next`, `scan_undo` and `scan_results`, and the invariant of the watches and the freezes.
use nite_pr.Base.{ℕ, Option, none, some, List, [], ◌∷◌}
use nite_pr.Base.Text.{Text}
use nite_pr.Base.Exec.Keeps.{Keeps-pure, Keeps-bind}
use nite_pr.Types.{Dyn, ScanHit}
use nite_pr.Transport.{Transport}
use nite_pr.Session.{Engine, Generation, turbo, iterative, local, ScanState}
use nite_pr.Session.Valid.Rules.{valid_rules}
use nite_pr.Session.Valid.Methods.{end_scan-IsValid, read-IsValid}
use nite_pr.Session.Valid.{KeepsValid}
use nite_pr.Session.Hunt.Next.{
  set_hits, stash_iterative, stash_by_engine, stash_hits, stash_if_small, compare_hit, compare_hits,
  local_next, iterative_next, turbo_next, next_by_engine, next_scan, scan_next,
}
use nite_pr.Session.Hunt.Undo.{go_local, undo_by_engine, undo_stack_top, undo_scan, scan_undo}
use nite_pr.Session.Hunt.Results.{
  turbo_results, iterative_results, results_by_engine, fetch_results, scan_results,
}

module _ {T : Type 0} (tr : Transport T) (me : ℕ) where
  set_hits-IsValid : (hits : List ScanHit) → KeepsValid (set_hits tr me hits)
  unfolding set_hits
  set_hits-IsValid hits = search valid_rules

  stash_iterative-IsValid : (all : Option (List ScanHit)) → KeepsValid (stash_iterative tr me all)
  unfolding stash_iterative
  stash_iterative-IsValid none = search valid_rules
  stash_iterative-IsValid (some all) = search set_hits-IsValid

  stash_by_engine-IsValid :
      (scan : ScanState) (e : Engine) → KeepsValid (stash_by_engine tr me scan e)
  unfolding stash_by_engine
  stash_by_engine-IsValid scan turbo = search valid_rules
  stash_by_engine-IsValid scan iterative = stash_iterative-IsValid scan.iterative_all
  stash_by_engine-IsValid scan local = stash_iterative-IsValid scan.iterative_all

  stash_hits-IsValid :
      (scan : ScanState) (hits : Option (List ScanHit)) → KeepsValid (stash_hits tr me scan hits)
  unfolding stash_hits
  stash_hits-IsValid scan (some hits) = search valid_rules
  stash_hits-IsValid scan none = search (valid_rules, stash_by_engine-IsValid)

  stash_if_small-IsValid : KeepsValid (stash_if_small tr me)
  unfolding stash_if_small
  stash_if_small-IsValid = search (valid_rules, stash_hits-IsValid)

  compare_hit-IsValid :
      (pid size compare value : ℕ) (hit : ScanHit)
      → KeepsValid (compare_hit tr me pid size compare value hit)
  unfolding compare_hit
  compare_hit-IsValid pid size compare value hit = search (valid_rules, read-IsValid) depth 8

  compare_hits-IsValid :
      (pid size compare value : ℕ) (hits : List ScanHit)
      → KeepsValid (compare_hits tr me pid size compare value hits)
  unfolding compare_hits
  compare_hits-IsValid pid size compare value [] = Keeps-pure _
  compare_hits-IsValid pid size compare value (hit ∷ hits) =
      Keeps-bind _ _ (compare_hit-IsValid pid size compare value hit)
        (λ v. Keeps-bind _ _ (compare_hits-IsValid pid size compare value hits) (λ r. Keeps-pure _))

  local_next-IsValid :
      (compare value : ℕ) (scan : ScanState) (hits : Option (List ScanHit))
      → KeepsValid (local_next tr me compare value scan hits)
  unfolding local_next
  local_next-IsValid compare value scan none = search valid_rules
  local_next-IsValid compare value scan (some hits) = search (valid_rules, compare_hits-IsValid)

  iterative_next-IsValid :
      (compare value : ℕ) (scan : ScanState) → KeepsValid (iterative_next tr me compare value scan)
  unfolding iterative_next
  iterative_next-IsValid compare value scan = search valid_rules

  turbo_next-IsValid :
      (compare value : ℕ) (scan : ScanState) → KeepsValid (turbo_next tr me compare value scan)
  unfolding turbo_next
  turbo_next-IsValid compare value scan = search valid_rules

  next_by_engine-IsValid :
      (compare value : ℕ) (scan : ScanState) (e : Engine)
      → KeepsValid (next_by_engine tr me compare value scan e)
  unfolding next_by_engine
  next_by_engine-IsValid compare value scan local = local_next-IsValid compare value scan scan.hits
  next_by_engine-IsValid compare value scan iterative = iterative_next-IsValid compare value scan
  next_by_engine-IsValid compare value scan turbo = turbo_next-IsValid compare value scan

  next_scan-IsValid : (compare value : ℕ) → KeepsValid (next_scan tr me compare value)
  unfolding next_scan
  next_scan-IsValid compare value =
      search (valid_rules, stash_if_small-IsValid, next_by_engine-IsValid) depth 8

  pub scan_next-IsValid :
      (compare : Text) (value : Dyn) → KeepsValid (scan_next tr me compare value)
  unfolding scan_next
  scan_next-IsValid compare value = search (valid_rules, next_scan-IsValid) depth 8

  go_local-IsValid : KeepsValid (go_local tr me)
  unfolding go_local
  go_local-IsValid = search valid_rules

  undo_by_engine-IsValid :
      (hits : List ScanHit) (e : Engine) → KeepsValid (undo_by_engine tr me hits e)
  unfolding undo_by_engine
  undo_by_engine-IsValid hits turbo = go_local-IsValid
  undo_by_engine-IsValid hits iterative = search valid_rules
  undo_by_engine-IsValid hits local = go_local-IsValid

  undo_stack_top-IsValid :
      (scan : ScanState) (stack : List Generation) → KeepsValid (undo_stack_top tr me scan stack)
  unfolding undo_stack_top
  undo_stack_top-IsValid scan [] = search (valid_rules, end_scan-IsValid)
  undo_stack_top-IsValid scan (gen ∷ rest) = search (valid_rules, undo_by_engine-IsValid)

  undo_scan-IsValid : KeepsValid (undo_scan tr me)
  unfolding undo_scan
  undo_scan-IsValid = search (valid_rules, undo_stack_top-IsValid)

  pub scan_undo-IsValid : KeepsValid (scan_undo tr me)
  unfolding scan_undo
  scan_undo-IsValid = search (valid_rules, undo_scan-IsValid)

  turbo_results-IsValid :
      (limit : ℕ) (scan : ScanState) → KeepsValid (turbo_results tr me limit scan)
  unfolding turbo_results
  turbo_results-IsValid limit scan = search valid_rules depth 8

  iterative_results-IsValid :
      (limit : ℕ) (all : Option (List ScanHit)) → KeepsValid (iterative_results tr me limit all)
  unfolding iterative_results
  iterative_results-IsValid limit none = search valid_rules
  iterative_results-IsValid limit (some all) = search valid_rules

  results_by_engine-IsValid :
      (limit : ℕ) (scan : ScanState) (e : Engine)
      → KeepsValid (results_by_engine tr me limit scan e)
  unfolding results_by_engine
  results_by_engine-IsValid limit scan turbo = turbo_results-IsValid limit scan
  results_by_engine-IsValid limit scan iterative =
      iterative_results-IsValid limit scan.iterative_all
  results_by_engine-IsValid limit scan local = search valid_rules

  fetch_results-IsValid :
      (limit : ℕ) (scan : ScanState) (hits : Option (List ScanHit))
      → KeepsValid (fetch_results tr me limit scan hits)
  unfolding fetch_results
  fetch_results-IsValid limit scan none = results_by_engine-IsValid limit scan scan.engine
  fetch_results-IsValid limit scan (some hits) = search valid_rules

  pub scan_results-IsValid : (limit : Dyn) → KeepsValid (scan_results tr me limit)
  unfolding scan_results
  scan_results-IsValid limit = search (valid_rules, fetch_results-IsValid) depth 8
