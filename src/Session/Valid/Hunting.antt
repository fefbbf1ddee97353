-- ===== src/Session/Valid/Hunting.antt =====
-- `scan_start`, and the invariant of the watches and the freezes.
use nite_pr.Base.{ℕ, Bool, true, false, Option, none, some, List}
use nite_pr.Base.Text.{Text}
use nite_pr.Types.{Dyn, ScanRegion}
use nite_pr.Transport.{Transport}
use nite_pr.Session.Valid.Rules.{valid_rules}
use nite_pr.Session.Valid.Methods.{end_scan-IsValid, maps-IsValid}
use nite_pr.Session.Valid.{KeepsValid}
use nite_pr.Scan.Segments.{Segment}
use nite_pr.Session.Hunt.Plan.{ScanRequest, HuntPlan}
use nite_pr.Session.Hunt.First.{
  classify, scan_segments, snapshot_then_count, resident_answer, turbo_scan, iterative_scan,
  engine_scan, first_scan, scan_start,
}

module _ {T : Type 0} (tr : Transport T) (me : ℕ) where
  classify-IsValid : (pid : ℕ) (r : Option (List ScanRegion)) → KeepsValid (classify tr me pid r)
  unfolding classify
  classify-IsValid pid none = search (valid_rules, maps-IsValid)
  classify-IsValid pid (some r) = search valid_rules

  scan_segments-IsValid : (pid : ℕ) (regions : Text) → KeepsValid (scan_segments tr me pid regions)
  unfolding scan_segments
  scan_segments-IsValid pid regions = search (valid_rules, classify-IsValid) depth 8

  snapshot_then_count-IsValid :
      (pid : ℕ) (gs : List Segment) (plan : HuntPlan) (engines : ℕ)
      → KeepsValid (snapshot_then_count tr me pid gs plan engines)
  unfolding snapshot_then_count
  snapshot_then_count-IsValid pid gs plan engines = search valid_rules

  resident_answer-IsValid :
      (pid : ℕ) (gs : List Segment) (plan : HuntPlan) (engines : ℕ) (answer : Bool × ℕ)
      → KeepsValid (resident_answer tr me pid gs plan engines answer)
  unfolding resident_answer
  resident_answer-IsValid pid gs plan engines (true, n) = search valid_rules
  resident_answer-IsValid pid gs plan engines (false, n) =
      search (valid_rules, snapshot_then_count-IsValid)

  turbo_scan-IsValid :
      (pid : ℕ) (gs : List Segment) (plan : HuntPlan) (engines : ℕ)
      → KeepsValid (turbo_scan tr me pid gs plan engines)
  unfolding turbo_scan
  turbo_scan-IsValid pid gs plan engines = search (valid_rules, resident_answer-IsValid)

  iterative_scan-IsValid :
      (pid : ℕ) (gs : List Segment) (plan : HuntPlan)
      → KeepsValid (iterative_scan tr me pid gs plan)
  unfolding iterative_scan
  iterative_scan-IsValid pid gs plan = search valid_rules

  engine_scan-IsValid :
      (pid : ℕ) (gs : List Segment) (plan : HuntPlan) (caps : Option (ℕ × ℕ × ℕ))
      → KeepsValid (engine_scan tr me pid gs plan caps)
  unfolding engine_scan
  engine_scan-IsValid pid gs plan none = search (valid_rules, iterative_scan-IsValid)
  engine_scan-IsValid pid gs plan (some caps) =
      search (valid_rules, iterative_scan-IsValid, turbo_scan-IsValid)

  first_scan-IsValid :
      (pid : ℕ) (regions : Text) (plan : HuntPlan) → KeepsValid (first_scan tr me pid regions plan)
  unfolding first_scan
  first_scan-IsValid pid regions plan =
      search (valid_rules, end_scan-IsValid, scan_segments-IsValid, engine_scan-IsValid) depth 10

  pub scan_start-IsValid : (pid : Dyn) (r : ScanRequest) → KeepsValid (scan_start tr me pid r)
  unfolding scan_start
  scan_start-IsValid pid r = search (valid_rules, first_scan-IsValid) depth 8
