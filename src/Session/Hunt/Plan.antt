-- ===== src/Session/Hunt/Plan.antt =====
-- The part of `scan_start` that reads its arguments, before the session is touched.
use nite_pr.Base.{ℕ, Bool, true, false, ◌==◌, if◌then◌else◌}
use nite_pr.Base.Text.{Text}
use nite_pr.Base.Exec.{Outcome, ok}
use nite_pr.Base.Result.{◌>>=◌, ◌>>◌}
use nite_pr.Constants.{scan_compare_unknown}
use nite_pr.Types.{Dyn}
use nite_pr.Errors.{Error}
use nite_pr.Scan.Parse.{
  parse_value_type, parse_compare, require_first_compare, require_next_compare, parse_u32_value,
  alignment_or_default,
}
use nite_pr.Constants.{scan_compare_exact}

-- The keyword arguments of `scan_start`, but for the pid.
pub record ScanRequest : Type 0 where
  pub value_type : Text
  pub compare : Text
  pub value : Dyn
  pub alignment : Dyn
  pub unknown : Bool
  pub regions : Text

-- What they come to.
pub record HuntPlan : Type 0 where
  pub value_type : ℕ
  pub compare_type : ℕ
  pub alignment : ℕ
  pub value : ℕ
  pub unknown : Bool

-- `bool(unknown) or parse_compare(compare) == SCAN_COMPARE_UNKNOWN`
unfoldable pub asks_unknown : ScanRequest → Outcome Error Bool
unfolding parse_compare
asks_unknown r =
    if r.unknown then ok true else do ct ← parse_compare r.compare; ok (ct == scan_compare_unknown)

-- The two branches on `unknown_explicit`: the comparison and the value.
unfoldable pub plan_compare : Bool → ScanRequest → Outcome Error (ℕ × ℕ)
unfolding parse_compare require_first_compare parse_u32_value
plan_compare true r = do value ← parse_u32_value r.value false; ok (scan_compare_unknown, value)
plan_compare false r = do
  ct ← parse_compare r.compare
  require_first_compare ct
  value ← parse_u32_value r.value true
  ok (ct, value)

unfoldable pub plan_scan : ScanRequest → Outcome Error HuntPlan
unfolding asks_unknown plan_compare parse_value_type alignment_or_default
plan_scan r = do
  vt ← parse_value_type r.value_type
  align ← alignment_or_default r.alignment
  unknown ← asks_unknown r
  compare ← plan_compare unknown r
  ok (record {
    value_type = vt;
    compare_type = compare.0;
    alignment = align;
    value = compare.1;
    unknown = unknown;
  })

-- The arguments of `scan_next`: the comparison and the value.
unfoldable pub plan_next : Text → Dyn → Outcome Error (ℕ × ℕ)
unfolding parse_compare require_next_compare parse_u32_value
plan_next compare value = do
  ct ← parse_compare compare
  require_next_compare ct
  v ← parse_u32_value value (ct == scan_compare_exact)
  ok (ct, v)
