-- ===== src/Transport.antt =====
-- The interface of web/nitepr5_core/transport.py, `class Transport`: what the session calls. The
-- two implementations keep their own state, here the parameter `T`. Every operation returns, raises
-- or does not come back; what it did to its state stands in each case.

pub mod Mock
pub mod Ps5dbg
pub mod Contract
use nite_pr.Base.{ℕ, Bool, Option, List}
use nite_pr.Base.Text.{Text}
use nite_pr.Base.Exec.{Exec}
use nite_pr.Types.{
  Bytes, ProcessInfo, ForegroundInfo, ProcessDetail, MemoryMap, ScanRegion, ScanHit,
}
use nite_pr.Errors.{Error}
use nite_pr.Scan.Segments.{Segment}
use nite_pr.Scan.Classify.{ResidentRow}

-- The keyword arguments that a turbo or an iterative start passes on.
pub record StartArgs : Type 0 where
  pub value_type : ℕ
  pub compare_type : ℕ
  pub alignment : ℕ
  pub value : ℕ

-- The keyword arguments of a COUNT.
pub record CountArgs : Type 0 where
  pub value_type : ℕ
  pub compare_type : ℕ
  pub value : ℕ

pub record Transport (T : Type 0) : Type 0 where
  pub connected : T → Bool
  pub connect : Text → ℕ → Exec Error T (Unit {0})
  pub disconnect : Exec Error T (Unit {0})
  pub discover : Exec Error T (List Text)
  pub procs : Exec Error T (List ProcessInfo)
  pub foreground_app : Exec Error T ForegroundInfo
  pub proc_info : ℕ → Exec Error T ProcessDetail
  pub maps : ℕ → Exec Error T (List MemoryMap)
  pub read : (pid address len : ℕ) → Exec Error T Bytes
  pub write : (pid address : ℕ) → Bytes → Exec Error T (Unit {0})
  -- the two halves of the context manager `scan_wait`
  pub scan_wait_enter : T → T
  pub scan_wait_exit : T → T
  pub scan_caps : Exec Error T (Option (ℕ × ℕ × ℕ))
  pub scan_authenticate : Exec Error T (Unit {0})
  pub scan_regions : (pid probe_bytes : ℕ) → Exec Error T (Option (List ScanRegion))
  pub scan_start_turbo :
      (pid : ℕ)
      → List Segment
      → StartArgs
      → (unknown : Bool) → (engines : ℕ) → Exec Error T (Bool × ℕ)
  pub scan_count_resident : CountArgs → Exec Error T ℕ
  pub scan_get_resident : (start_index count value_length : ℕ) → Exec Error T (List ResidentRow)
  pub scan_end : Exec Error T (Unit {0})
  pub scan_start_iterative : (pid : ℕ) → List Segment → StartArgs → Exec Error T (List ScanHit)
  pub scan_next_iterative :
      (pid : ℕ) → List Segment → List ScanHit → CountArgs → Exec Error T (List ScanHit)
