-- ===== src/Session/Hunt.antt =====
-- The scan of web/nitepr5_core/session.py: what a request asks for (Plan), `scan_start` (First),
-- `scan_next` (Next), `scan_undo` (Undo), `scan_count` and `scan_results` (Results).
pub mod Plan
pub mod Common
pub mod First
pub mod Next
pub mod Undo
pub mod Results
pub mod Restoring
pub mod RoundTrip
pub mod Caching
