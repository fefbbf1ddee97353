-- ===== src/Scan.antt =====
-- web/nitepr5_core/scan.py, by topic.
pub mod Parse
pub mod Match
pub mod Ranges
pub mod Segments
pub mod Classify
pub mod Bitmap
