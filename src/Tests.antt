-- ===== src/Tests.antt =====
-- Runs of the session over the mock console, and the theorems at small inputs.
pub mod Runs
mod Witnesses
mod Cheats
mod Scans
mod Pipe
mod Wires
mod Links
mod Webs
mod Hosts
mod Toggles
