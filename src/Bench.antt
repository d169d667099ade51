-- ===== src/Bench.antt =====
-- The bench tooling of tools/bench.py: choosing a bench, probing it, comparing it with its descriptor,
-- and recovering it.
pub mod Desc
pub mod Resolve
pub mod Matching
pub mod Probe
pub mod Retry
pub mod Verify
pub mod Sets
pub mod Agreement
pub mod Suite
pub mod Watchdog
pub mod Recovery
pub mod Slots
pub mod Seated
pub mod Host
pub mod Doctor
pub mod Report
pub mod Documented
pub mod Pinout
pub mod Bound
pub mod Printed
pub mod Verdict
