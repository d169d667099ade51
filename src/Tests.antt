-- ===== src/Tests.antt =====
-- Runs of the models on concrete inputs, at which the theorems' hypotheses hold.
mod Signals
mod Sessions
mod Modules
mod Benches
mod Duts
mod Requests
mod Tracers
mod Kernels
mod Converters
mod Reports
mod Dashboards
mod Emulators
mod Observers
mod Controllers
mod Boards
mod Hosts
mod Wrappers
