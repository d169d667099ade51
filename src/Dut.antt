-- ===== src/Dut.antt =====
-- Flashing a device under test on a bench, tools/flash_dut.py.
pub mod Target
pub mod Port
pub mod Session
pub mod Pins
pub mod Isolation
pub mod Written
pub mod Fit
pub mod Chosen
pub mod Gates
pub mod Guards
