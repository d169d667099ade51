-- ===== src/Ams.antt =====
-- CAN frames of the accumulator management system, and the emulator of its slave modules:
-- tools/firmware_test/ams/can_map.py and bms_emulator.py.
pub mod Map
pub mod Telemetry
pub mod Emulator
pub mod Ids
pub mod Frames
pub mod Polling
pub mod Wiring
