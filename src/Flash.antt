-- ===== src/Flash.antt =====
-- The CAN bootloader client of tools/flash.py.
pub mod Bus
pub mod Command
pub mod Session
pub mod Order
pub mod Payload
pub mod Live
pub mod Entry
