-- ===== src/Flasher.antt =====
-- tools/firmware_test/flash_helper.py, the wrapper of can-flasher.
pub mod Rows
pub mod Command
pub mod Printed
pub mod Listed
