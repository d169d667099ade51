-- ===== src/Broker.antt =====
-- The hardware broker, broker/: its in-memory backend and its request handler.
pub mod Fake
pub mod Readback
pub mod Expander
pub mod Rpc
pub mod Replies
pub mod Kernel
pub mod Selects
pub mod Methods
pub mod Client
pub mod Stubs
pub mod Scan
pub mod Press
pub mod Devices
pub mod Converters
pub mod Supply
