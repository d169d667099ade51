-- ===== src/Dashboard.antt =====
-- The CAN tracer of the dashboard, dashboard/can_tracer.py.
pub mod Decode
pub mod Mirror
pub mod Frame
pub mod Tracer
pub mod History
pub mod Fanout
pub mod Subscribers
pub mod Web
