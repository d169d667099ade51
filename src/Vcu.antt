-- ===== src/Vcu.antt =====
-- CAN frames of the vehicle control unit and of the simulators that talk to it:
-- tools/firmware_test/vcu/can_map.py, inverter_sim.py and ams_sim.py.
pub mod Decode
pub mod Encode
pub mod Crc
pub mod Torque
pub mod Sim
pub mod RoundTrip
