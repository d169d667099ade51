-- ===== src/Lib.antt =====
-- A model of the hardware-in-the-loop bench: the tools that flash a device under test, choose, check and
-- recover a bench, and the emulated parts that the firmware talks to.
--
-- The parts and their sources:
-- * Flash models tools/flash.py. Bus is the CAN bus, with what was sent and the sequence of answers to
--   come; Command has every bl_ command; Session has the entry and `flash`. Order, Payload, Live and Entry
--   are proofs.
-- * Dut models tools/flash_dut.py, which drives the carrier relays through the broker and then runs
--   can-flasher. Target has what is decided from the descriptor, Port the relay port and the calls,
--   Session the run with its `finally`. Pins, Isolation, Written, Fit, Chosen, Gates and Guards are
--   proofs.
-- * Bench models tools/bench.py: Desc the descriptors, Resolve and Suite the routing of runs, Probe,
--   Slots and Verify the inventory, Watchdog the recovery ladder as traces of actions. Host, Doctor and
--   Report the checks of `bench doctor`, Documented what they ask of a host in the words of the shell.
--   Matching, Retry, Seated, Pinout, Bound, Sets, Agreement, Recovery, Printed and Verdict are proofs. Dut
--   uses the descriptors of Bench.
-- * Vcu models tools/firmware_test/vcu/: Decode, Encode, Crc and Torque are can_map.py, Sim has the frames
--   of inverter_sim.py, ams_sim.py and tools/firmware_test/acu_stim.py. Crc/Detect and RoundTrip are proofs.
-- * Ams models tools/firmware_test/ams/: Map and Telemetry are can_map.py, Emulator is bms_emulator.py.
--   Ids, Frames, Polling and Wiring are proofs.
-- * Broker models broker/: Fake is fake_bus.py, Rpc and Methods are rpc.py, bus.py is Kernel (over an
--   interface of the kernel's links), Selects, Scan, Supply, Devices (expanders and monitors) and Converters
--   (DACs, ADCs and the radio), Client is server.py, Stubs is tools/hil_client.py, Expander is
--   tools/tca9555.py, Press is tools/firmware_test/tca_pin.py. Readback, Replies, Kernel/Modes,
--   Kernel/Agrees, Client/Calls, Stubs/Served, Devices/Shown, Devices/Mirrored and Converters/Isolated
--   are proofs; Scan, Supply and Press have their own.
-- * Pico models tools/pico_ltc_emulator/host/pico_ltc_client.py; Port is its serial port and the status
--   line. Address and Restore are proofs.
-- * Dashboard models dashboard/can_tracer.py: Decode and Frame what is made of a frame, Tracer the steps of
--   the reader threads and of the clients. Mirror, History, Fanout and Subscribers are proofs. Mirror
--   compares with Ams. Web models the requests of dashboard/app.py that switch something, over
--   Broker/Fake; Web/Register and Web/Relays are proofs.
-- * Drivers models the SPI line, tools/dac80504.py in Dac, tools/mcp3208.py in Adc, tools/mcp2515.py in Can,
--   tools/nrf24l01.py in Radio and tools/ina226.py in Monitor. Dac/Readback, Can/Settles, Can/Setup,
--   Can/Buffer, Can/Loopback, Radio/Readback and Monitor/Measures are proofs, Adc has its own.
-- * Flasher models tools/firmware_test/flash_helper.py: Rows the rows of `discover` and their regular
--   expression, Command the class. Printed and Listed are proofs.
-- * Trigger models tools/flash_ams_via_trigger.py, and Kpi scripts/hil_kpi_report.py. Trigger/Ladder and
--   Kpi/Candidates are proofs.
-- * Observer models tools/firmware_test/can_observer.py; Observer/Queries has proofs.
-- * Prelude has the shared types and lemmas: tests, lists, integers, bytes, texts, results. Tests has runs
--   at concrete inputs.
--
-- Conventions. Python's functions keep their names. Exceptions are values of Prelude/Result. Integers
-- that may be negative are ℤ over the native numbers; a mask is a remainder. Texts are lists of code
-- points, with ASCII white space. Times and waits are not modelled: a time-out is an answer `quiet` in
-- the sequence of answers, and the polling loop of `bl_remote_enter` has as many turns as the clock
-- allows, a parameter. The loop that writes the image runs on the length of the image as fuel, which
-- is enough since each turn drops at least one byte; the DEVID loop runs on its own retry limit.
--
-- A program that calls others takes what they answer as streams or as a function of what was sent. The
-- threads of the tracer are a sequence of steps, each as long as the lock that it holds. What the kernel
-- and the chips promise stands in records of laws, which the tests meet with small models.
--
-- Not modelled: sockets, processes, command lines, and most printing; the pages and the polling of the
-- dashboard, and answers of the broker that are lost; an SPI device that drivers share; exceptions of
-- cansend; the firmware in C of the LTC6811 emulator; the test suites. The checksum of zlib, the JSON
-- reader and writer, floats and their comparison, can-flasher, and the answers of hardware are parameters.
pub mod Prelude
pub mod Vcu
pub mod Flash
pub mod Flasher
pub mod Ams
pub mod Bench
pub mod Dut
pub mod Tests
pub mod Broker
pub mod Pico
pub mod Dashboard
pub mod Drivers
pub mod Trigger
pub mod Kpi
pub mod Observer
