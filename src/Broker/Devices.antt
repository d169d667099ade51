-- ===== src/Broker/Devices.antt =====
-- The methods of `HardwareManager`, broker/bus.py, that count a call under the lock of a bus and pass it on
-- to a driver: the expanders over tools/tca9555.py and the monitors over tools/ina226.py.
use ifs_hil.Prelude.{
  ℕ, suc, ◌%◌, Bool, true, false, List, [], ◌∷◌, Option, none, some, if◌then◌else◌, elem, ◌==◌,
}
use ifs_hil.Prelude.Int.{ℤ}
use ifs_hil.Prelude.Result.{Result, ok, err, key_error, os_error, ◌>>=◌}
use ifs_hil.Broker.Fake.{ina_addrs}
use ifs_hil.Broker.Expander.{
  Chip, on_some, read_reg, chip_set_direction, chip_get_direction, chip_set_all, chip_write_port,
  chip_write_pin, chip_write_all, chip_read_port, chip_is_present,
}
use ifs_hil.Drivers.Monitor
use ifs_hil.Drivers.Monitor.{I2c, Snapshot}
pub mod Shown
pub mod Mirrored

-- The expanders by address; W is the rest of the I2C bus.
pub record Devices (W : Type 0) : Type 0 where
  pub op_count : ℕ
  pub tcas : List (ℕ × Chip)
  pub bus : W

abbrev pub find_chip : ℕ → List (ℕ × Chip) → Result Chip
find_chip addr [] = err key_error
find_chip addr (p ∷ ps) = if p.0 == addr then ok p.1 else find_chip addr ps

abbrev pub set_chip : ℕ → Chip → List (ℕ × Chip) → List (ℕ × Chip)
set_chip addr c [] = []
set_chip addr c (p ∷ ps) = if p.0 == addr then (addr, c) ∷ ps else p ∷ set_chip addr c ps

-- The pair of input, output and direction registers that read_all gives.
pub record Ports6 : Type 0 where
  pub input_port0 : ℕ
  pub input_port1 : ℕ
  pub output_port0 : ℕ
  pub output_port1 : ℕ
  pub config_port0 : ℕ
  pub config_port1 : ℕ

abbrev pub chip_read_all : Chip → Option Ports6
chip_read_all c = on_some (read_reg 0 c) (λ i0. on_some (read_reg 1 c) (λ i1.
    on_some (read_reg 2 c) (λ o0. on_some (read_reg 3 c) (λ o1. on_some (read_reg 6 c) (λ c0.
      on_some (read_reg 7 c) (λ c1. some (record {
        input_port0 = i0;
        input_port1 = i1;
        output_port0 = o0;
        output_port1 = o1;
        config_port0 = c0;
        config_port1 = c1;
      })))))))

-- A transfer that is not answered raises OSError.
abbrev pub or_raise : {A : Type 0} → Option A → Result A
or_raise none = err os_error
or_raise (some a) = ok a

module _ {W : Type 0} where
  abbrev pub tick : Devices W → Devices W
  tick d = record d { op_count = suc d.op_count }

  -- A call that reads an expander.
  abbrev pub ask_tca : {A : Type 0} → ℕ → (Chip → Option A) → Devices W → Result A × Devices W
  ask_tca addr read d = (find_chip addr d.tcas >>= λ c. or_raise (read c), tick d)

  abbrev pub written : ℕ → Result Chip → Devices W → Result (Unit {0}) × Devices W
  written addr (ok c) d = (ok tt, record d { tcas = set_chip addr c d.tcas })
  written addr (err e) d = (err e, d)

  -- A call that writes one; a call that raises leaves it as it was.
  abbrev pub tell_tca : ℕ → (Chip → Option Chip) → Devices W → Result (Unit {0}) × Devices W
  tell_tca addr write d = written addr (find_chip addr d.tcas >>= λ c. or_raise (write c)) (tick d)

  unfoldable pub tca_read : ℕ → Devices W → Result Ports6 × Devices W
  tca_read addr = ask_tca addr chip_read_all

  unfoldable pub tca_is_present : ℕ → Devices W → Result Bool × Devices W
  tca_is_present addr = ask_tca addr (λ c. some (chip_is_present c))

  unfoldable pub tca_read_port : ℕ → ℕ → Devices W → Result ℕ × Devices W
  tca_read_port addr port = ask_tca addr (chip_read_port port)

  unfoldable pub tca_set_direction : ℕ → ℕ → ℕ → Devices W → Result (Unit {0}) × Devices W
  tca_set_direction addr port mask = tell_tca addr (chip_set_direction port mask)

  unfoldable pub tca_get_direction : ℕ → ℕ → Devices W → Result ℕ × Devices W
  tca_get_direction addr port = ask_tca addr (chip_get_direction port)

  unfoldable pub tca_set_all_inputs : ℕ → Devices W → Result (Unit {0}) × Devices W
  tca_set_all_inputs addr = tell_tca addr (chip_set_all 0xFF)

  unfoldable pub tca_set_all_outputs : ℕ → Devices W → Result (Unit {0}) × Devices W
  tca_set_all_outputs addr = tell_tca addr (chip_set_all 0x00)

  unfoldable pub tca_write_port : ℕ → ℕ → ℕ → Devices W → Result (Unit {0}) × Devices W
  tca_write_port addr port value = tell_tca addr (chip_write_port port value)

  unfoldable pub tca_write_all : ℕ → ℕ → ℕ → Devices W → Result (Unit {0}) × Devices W
  tca_write_all addr p0 p1 = tell_tca addr (chip_write_all p0 p1)

  unfoldable pub tca_write_pin : ℕ → ℕ → ℕ → Bool → Devices W → Result (Unit {0}) × Devices W
  tca_write_pin addr port pin value = tell_tca addr (chip_write_pin port pin value)

-- The monitors, each at its address of the bus.
module _ {W : Type 0} (i2c : ℕ → I2c W) where
  abbrev after_call : {A : Type 0} → Devices W → Result A × W → Result A × Devices W
  after_call d (r, w) = (r, record d { bus = w })

  abbrev pub ask_ina :
      {A : Type 0} → ℕ → (I2c W → W → Result A × W) → Devices W → Result A × Devices W
  ask_ina addr call d =
      if elem addr ina_addrs
      then after_call (tick d) (call (i2c addr) d.bus)
      else (err key_error, tick d)

  unfoldable pub ina_is_present : ℕ → Devices W → Result Bool × Devices W
  ina_is_present addr = ask_ina addr (λ b. Monitor.is_present b)

  unfoldable pub ina_read_manufacturer_id : ℕ → Devices W → Result ℕ × Devices W
  ina_read_manufacturer_id addr = ask_ina addr (λ b. Monitor.read_reg b 0xFE)

  unfoldable pub ina_read_die_id : ℕ → Devices W → Result ℕ × Devices W
  ina_read_die_id addr = ask_ina addr (λ b. Monitor.read_reg b 0xFF)

  module _ {V : Type 0} (volts shunt_volts amps : ℤ → V) (watts : ℕ → V) where
    unfoldable pub ina_read : ℕ → Devices W → Result (Snapshot V) × Devices W
    ina_read addr = ask_ina addr (λ b. Monitor.snapshot b volts shunt_volts amps watts)

    unfoldable pub ina_bus_voltage : ℕ → Devices W → Result V × Devices W
    ina_bus_voltage addr = ask_ina addr (λ b. Monitor.bus_voltage b volts shunt_volts amps watts)

    unfoldable pub ina_shunt_voltage : ℕ → Devices W → Result V × Devices W
    ina_shunt_voltage addr =
        ask_ina addr (λ b. Monitor.shunt_voltage b volts shunt_volts amps watts)

    unfoldable pub ina_current : ℕ → Devices W → Result V × Devices W
    ina_current addr = ask_ina addr (λ b. Monitor.current b volts shunt_volts amps watts)

    unfoldable pub ina_power : ℕ → Devices W → Result V × Devices W
    ina_power addr = ask_ina addr (λ b. Monitor.power b volts shunt_volts amps watts)
