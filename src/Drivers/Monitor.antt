-- ===== src/Drivers/Monitor.antt =====
-- The power monitor INA226 of tools/ina226.py on an I2C bus whose transfers may raise. Quantities are of
-- any type; how they are made of a reading, by Python's floats in the source, is a parameter.
use ifs_hil.Prelude.{
  ℕ, zero, suc, ◌+◌, ◌-◌, ◌*◌, ◌/◌, ◌%◌, ◌<◌, ◌≡◌, ◌≢◌, ◌↔◌, ◌⊎◌, inl, inr, refl, sym, ap, ◌∙◌,
  Bool, true, false, ◌&&◌, List, [], ◌∷◌, if◌then◌else◌, ltb, ◌==◌, ==_iff, Bool-cases, arith,
}
use ifs_hil.Prelude.Int.{ℤ, pos, negsuc, InRange, wrap}
use ifs_hil.Prelude.Result.{Result, Exc, Result-cases, ok, err, os_error, ◌>>=◌}
pub mod Measures

-- smbus2: reading two bytes of a register, and writing some to one.
pub record I2c (S : Type 0) : Type 0 where
  pub read_block : ℕ → S → Result (ℕ × ℕ) × S
  pub write_block : ℕ → List ℕ → S → Result (Unit {0}) × S

-- struct.unpack(">H", raw)
abbrev pub word_of : ℕ × ℕ → ℕ
word_of (high, low) = high * 256 + low

-- raw -= 0x10000 if raw > 0x7FFF
abbrev pub signed16 : ℕ → ℤ
signed16 raw = if ltb 0x7FFF raw then negsuc (0xFFFF - raw) else pos raw

pub record Snapshot (V : Type 0) : Type 0 where
  pub bus_voltage : V
  pub shunt_voltage : V
  pub current : V
  pub power : V

-- What except OSError leaves of a call: other exceptions go on.
abbrev pub caught : {A S : Type 0} → A → Result A × S → Result A × S
caught a (ok b, s) = (ok b, s)
caught a (err os_error, s) = (ok a, s)
caught a (err e, s) = (err e, s)

-- Two calls in a row, of which the first may raise.
abbrev pub chain : {A B S : Type 0} → Result A × S → (A → S → Result B × S) → Result B × S
chain (ok a, s) f = f a s
chain (err e, s) f = (err e, s)

module _ {S : Type 0} (bus : I2c S) where
  unfoldable pub read_reg : ℕ → S → Result ℕ × S
  read_reg reg s = let r = bus.read_block reg s in (r.0 >>= λ raw. ok (word_of raw), r.1)

  unfoldable pub write_reg : ℕ → ℕ → S → Result (Unit {0}) × S
  write_reg reg value s = bus.write_block reg (value / 256 % 256 ∷ value % 256 ∷ []) s

  -- `cal` is int(0.00512 / (current_lsb * shunt_ohm)).
  unfoldable pub configure : ℕ → S → Result (Unit {0}) × S
  configure cal s = chain (write_reg 0x00 0x4527 s) (λ u t. write_reg 0x05 (cal % 0x8000) t)

  -- `__init__`
  unfoldable pub init : ℕ → S → Result (Unit {0}) × S
  unfolding configure
  init cal s = caught tt (configure cal s)

  -- The die is asked for only after the manufacturer has matched.
  unfoldable pub is_present : S → Result Bool × S
  is_present s = caught false (
      chain (read_reg 0xFE s) (λ id t.
        if id == 0x5449
        then (chain (read_reg 0xFF t) (λ die u. (ok (die == 0x2260), u)))
        else (ok false, t)))

  module _ {V : Type 0} (volts shunt_volts amps : ℤ → V) (watts : ℕ → V) where
    unfoldable pub bus_voltage : S → Result V × S
    bus_voltage s = chain (read_reg 0x02 s) (λ raw t. (ok (volts (pos raw)), t))

    unfoldable pub shunt_voltage : S → Result V × S
    shunt_voltage s = chain (read_reg 0x01 s) (λ raw t. (ok (shunt_volts (signed16 raw)), t))

    unfoldable pub current : S → Result V × S
    current s = chain (read_reg 0x04 s) (λ raw t. (ok (amps (signed16 raw)), t))

    unfoldable pub power : S → Result V × S
    power s = chain (read_reg 0x03 s) (λ raw t. (ok (watts raw), t))

    unfoldable pub snapshot : S → Result (Snapshot V) × S
    snapshot s = chain (bus_voltage s) (λ b t. chain (shunt_voltage t) (λ v u.
        chain (current u) (λ c w. chain (power w) (λ p x.
          (ok (record { bus_voltage = b; shunt_voltage = v; current = c; power = p }), x)))))
