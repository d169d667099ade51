-- ===== src/Drivers/Dac.antt =====
-- The converter DAC80504 of tools/dac80504.py. Voltages are of any type, with the code of a clamped
-- voltage and the voltage of a code as parameters, which are Python's floats in the source.
use ifs_hil.Prelude.{
  ℕ, zero, suc, ◌+◌, ◌*◌, ◌/◌, ◌%◌, ◌<◌, Bool, true, false, List, [], ◌∷◌, ◌^◌, ltb, if◌then◌else◌,
}
use ifs_hil.Prelude.Result.{Result, ok, err, value_error, index, ◌>>=◌}
use ifs_hil.Drivers.{Chip, Line, xfer2, select_low, select_high, set_line_mode}
pub mod Readback

abbrev pub reg_noop : ℕ
reg_noop = 0x00

abbrev pub reg_devid : ℕ
reg_devid = 0x01

abbrev pub reg_sync : ℕ
reg_sync = 0x02

abbrev pub reg_config : ℕ
reg_config = 0x03

abbrev pub reg_gain : ℕ
reg_gain = 0x04

abbrev pub reg_trigger : ℕ
reg_trigger = 0x05

abbrev pub dac_regs : List ℕ
dac_regs = 0x08 ∷ 0x09 ∷ 0x0A ∷ 0x0B ∷ []

-- (resp[1] << 8) | resp[2], where the low part is a byte.
abbrev pub word_of : List ℕ → Result ℕ
word_of resp = index resp 1 >>= λ high. index resp 2 >>= λ low. ok (high * 256 + low)

-- The channel is not negative, and its register.
abbrev pub channel_reg : ℕ → Result ℕ
channel_reg channel = if ltb 3 channel then err value_error else index dac_regs channel

module _ {S : Type 0} (device : Chip S) (own_select : Bool) where
  -- `_xfer`; `own_select` is that the driver was given a pin.
  unfoldable pub xfer : List ℕ → Line S → List ℕ × Line S
  xfer pkt l =
      let direct = xfer2 device pkt l in
      let r = xfer2 device pkt (select_low (set_line_mode 1 l)) in
      if own_select then (r.0, set_line_mode l.mode (select_high r.1)) else direct

  unfoldable pub write_reg : ℕ → ℕ → Line S → Line S
  unfolding xfer
  write_reg addr d l = (xfer (addr % 16 ∷ d / 256 % 256 ∷ d % 256 ∷ []) l).1

  unfoldable pub read_reg : ℕ → Line S → Result ℕ × Line S
  unfolding xfer
  read_reg addr l =
      let asked = xfer ((0x80 + addr % 16) ∷ 0x00 ∷ 0x00 ∷ []) l in
      let r = xfer (reg_noop ∷ 0x00 ∷ 0x00 ∷ []) asked.1 in (word_of r.0, r.1)

  unfoldable pub init : Line S → Line S
  unfolding write_reg
  init l = write_reg reg_gain 0x010F (write_reg reg_sync 0x0000 (write_reg reg_config 0x0100 l))

  unfoldable pub read_device_id : Line S → Result ℕ × Line S
  unfolding read_reg
  read_device_id l = let r = read_reg reg_devid l in (r.0 >>= λ w. ok (w % 2 ^ 14), r.1)

  unfoldable pub reset : Line S → Line S
  unfolding write_reg
  reset l = write_reg reg_trigger 0x000A l

  abbrev set_at : Result ℕ → ℕ → Line S → Result (Unit {0}) × Line S
  set_at (ok reg) code l = (ok tt, write_reg reg code l)
  set_at (err e) code l = (err e, l)

  abbrev get_at : {V : Type 0} → (ℕ → V) → Result ℕ → Line S → Result V × Line S
  get_at volts_of (ok reg) l = let r = read_reg reg l in (r.0 >>= λ w. ok (volts_of w), r.1)
  get_at volts_of (err e) l = (err e, l)

  module _ {V : Type 0} (code_of : V → ℕ) (volts_of : ℕ → V) where
    unfoldable pub set_voltage : ℕ → V → Line S → Result (Unit {0}) × Line S
    unfolding write_reg
    set_voltage channel volts l = set_at (channel_reg channel) (code_of volts) l

    unfoldable pub get_voltage : ℕ → Line S → Result V × Line S
    unfolding read_reg
    get_voltage channel l = get_at volts_of (channel_reg channel) l

    -- `set_all`; the channels are those of a range, so none is refused.
    unfoldable pub set_all : V → Line S → Line S
    unfolding set_voltage
    set_all volts l =
        (set_voltage 3 volts
          (set_voltage 2 volts (set_voltage 1 volts (set_voltage 0 volts l).1).1).1).1
