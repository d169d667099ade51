-- ===== src/Broker/Converters.antt =====
-- The methods of `HardwareManager`, broker/bus.py, that pass a call on to a converter or the radio, and the
-- opening of the DACs at the first call that needs them. Each driver has a line of its own here, as where
-- the kernel moves the selects; that the drivers of a bus share one SPI device, where they move the selects
-- themselves, is not modelled.
use ifs_hil.Prelude.{ℕ, suc, Bool, true, false, List, [], ◌∷◌, map, if◌then◌else◌, set}
use ifs_hil.Prelude.Result.{Result, ok, err, index, ◌>>=◌}
use ifs_hil.Drivers.{Chip, Line}
use ifs_hil.Drivers.Dac
use ifs_hil.Drivers.Adc
use ifs_hil.Drivers.Radio
pub mod Isolated

-- `dacs` are the lines that the drivers of the DACs are opened on; `opened` is that they are.
pub record Board (D A R : Type 0) : Type 0 where
  pub op_count : ℕ
  pub opened : Bool
  pub dacs : List (Line D)
  pub adcs : List (Line A)
  pub nrf : Line R

-- One of several lines; IndexError if it is not there.
abbrev pub put_line :
    {S B : Type 0} → List (Line S) → ℕ → Result B × Line S → Result B × List (Line S)
put_line ls idx (r, l) = (r, set ls idx l)

abbrev pub on_found :
    {S B : Type 0}
    → List (Line S)
    → ℕ
    → (Line S → Result B × Line S)
    → Result (Line S)
    → Result B × List (Line S)
on_found ls idx op (ok l) = put_line ls idx (op l)
on_found ls idx op (err e) = (err e, ls)

abbrev pub on_line :
    {S B : Type 0} → List (Line S) → ℕ → (Line S → Result B × Line S) → Result B × List (Line S)
on_line ls idx op = on_found ls idx op (index ls idx)

module _ {D A R : Type 0} (dac : Chip D) (own : Bool) where
  -- `_ensure_dacs`; to open a DAC is to write its registers.
  abbrev pub ensure_dacs : Board D A R → Board D A R
  ensure_dacs b =
      if b.opened then b else record b { opened = true; dacs = map (Dac.init dac own) b.dacs }

  abbrev pub dacs_after :
      {B : Type 0} → Board D A R → Result B × List (Line D) → Result B × Board D A R
  dacs_after b (r, ls) = (r, record b { op_count = suc b.op_count; dacs = ls })

  abbrev pub on_dac :
      {B : Type 0} → ℕ → (Line D → Result B × Line D) → Board D A R → Result B × Board D A R
  on_dac idx op b = let e = ensure_dacs b in dacs_after e (on_line e.dacs idx op)

  unfoldable pub dac_read_device_id : ℕ → Board D A R → Result ℕ × Board D A R
  dac_read_device_id idx = on_dac idx (Dac.read_device_id dac own)

  unfoldable pub dac_reset : ℕ → Board D A R → Result (Unit {0}) × Board D A R
  dac_reset idx = on_dac idx (λ l. (ok tt, Dac.reset dac own l))

  module _ {V : Type 0} (code_of : V → ℕ) (volts_of : ℕ → V) where
    unfoldable pub dac_set_voltage : ℕ → ℕ → V → Board D A R → Result (Unit {0}) × Board D A R
    dac_set_voltage idx channel volts =
        on_dac idx (Dac.set_voltage dac own code_of volts_of channel volts)

    unfoldable pub dac_get_voltage : ℕ → ℕ → Board D A R → Result V × Board D A R
    dac_get_voltage idx channel = on_dac idx (Dac.get_voltage dac own code_of volts_of channel)

    unfoldable pub dac_zero_all : V → ℕ → Board D A R → Result (Unit {0}) × Board D A R
    dac_zero_all zero_v idx =
        on_dac idx (λ l. (ok tt, Dac.set_all dac own code_of volts_of zero_v l))

module _ {D A R : Type 0} (adc : Chip A) (own : Bool) where
  abbrev adcs_after : {B : Type 0} → Board D A R → Result B × List (Line A) → Result B × Board D A R
  adcs_after b (r, ls) = (r, record b { op_count = suc b.op_count; adcs = ls })

  unfoldable pub adc_read : ℕ → ℕ → Board D A R → Result ℕ × Board D A R
  adc_read idx channel b = adcs_after b (on_line b.adcs idx (Adc.read_raw adc own channel false))

  unfoldable pub adc_read_all : ℕ → Board D A R → Result (List ℕ) × Board D A R
  adc_read_all idx b = adcs_after b (on_line b.adcs idx (Adc.read_all adc own))

  -- `volts` is the voltage of a reading.
  unfoldable pub adc_read_voltage :
      {V : Type 0} → (ℕ → V) → ℕ → ℕ → Board D A R → Result V × Board D A R
  adc_read_voltage volts idx channel b = adcs_after b (
      on_line b.adcs idx
        (λ l. let r = Adc.read_raw adc own channel false l in (r.0 >>= λ n. ok (volts n), r.1)))

module _ {D A R : Type 0} (radio : Chip R) (own : Bool) where
  unfoldable pub nrf_is_present : Board D A R → Result Bool × Board D A R
  nrf_is_present b =
      let r = Radio.is_present radio own b.nrf in
      (ok r.0, record b { op_count = suc b.op_count; nrf = r.1 })
