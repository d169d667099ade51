-- ===== src/Tests/Converters.antt =====
-- The converters of tools/dac80504.py and tools/mcp3208.py with small models of their chips.
use ifs_hil.Prelude.{
  ℕ, ◌+◌, ◌-◌, ◌*◌, ◌/◌, ◌%◌, ◌<◌, ◌≤◌, ◌≡◌, refl, ap, Bool, true, false, List, [], ◌∷◌,
  if◌then◌else◌, ltb, ◌==◌, arith,
}
use ifs_hil.Prelude.Result.{ok}
use ifs_hil.Drivers.{Chip, Line}
use ifs_hil.Drivers.Dac.{set_voltage, get_voltage}
use ifs_hil.Drivers.Dac.Readback.{IsDac, IsClean, get_voltage-set_voltage}
use ifs_hil.Broker.Converters.{Board}
use ifs_hil.Broker.Converters.Isolated.{DacCall, set_voltage as on_channel, zero_all}
use ifs_hil.Drivers.Adc.{IsAdc}

-- The registers of a converter, and the one that a read frame asked for.
record Registers : Type 0 where
  file : ℕ → ℕ
  asked : ℕ

abbrev written : ℕ → ℕ → ℕ → Registers → Registers
written a high low s = record s { file = λ b. if a == b then high * 256 + low else s.file b }

abbrev dac_chip : Chip Registers
dac_chip (a ∷ high ∷ low ∷ []) s =
    if ltb a 0x80
    then (0 ∷ (s.file s.asked / 256) ∷ (s.file s.asked % 256) ∷ [], written a high low s)
    else ([], record s { asked = a - 0x80 })
dac_chip pkt s = ([], s)

dac_chip-answers :
    (a : ℕ) (s : Registers)
    → 8 ≤ a
    → a < 12
    → (x : ℕ) × ((dac_chip (0 ∷ 0 ∷ 0 ∷ []) (dac_chip ((0x80 + a) ∷ 0 ∷ 0 ∷ []) s).1).0
        ≡ (x ∷ (s.file a / 256) ∷ (s.file a % 256) ∷ []))
dac_chip-answers a s l u =
    let read : ltb (0x80 + a) 0x80 ≡ false = ground arith in
    let back : 0x80 + a - 0x80 ≡ a = omega arith in (0, rw (read, back) refl)

dac_chip-IsDac : IsDac dac_chip (λ s a. s.file a)
dac_chip-IsDac = record {
  writes = λ a high low s l u h k. ground (arith, l, u, h, k);
  answers = dac_chip-answers;
}

abbrev dac_line : Line Registers
dac_line = record {
  chip = record { file = λ a. 0; asked = 0 };
  mode = 0;
  cs_low = false;
  frames = [];
}

-- Millivolts of a range of 3.3 V.
abbrev code_of : ℕ → ℕ
code_of mv = mv * 65535 / 3300

abbrev volts_of : ℕ → ℕ
volts_of code = code * 3300 / 65535

get_voltage-set_voltage_example :
    ((get_voltage dac_chip true code_of volts_of 2
        (set_voltage dac_chip true code_of volts_of 2 1650 dac_line).1).0
      ≡ ok (volts_of (code_of 1650)))
    × IsClean true dac_line
        (get_voltage dac_chip true code_of volts_of 2
          (set_voltage dac_chip true code_of volts_of 2 1650 dac_line).1).1
get_voltage-set_voltage_example =
    get_voltage-set_voltage dac_chip (λ s a. s.file a) true code_of volts_of 2 1650 dac_line
      dac_chip-IsDac (omega arith) (omega arith)

-- A converter with one level on channel 5 and none on the others.
abbrev converts : Bool → ℕ → ℕ → ℕ
converts differential c level = if c == 5 then level % 4096 else 0

abbrev adc_chip : Chip ℕ
adc_chip (b0 ∷ b1 ∷ z ∷ []) level = (
  0
      ∷ (converts false (4 * (b0 % 2) + b1 / 64) level / 256)
      ∷ (converts false (4 * (b0 % 2) + b1 / 64) level % 256)
      ∷ [],
  level,
)
adc_chip pkt level = ([], level)

adc_chip-answers :
    (differential : Bool) (d2 d10 level : ℕ)
    → d2 < 2
    → d10 < 4
    → (x : ℕ) × (y : ℕ) × ((adc_chip
          ((4 + 2 * (if differential then 0 else 1) + d2) ∷ (d10 * 64) ∷ 0 ∷ [])
          level).0
        ≡ (x
            ∷ (y * 16 + converts differential (4 * d2 + d10) level / 256)
            ∷ (converts differential (4 * d2 + d10) level % 256)
            ∷ []))
adc_chip-answers differential d2 d10 level h k =
    let top : (4 + 2 * (if differential then 0 else 1) + d2) % 2 ≡ d2 = ground (arith, h) in
    let rest : d10 * 64 / 64 ≡ d10 = omega arith in
    (
      0,
      0,
      rw (top, rest)
          (ap (λ n. 0 ∷ n ∷ (converts differential (4 * d2 + d10) level % 256) ∷ []) (omega arith)),
    )

adc_chip-IsAdc : IsAdc adc_chip converts
adc_chip-IsAdc = record { width = λ differential c level. ground arith; answers = adc_chip-answers }

abbrev adc_line : Line ℕ
adc_line = record { chip = 3000; mode = 0; cs_low = false; frames = [] }

-- Two DACs that are not open yet.
abbrev board : Board Registers (Unit {0}) (Unit {0})
board = record {
  op_count = 0;
  opened = false;
  dacs = dac_line ∷ dac_line ∷ [];
  adcs = [];
  nrf = record { chip = tt; mode = 0; cs_low = false; frames = [] };
}

abbrev between : List (DacCall ℕ)
between = zero_all 0 ∷ on_channel 0 9 100 ∷ on_channel 7 0 100 ∷ []
