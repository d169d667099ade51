-- ===== src/Dashboard/Decode.antt =====
-- The decoders of dashboard/can_tracer.py, and the texts that it makes of a frame.
use ifs_hil.Prelude.{
  ℕ, zero, suc, ◌+◌, ◌*◌, ◌/◌, ◌%◌, Bool, not, ◌&&◌, List, [], ◌∷◌, ◌++◌, Option, none, some, ltb,
  leb, ◌==◌, if◌then◌else◌, length, slice,
}
use ifs_hil.Prelude.Int.{ℤ, pos, sub_ℕ}
use ifs_hil.Prelude.Bytes.{from_le, bit}
use ifs_hil.Prelude.Numerals.{hex_byte, hex_wide}
use ifs_hil.Prelude.Text.{Text, lit}
use ifs_hil.Prelude.Result.{Result, ok, index, ◌>>=◌}
use ifs_hil.Vcu.Decode.{from_le_signed}

abbrev pub fsm_name : ℕ → Text
fsm_name zero = lit "Start"
fsm_name (suc zero) = lit "Precharge"
fsm_name (suc (suc zero)) = lit "Transition"
fsm_name (suc (suc (suc zero))) = lit "Run"
fsm_name (suc (suc (suc (suc zero)))) = lit "Charge"
fsm_name (suc (suc (suc (suc (suc zero))))) = lit "Error"
fsm_name (suc (suc (suc (suc (suc (suc n)))))) =
    lit "0x" ++ hex_byte (suc (suc (suc (suc (suc (suc n))))))

abbrev pub mode_name : ℕ → Text
mode_name zero = lit "Undecided"
mode_name (suc zero) = lit "Car"
mode_name (suc (suc zero)) = lit "Charger"
mode_name (suc (suc (suc n))) = lit "?"

-- The dict of the cockpit byte: a byte that is not valid has its raw value alone.
pub data CockpitView : Type 0 where
  not_valid : (raw : ℕ) → CockpitView
  is_valid : (raw : ℕ) (mode_locked : Text) (tsms dash_chg : Bool) → CockpitView

unfoldable pub decode_cockpit_byte : ℕ → CockpitView
decode_cockpit_byte b =
    if bit b 7 then is_valid b (mode_name (b / 4 % 4)) (bit b 1) (bit b 0) else not_valid b

-- `_i8`
abbrev pub i8_of : ℕ → ℤ
i8_of b = if ltb 127 b then sub_ℕ b 256 else pos b

pub record StatusShown : Type 0 where
  pub state : Text
  pub ams_ok : Bool
  pub module_online_mask : ℕ
  pub min_cell_mv : ℕ
  pub max_cell_mv : ℕ

pub record TempsShown : Type 0 where
  pub min_temp_c : ℤ
  pub max_temp_c : ℤ
  pub avg_temp_c : ℤ
  pub byte3 : ℕ
  pub byte4 : ℕ
  pub cockpit : CockpitView
  pub byte6 : ℕ
  pub heartbeat : ℕ

-- The dict of a known identifier; its "kind" is the constructor.
pub data Decoded : Type 0 where
  ams_telem_status : StatusShown → Decoded
  ams_telem_pack : (pack_voltage_mv : ℕ) (filtered_ma : ℤ) → Decoded
  ams_telem_temps : TempsShown → Decoded
  vcu_dc_bus : (dc_bus_v : ℕ) → Decoded

abbrev show_status : List ℕ → Result (Option Decoded)
show_status bytes = do
  b0 ← index bytes 0
  b1 ← index bytes 1
  b2 ← index bytes 2
  b4 ← index bytes 4
  b5 ← index bytes 5
  b6 ← index bytes 6
  b7 ← index bytes 7
  ok (
      some (
        ams_telem_status (record {
          state = fsm_name b0;
          ams_ok = not (b1 == 0);
          module_online_mask = b2;
          min_cell_mv = b4 * 256 + b5;
          max_cell_mv = b6 * 256 + b7;
        })))

abbrev show_pack : List ℕ → Result (Option Decoded)
show_pack bytes =
    ok (some (ams_telem_pack (from_le (slice 0 4 bytes)) (from_le_signed (slice 4 8 bytes))))

abbrev show_temps : List ℕ → Result (Option Decoded)
show_temps bytes = do
  b0 ← index bytes 0
  b1 ← index bytes 1
  b2 ← index bytes 2
  b3 ← index bytes 3
  b4 ← index bytes 4
  b5 ← index bytes 5
  b6 ← index bytes 6
  b7 ← index bytes 7
  ok (
      some (
        ams_telem_temps (record {
          min_temp_c = i8_of b0;
          max_temp_c = i8_of b1;
          avg_temp_c = i8_of b2;
          byte3 = b3;
          byte4 = b4;
          cockpit = decode_cockpit_byte b5;
          byte6 = b6;
          heartbeat = b7;
        })))

abbrev show_dc_bus : List ℕ → Result (Option Decoded)
show_dc_bus bytes = do
  b0 ← index bytes 0
  b1 ← index bytes 1
  ok (some (vcu_dc_bus (b0 + 256 * b1)))

unfoldable pub decode_ams : ℕ → List ℕ → Result (Option Decoded)
unfolding decode_cockpit_byte
decode_ams can_id bytes =
    let long = leb 8 (length bytes) in
    if can_id == 0x4A0 && long
    then show_status bytes
    else if can_id == 0x4A1 && long
    then show_pack bytes
    else if can_id == 0x4A2 && long
    then show_temps bytes
    else if can_id == 0x100 && leb 2 (length bytes)
    then show_dc_bus bytes
    else ok none

-- bytes.hex().upper()
abbrev pub hex_of : List ℕ → Text
hex_of [] = []
hex_of (b ∷ bs) = hex_byte b ++ hex_of bs

-- [s[i:i+4] for i in range(0, len(s), 4)]
abbrev pub by_four : Text → List Text
by_four [] = []
by_four (a ∷ []) = (a ∷ []) ∷ []
by_four (a ∷ b ∷ []) = (a ∷ b ∷ []) ∷ []
by_four (a ∷ b ∷ c ∷ []) = (a ∷ b ∷ c ∷ []) ∷ []
by_four (a ∷ b ∷ c ∷ d ∷ s) = (a ∷ b ∷ c ∷ d ∷ []) ∷ by_four s

-- " ".join(ts)
abbrev pub joined : List Text → Text
joined [] = []
joined (t ∷ []) = t
joined (t ∷ u ∷ ts) = t ++ (b' ' ∷ joined (u ∷ ts))

unfoldable pub format_data : List ℕ → Text
format_data bytes = joined (by_four (hex_of bytes))

abbrev pub id_text : Bool → ℕ → Text
id_text ext can_id = lit "0x" ++ hex_wide (if ext then 8 else 3) can_id
