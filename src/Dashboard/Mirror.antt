-- ===== src/Dashboard/Mirror.antt =====
-- The decoders of dashboard/can_tracer.py against those of tools/firmware_test/ams/can_map.py, which
-- they copy.
use ifs_hil.Prelude.{
  ℕ, zero, suc, ◌≡◌, refl, List, [], ◌∷◌, ◌++◌, Option, none, some, if◌then◌else◌, arith, leb, ltb,
  length, true, false,
}
use ifs_hil.Prelude.Numerals.{hex_byte}
use ifs_hil.Prelude.Text.{Text, lit}
use ifs_hil.Prelude.Result.{Result, ok, err}
use ifs_hil.Ams.Telemetry.{
  FsmState, start, precharge, transition, run, charge, error, fsm_state, TelemStatus, TelemPack,
  TelemTemps, Cockpit, decode_telem_status, decode_telem_pack, decode_telem_temps,
}
use ifs_hil.Dashboard.Decode.{
  CockpitView, not_valid, is_valid, mode_name, Decoded, ams_telem_status, ams_telem_pack,
  ams_telem_temps, decode_ams, decode_cockpit_byte, fsm_name,
}

-- The name that a state has in the tracer.
abbrev pub label : ℕ → Option FsmState → Text
label raw none = lit "0x" ++ hex_byte raw
label raw (some start) = lit "Start"
label raw (some precharge) = lit "Precharge"
label raw (some transition) = lit "Transition"
label raw (some run) = lit "Run"
label raw (some charge) = lit "Charge"
label raw (some error) = lit "Error"

fsm_name-label : (n : ℕ) → fsm_name n ≡ label n (fsm_state n)
unfolding fsm_state
fsm_name-label zero = refl
fsm_name-label (suc zero) = refl
fsm_name-label (suc (suc zero)) = refl
fsm_name-label (suc (suc (suc zero))) = refl
fsm_name-label (suc (suc (suc (suc zero)))) = refl
fsm_name-label (suc (suc (suc (suc (suc zero))))) = refl
fsm_name-label (suc (suc (suc (suc (suc (suc n)))))) = refl

-- What the tracer shows for an outcome of a decoder: nothing where the decoder raises.
abbrev pub shown : {A : Type 0} → (A → Decoded) → Result A → Result (Option Decoded)
shown view (ok a) = ok (some (view a))
shown view (err e) = ok none

abbrev pub status_view : TelemStatus → Decoded
status_view s = ams_telem_status (record {
  state = label s.state s.state_name;
  ams_ok = s.ams_ok;
  module_online_mask = s.module_online_mask;
  min_cell_mv = s.min_cell_mv;
  max_cell_mv = s.max_cell_mv;
})

abbrev pub pack_view : TelemPack → Decoded
pack_view p = ams_telem_pack p.pack_voltage_mv p.filtered_ma

abbrev pub cockpit_view : Cockpit → CockpitView
cockpit_view c =
    if c.valid then is_valid c.raw (mode_name c.mode) c.tsms c.dash else not_valid c.raw

-- The tracer keeps bytes 3, 4 and 6 apart.
abbrev pub temps_view : (b3 b4 b6 : ℕ) → TelemTemps → Decoded
temps_view b3 b4 b6 t = ams_telem_temps (record {
  min_temp_c = t.min_temp_c;
  max_temp_c = t.max_temp_c;
  avg_temp_c = t.avg_temp_c;
  byte3 = b3;
  byte4 = b4;
  cockpit = cockpit_view t.cockpit;
  byte6 = b6;
  heartbeat = t.heartbeat;
})

-- The test of the length on a frame that is long enough.
leb-8 : (n : ℕ) → leb 8 (suc (suc (suc (suc (suc (suc (suc (suc n)))))))) ≡ true
leb-8 n = ground arith

ltb-8 : (n : ℕ) → ltb (suc (suc (suc (suc (suc (suc (suc (suc n)))))))) 8 ≡ false
ltb-8 n = ground arith

-- bytes[k], and 0 past the end.
abbrev pub byte_at : ℕ → List ℕ → ℕ
byte_at k [] = 0
byte_at zero (b ∷ bs) = b
byte_at (suc k) (b ∷ bs) = byte_at k bs

decode_ams-decode_telem_status :
    (bytes : List ℕ) → decode_ams 0x4A0 bytes ≡ shown status_view (decode_telem_status bytes)
unfolding decode_ams decode_telem_status
decode_ams-decode_telem_status [] = refl
decode_ams-decode_telem_status (b0 ∷ []) = refl
decode_ams-decode_telem_status (b0 ∷ b1 ∷ []) = refl
decode_ams-decode_telem_status (b0 ∷ b1 ∷ b2 ∷ []) = refl
decode_ams-decode_telem_status (b0 ∷ b1 ∷ b2 ∷ b3 ∷ []) = refl
decode_ams-decode_telem_status (b0 ∷ b1 ∷ b2 ∷ b3 ∷ b4 ∷ []) = refl
decode_ams-decode_telem_status (b0 ∷ b1 ∷ b2 ∷ b3 ∷ b4 ∷ b5 ∷ []) = refl
decode_ams-decode_telem_status (b0 ∷ b1 ∷ b2 ∷ b3 ∷ b4 ∷ b5 ∷ b6 ∷ []) = refl
decode_ams-decode_telem_status (b0 ∷ b1 ∷ b2 ∷ b3 ∷ b4 ∷ b5 ∷ b6 ∷ b7 ∷ bs) =
    rw (fsm_name-label b0, leb-8 (length bs), ltb-8 (length bs)) refl

decode_ams-decode_telem_pack :
    (bytes : List ℕ) → decode_ams 0x4A1 bytes ≡ shown pack_view (decode_telem_pack bytes)
unfolding decode_ams decode_telem_pack
decode_ams-decode_telem_pack bytes = ground arith

decode_ams-decode_telem_temps :
    (bytes : List ℕ)
    → decode_ams 0x4A2 bytes
      ≡ shown
          (temps_view (byte_at 3 bytes) (byte_at 4 bytes) (byte_at 6 bytes))
          (decode_telem_temps bytes)
unfolding decode_ams decode_telem_temps decode_cockpit_byte
decode_ams-decode_telem_temps [] = refl
decode_ams-decode_telem_temps (b0 ∷ []) = refl
decode_ams-decode_telem_temps (b0 ∷ b1 ∷ []) = refl
decode_ams-decode_telem_temps (b0 ∷ b1 ∷ b2 ∷ []) = refl
decode_ams-decode_telem_temps (b0 ∷ b1 ∷ b2 ∷ b3 ∷ []) = refl
decode_ams-decode_telem_temps (b0 ∷ b1 ∷ b2 ∷ b3 ∷ b4 ∷ []) = refl
decode_ams-decode_telem_temps (b0 ∷ b1 ∷ b2 ∷ b3 ∷ b4 ∷ b5 ∷ []) = refl
decode_ams-decode_telem_temps (b0 ∷ b1 ∷ b2 ∷ b3 ∷ b4 ∷ b5 ∷ b6 ∷ []) = refl
decode_ams-decode_telem_temps (b0 ∷ b1 ∷ b2 ∷ b3 ∷ b4 ∷ b5 ∷ b6 ∷ b7 ∷ bs) =
    rw (leb-8 (length bs), ltb-8 (length bs)) refl

-- On a frame of any length with identifier 0x4A0, 0x4A1 or 0x4A2, the tracer shows what the decoder of
-- the AMS map for that identifier returns, field by field, and nothing exactly where that decoder
-- raises; an unnamed state is shown in hexadecimal, and of a cockpit byte that is not valid only the
-- raw value.
pub decode_ams-Mirrors :
    (bytes : List ℕ)
    → (decode_ams 0x4A0 bytes ≡ shown status_view (decode_telem_status bytes))
      × (decode_ams 0x4A1 bytes ≡ shown pack_view (decode_telem_pack bytes))
      × (decode_ams 0x4A2 bytes
          ≡ shown
              (temps_view (byte_at 3 bytes) (byte_at 4 bytes) (byte_at 6 bytes))
              (decode_telem_temps bytes))
decode_ams-Mirrors bytes = (
  decode_ams-decode_telem_status bytes,
  decode_ams-decode_telem_pack bytes,
  decode_ams-decode_telem_temps bytes,
)
