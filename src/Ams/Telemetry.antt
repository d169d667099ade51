-- ===== src/Ams/Telemetry.antt =====
-- The telemetry decoders of tools/firmware_test/ams/can_map.py. Each refuses a short frame.
use ifs_hil.Prelude.{
  ℕ, zero, suc, ◌+◌, ◌*◌, ◌/◌, ◌%◌, ◌<◌, ◌≡◌, Bool, false, not, List, Option, none, some, ltb, ◌==◌,
  if◌then◌else◌, length, slice, arith,
}
use ifs_hil.Prelude.Int.{ℤ, pos, sub_ℕ}
use ifs_hil.Prelude.Bytes.{from_le, bit}
use ifs_hil.Prelude.Result.{Result, ok, err, value_error, index, ◌>>=◌}
use ifs_hil.Vcu.Sim.{f_4a0}
use ifs_hil.Vcu.Decode.{from_le_signed}

pub data FsmState : Type 0 where
  start precharge transition run charge error : FsmState

-- `FsmState.name`; `none` is the hexadecimal rendering of a number without a name.
unfoldable pub fsm_state : ℕ → Option FsmState
fsm_state zero = some start
fsm_state (suc zero) = some precharge
fsm_state (suc (suc zero)) = some transition
fsm_state (suc (suc (suc zero))) = some run
fsm_state (suc (suc (suc (suc zero)))) = some charge
fsm_state (suc (suc (suc (suc (suc zero))))) = some error
fsm_state (suc (suc (suc (suc (suc (suc n)))))) = none

abbrev pub bool_of : ℕ → Bool
bool_of n = not (n == 0)

pub record TelemStatus : Type 0 where
  pub state : ℕ
  pub state_name : Option FsmState
  pub ams_ok : Bool
  pub module_online_mask : ℕ
  pub min_cell_mv : ℕ
  pub max_cell_mv : ℕ

unfoldable pub decode_telem_status : List ℕ → Result TelemStatus
unfolding fsm_state
decode_telem_status bytes = if ltb (length bytes) 8 then err value_error else do
  b0 ← index bytes 0
  b1 ← index bytes 1
  b2 ← index bytes 2
  b4 ← index bytes 4
  b5 ← index bytes 5
  b6 ← index bytes 6
  b7 ← index bytes 7
  ok (record {
    state = b0;
    state_name = fsm_state b0;
    ams_ok = bool_of b1;
    module_online_mask = b2;
    min_cell_mv = b4 * 256 + b5;
    max_cell_mv = b6 * 256 + b7;
  })

pub record TelemPack : Type 0 where
  pub pack_voltage_mv : ℕ
  pub filtered_ma : ℤ

unfoldable pub decode_telem_pack : List ℕ → Result TelemPack
decode_telem_pack bytes =
    if ltb (length bytes) 8
    then err value_error
    else ok (record {
      pack_voltage_mv = from_le (slice 0 4 bytes);
      filtered_ma = from_le_signed (slice 4 8 bytes);
    })

pub record RelayStatus : Type 0 where
  pub air_negative : Bool
  pub air_positive : Bool
  pub relay_precharge : Bool
  pub relay_ams_ok : Bool

unfoldable pub decode_relay_status : List ℕ → Result RelayStatus
decode_relay_status bytes = if ltb (length bytes) 1 then err value_error else do
  b ← index bytes 0
  ok (record {
    air_negative = bit b 0;
    air_positive = bit b 1;
    relay_precharge = bit b 2;
    relay_ams_ok = bit b 3;
  })

pub record Recovery : Type 0 where
  pub busoff_recovery_count : ℕ
  pub acu_tx_fail_count : ℕ

unfoldable pub decode_fdcan1_recovery : List ℕ → Result Recovery
decode_fdcan1_recovery bytes =
    if ltb (length bytes) 8
    then err value_error
    else ok (record {
      busoff_recovery_count = from_le (slice 0 4 bytes);
      acu_tx_fail_count = from_le (slice 4 8 bytes);
    })

-- `i8`
abbrev pub i8 : ℕ → ℤ
i8 b = if ltb 127 b then sub_ℕ b 256 else pos b

pub record Cockpit : Type 0 where
  pub raw : ℕ
  pub valid : Bool
  pub mode : ℕ
  pub tsms : Bool
  pub dash : Bool

pub record TelemTemps : Type 0 where
  pub min_temp_c : ℤ
  pub max_temp_c : ℤ
  pub avg_temp_c : ℤ
  pub dc_bus_v : ℕ
  pub heartbeat : ℕ
  pub cockpit : Cockpit

unfoldable pub decode_telem_temps : List ℕ → Result TelemTemps
decode_telem_temps bytes = if ltb (length bytes) 8 then err value_error else do
  b0 ← index bytes 0
  b1 ← index bytes 1
  b2 ← index bytes 2
  b3 ← index bytes 3
  b4 ← index bytes 4
  cb ← index bytes 5
  b7 ← index bytes 7
  ok (record {
    min_temp_c = i8 b0;
    max_temp_c = i8 b1;
    avg_temp_c = i8 b2;
    dc_bus_v = b3 + 256 * b4;
    heartbeat = b7;
    cockpit = record {
      raw = cb;
      valid = bit cb 7;
      mode = cb / 4 % 4;
      tsms = bit cb 1;
      dash = bit cb 0;
    };
  })

-- The simulator of tools/firmware_test/vcu/ams_sim.py is read by the decoder as the state that was
-- asked for; every other field of the frame reads as zero, `ams_ok` included.
pub decode_telem_status-f_4a0 :
    (state session : ℕ)
    → state < 256
    → decode_telem_status (f_4a0 state session)
      ≡ ok (record {
        state = state;
        state_name = fsm_state state;
        ams_ok = false;
        module_online_mask = 0;
        min_cell_mv = 0;
        max_cell_mv = 0;
      })
unfolding decode_telem_status f_4a0
decode_telem_status-f_4a0 state session h = let same : state % 256 ≡ state = omega arith in rw same
