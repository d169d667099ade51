-- ===== src/Vcu/Decode.antt =====
-- The decoders of tools/firmware_test/vcu/can_map.py. A frame is a list of bytes; a dict with fixed
-- keys is a record. An index past the end raises, a slice past the end is shorter.
use ifs_hil.Prelude.{
  ℕ, ◌/◌, ◌%◌, ◌^◌, Option, none, some, List, [], ◌∷◌, ltb, if◌then◌else◌, length, slice, take,
}
use ifs_hil.Prelude.Int.{ℤ, pos, signed, sub_ℕ}
use ifs_hil.Prelude.Bytes.{from_le, from_be}
use ifs_hil.Prelude.Result.{Result, ok, index, ◌>>=◌}

-- Signal of `len` bits at bit `start`, Intel byte order.
unfoldable pub unsigned_at : List ℕ → ℕ → ℕ → ℕ
unsigned_at bytes start len = from_le bytes / 2 ^ start % 2 ^ len

unfoldable pub signed_at : List ℕ → ℕ → ℕ → ℤ
unfolding unsigned_at
signed_at bytes start len = signed (2 ^ len) (unsigned_at bytes start len)

-- int.from_bytes(.., "big", signed=True) and "little"; no byte at all is 0.
abbrev pub from_be_signed : List ℕ → ℤ
from_be_signed [] = pos 0
from_be_signed (b ∷ bs) = signed (256 ^ length (b ∷ bs)) (from_be (b ∷ bs))

abbrev pub from_le_signed : List ℕ → ℤ
from_le_signed [] = pos 0
from_le_signed (b ∷ bs) = signed (256 ^ length (b ∷ bs)) (from_le (b ∷ bs))

unfoldable pub decode_heartbeat : List ℕ → ℕ
decode_heartbeat bytes = from_le (take 2 bytes)

pub record PitStatus : Type 0 where
  pub fsm_state : ℕ
  pub inv_state : ℕ
  pub flags : ℕ
  pub torque_pct : ℕ
  pub v_cell_min_mv : ℕ
  pub torque_cmd : ℤ

-- A short frame yields the first byte alone, if there is one.
pub data StatusView : Type 0 where
  short : Option ℕ → StatusView
  full : PitStatus → StatusView

abbrev pub first : List ℕ → Option ℕ
first [] = none
first (b ∷ bs) = some b

unfoldable pub decode_pit_status : List ℕ → Result StatusView
decode_pit_status bytes = if ltb (length bytes) 8 then ok (short (first bytes)) else do
  b0 ← index bytes 0
  b1 ← index bytes 1
  b2 ← index bytes 2
  b3 ← index bytes 3
  ok (
      full (record {
        fsm_state = b0;
        inv_state = b1;
        flags = b2;
        torque_pct = b3;
        v_cell_min_mv = from_be (slice 4 6 bytes);
        torque_cmd = from_be_signed (slice 6 8 bytes);
      }))

pub record PitPedals : Type 0 where
  pub apps1_raw : ℕ
  pub apps2_raw : ℕ
  pub brake_raw : ℕ
  pub apps1_pct : ℕ
  pub apps2_pct : ℕ

unfoldable pub decode_pit_pedals : List ℕ → Result PitPedals
decode_pit_pedals bytes = do
  p1 ← index bytes 6
  p2 ← index bytes 7
  ok (record {
    apps1_raw = from_be (slice 0 2 bytes);
    apps2_raw = from_be (slice 2 4 bytes);
    brake_raw = from_be (slice 4 6 bytes);
    apps1_pct = p1;
    apps2_pct = p2;
  })

pub record PitInverter : Type 0 where
  pub dc_bus_v : ℕ
  pub inv_rpm : ℤ
  pub inv_error : ℕ

unfoldable pub decode_pit_inverter : List ℕ → Result PitInverter
decode_pit_inverter bytes = do
  e ← index bytes 6
  ok (record {
    dc_bus_v = from_be (slice 0 2 bytes);
    inv_rpm = from_be_signed (slice 2 6 bytes);
    inv_error = e;
  })

pub record PitFwinfo : Type 0 where
  pub major : ℕ
  pub minor : ℕ
  pub patch : ℕ
  pub git_hash : ℕ

unfoldable pub decode_pit_fwinfo : List ℕ → Result PitFwinfo
decode_pit_fwinfo bytes = do
  a ← index bytes 0
  b ← index bytes 1
  c ← index bytes 2
  ok (record { major = a; minor = b; patch = c; git_hash = from_be (slice 3 7 bytes) })

-- 0x704: byte 4 is five task bits and three stub bits, byte 5 is packed too.
pub record PitHealth : Type 0 where
  pub free_heap : ℕ
  pub min_free_heap : ℕ
  pub task_ran_mask : ℕ
  pub stub_no_ams : ℕ
  pub stub_no_inverter : ℕ
  pub stub_start : ℕ
  pub reset_cause : ℕ
  pub stub_brake : ℕ
  pub cal_status : ℕ
  pub stub_torque_cap : ℕ
  pub boot_refused : ℕ
  pub uptime_s : ℕ
  pub last_fault : ℕ

-- `& TASK_ALL` keeps the low five bits, `>> k` and `& 1` are written as quotient and remainder.
unfoldable pub decode_pit_health : List ℕ → Result PitHealth
decode_pit_health bytes = do
  b4 ← index bytes 4
  b5 ← index bytes 5
  b6 ← index bytes 6
  b7 ← index bytes 7
  ok (record {
    free_heap = from_be (slice 0 2 bytes);
    min_free_heap = from_be (slice 2 4 bytes);
    task_ran_mask = b4 % 32;
    stub_no_ams = b4 / 32 % 2;
    stub_no_inverter = b4 / 64 % 2;
    stub_start = b4 / 128 % 2;
    reset_cause = b5 % 8;
    stub_brake = b5 / 8 % 2;
    cal_status = b5 / 16 % 4;
    stub_torque_cap = b5 / 64 % 2;
    boot_refused = b5 / 128 % 2;
    uptime_s = b6;
    last_fault = b7;
  })

-- The pressure is kept in tenths of a bar, the unit before the source multiplies by 0.1.
pub record PitBrake : Type 0 where
  pub brake_pressure_dbar : ℕ
  pub brake_pct : ℕ

unfoldable pub decode_pit_brake : List ℕ → Result PitBrake
decode_pit_brake bytes = do
  p ← index bytes 2
  ok (record { brake_pressure_dbar = from_be (slice 0 2 bytes); brake_pct = p })

pub record InvCmd : Type 0 where
  pub app_state_req : ℕ
  pub flt_clear : ℕ

unfoldable pub decode_inv_cmd : List ℕ → InvCmd
unfolding unsigned_at
decode_inv_cmd bytes = record {
  app_state_req = unsigned_at bytes 16 7;
  flt_clear = unsigned_at bytes 23 1;
}

unfoldable pub decode_inv_torque : List ℕ → ℤ
unfolding signed_at
decode_inv_torque bytes = signed_at bytes 16 16

pub record PitTemps : Type 0 where
  pub temp_board : ℤ
  pub temp_pwrstg : ℤ
  pub temp_motor1 : ℤ
  pub temp_motor2 : ℤ

unfoldable pub decode_pit_temps : List ℕ → Result PitTemps
decode_pit_temps bytes = do
  a ← index bytes 0
  b ← index bytes 1
  c ← index bytes 2
  d ← index bytes 3
  ok (record {
    temp_board = sub_ℕ a 50;
    temp_pwrstg = sub_ℕ b 50;
    temp_motor1 = sub_ℕ c 50;
    temp_motor2 = sub_ℕ d 50;
  })

unfoldable pub decode_ts_active : List ℕ → Result ℕ
decode_ts_active bytes = index bytes 0

unfoldable pub decode_brake_over : List ℕ → Result ℕ
decode_brake_over bytes = index bytes 0

unfoldable pub decode_motor_rpm : List ℕ → ℤ
decode_motor_rpm bytes = from_le_signed (slice 0 4 bytes)

unfoldable pub decode_r2d_confirm : List ℕ → Result ℕ
decode_r2d_confirm bytes = index bytes 0
