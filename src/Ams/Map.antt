-- ===== src/Ams/Map.antt =====
-- Module addressing of tools/firmware_test/ams/can_map.py. Module and frame numbers are natural
-- numbers; the source refuses negative ones with the same error as those too large.
use ifs_hil.Prelude.{ℕ, ◌+◌, ◌*◌, ltb, if◌then◌else◌}
use ifs_hil.Prelude.Result.{Result, ok, err, value_error, ◌>>=◌}

abbrev pub num_bms_modules : ℕ
num_bms_modules = 5

abbrev pub bms_base_canid : ℕ
bms_base_canid = 0x12C

abbrev pub bms_module_stride : ℕ
bms_module_stride = 0x1E

unfoldable pub bms_canid : ℕ → Result ℕ
bms_canid m =
    if ltb m num_bms_modules then ok (bms_base_canid + m * bms_module_stride) else err value_error

unfoldable pub bms_voltage_poll_id : ℕ → Result ℕ
unfolding bms_canid
bms_voltage_poll_id m = bms_canid m

unfoldable pub bms_voltage_resp_id : ℕ → ℕ → Result ℕ
unfolding bms_canid
bms_voltage_resp_id m frame_idx =
    if ltb frame_idx 5 then (do base ← bms_canid m; ok (base + 1 + frame_idx)) else err value_error

unfoldable pub bms_temp_poll_id : ℕ → Result ℕ
unfolding bms_canid
bms_temp_poll_id m = do base ← bms_canid m; ok (base + 20)

unfoldable pub bms_temp_resp_id : ℕ → ℕ → Result ℕ
unfolding bms_canid
bms_temp_resp_id m frame_idx =
    if ltb frame_idx 5 then (do base ← bms_canid m; ok (base + 21 + frame_idx)) else err value_error

abbrev pub cells_per_module : ℕ
cells_per_module = 19

abbrev pub temps_per_module : ℕ
temps_per_module = 38

abbrev pub cells_per_frame : ℕ
cells_per_frame = 4

abbrev pub temps_per_frame : ℕ
temps_per_frame = 8
