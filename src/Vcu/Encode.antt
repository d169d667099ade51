-- ===== src/Vcu/Encode.antt =====
-- The encoders of tools/firmware_test/vcu/can_map.py. Counters, states and volts are natural
-- numbers; what a caller may give as a negative number is an integer.
use ifs_hil.Prelude.{ℕ, ◌*◌, ◌/◌, ◌%◌, ◌^◌, Bool, List, [], ◌∷◌, ltb, if◌then◌else◌, set}
use ifs_hil.Prelude.Int.{ℤ, pos, negsuc, wrap, add_ℕ}
use ifs_hil.Prelude.Bytes.{to_le}
use ifs_hil.Prelude.Result.{Result, ok, err, overflow_error}
use ifs_hil.Vcu.Crc.{e2e_frame}

unfoldable pub encode_inv_state2 : ℕ → ℕ → ℕ → List ℕ
unfolding e2e_frame
encode_inv_state2 inv_state cnt data_id =
    e2e_frame 7 cnt data_id (λ buf. set buf 4 (inv_state % 16))

unfoldable pub encode_inv_state7 : ℕ → ℕ → ℕ → List ℕ
unfolding e2e_frame
encode_inv_state7 dc_bus_v cnt data_id =
    e2e_frame 6 cnt data_id
      (λ buf. let v = dc_bus_v % 65536 in set (set buf 2 (v % 256)) 3 (v / 256 % 256))

unfoldable pub encode_inv_rpm : ℤ → List ℕ
encode_inv_rpm rpm =
    let raw = wrap (2 ^ 20) rpm in
    0 ∷ 0 ∷ 0 ∷ 0 ∷ 0 ∷ (raw % 16 * 16) ∷ (raw / 16 % 256) ∷ (raw / 4096 % 256) ∷ []

unfoldable pub encode_inv_temps : ℤ → ℤ → ℤ → ℤ → List ℕ
encode_inv_temps board pwrstg motor1 motor2 =
    wrap 256 (add_ℕ board 50)
    ∷ wrap 256 (add_ℕ pwrstg 50)
    ∷ wrap 256 (add_ℕ motor1 50)
    ∷ wrap 256 (add_ℕ motor2 50)
    ∷ []

-- `to_bytes(4, "little", signed=True)` refuses what 32 bits do not hold.
abbrev pub fits_s32 : ℤ → Bool
fits_s32 (pos n) = ltb n (2 ^ 31)
fits_s32 (negsuc n) = ltb n (2 ^ 31)

unfoldable pub encode_udv_torque : ℤ → Result (List ℕ)
encode_udv_torque pct =
    if fits_s32 pct then ok (to_le 4 (wrap (2 ^ 32) pct)) else err overflow_error

unfoldable pub encode_udv_r2d : ℤ → List ℕ
encode_udv_r2d request = wrap 256 request ∷ []
