-- ===== src/Tests/Signals.antt =====
-- Frames of the vehicle control unit, tools/firmware_test/vcu/, at concrete values.
use ifs_hil.Prelude.{◌≤◌, ◌≡◌, ◌↔◌, arith}
use ifs_hil.Prelude.Int.{pos, negsuc, neg_ℕ, ◌≤ℤ◌}
use ifs_hil.Vcu.Torque.{torque_for, strength, dv_torque_limits}
use ifs_hil.Vcu.Decode.{signed_at}
use ifs_hil.Vcu.Encode.{encode_inv_rpm}
use ifs_hil.Vcu.Sim.{f_463}
use ifs_hil.Vcu.RoundTrip.{signed_at-f_463}

signed_at-f_463_example :
    (signed_at (encode_inv_rpm (negsuc 15)) 44 20 ≡ negsuc 15)
    × (signed_at (f_463 (negsuc 15) 5) 44 20 ≡ pos 65535)
signed_at-f_463_example = signed_at-f_463 (negsuc 15) 5 (omega arith)

dv_torque_limits_example :
    (torque_for (pos 55) ≡ neg_ℕ (strength (torque_for (pos 55))))
    × (strength (torque_for (pos 55)) ≤ 240)
    × ((torque_for (pos 55) ≡ pos 0) ↔ (pos 55 ≤ℤ pos 10))
dv_torque_limits_example = dv_torque_limits (pos 55)
