-- ===== src/Vcu/RoundTrip.antt =====
-- What the VCU decoders read back from the encoders and from the simulators.
use ifs_hil.Prelude.{ℕ, ◌+◌, ◌*◌, ◌/◌, ◌%◌, ◌^◌, ◌<◌, ◌≡◌, refl, true, [], ◌∷◌, arith}
use ifs_hil.Prelude.Int.{ℤ, pos, negsuc, wrap, signed, add_ℕ, sub_ℕ, InRange, ◌≤ℤ◌}
use ifs_hil.Prelude.Bytes.{IsBytes, from_le, to_le}
use ifs_hil.Prelude.Result.{ok, ◌>>=◌}
use ifs_hil.Vcu.Decode.{
  unsigned_at, signed_at, decode_pit_health, PitHealth, decode_pit_temps, decode_motor_rpm,
}
use ifs_hil.Vcu.Encode.{encode_inv_rpm, encode_inv_temps, encode_udv_torque, fits_s32}
use ifs_hil.Vcu.Sim.{f_463}

module _ (r : ℕ) where
  -- The 20 bits spread over bytes 5..7 are found again at bit 44.
  rpm_bits :
      r < 1048576
      → unsigned_at
          (0 ∷ 0 ∷ 0 ∷ 0 ∷ 0 ∷ (r % 16 * 16) ∷ (r / 16 % 256) ∷ (r / 4096 % 256) ∷ [])
          44
          20
        ≡ r
  unfolding unsigned_at
  rpm_bits h = omega arith

  sim_bits :
      (c : ℕ)
      → c < 16
      → r < 1048576
      → unsigned_at (0 ∷ c ∷ 0 ∷ 0 ∷ 0 ∷ (r % 256) ∷ (r / 256 % 256) ∷ (r / 65536 % 16) ∷ []) 44 20
        ≡ r / 16
  unfolding unsigned_at
  sim_bits c h k = omega arith

wrap20-lt : (z : ℤ) → wrap 1048576 z < 1048576
wrap20-lt (pos n) = omega arith
wrap20-lt (negsuc n) = omega arith

signed-wrap20 : (z : ℤ) → InRange 1048576 z → signed 1048576 (wrap 1048576 z) ≡ z
signed-wrap20 (pos n) h = ground arith
signed-wrap20 (negsuc n) h = ground arith

-- Every speed of 20 signed bits comes back from the frame 0x463 of `encode_inv_rpm`.
signed_at-encode_inv_rpm :
    (rpm : ℤ) → InRange (2 ^ 20) rpm → signed_at (encode_inv_rpm rpm) 44 20 ≡ rpm
unfolding signed_at encode_inv_rpm
signed_at-encode_inv_rpm rpm h =
    rw (rpm_bits (wrap 1048576 rpm) (wrap20-lt rpm)) (signed-wrap20 rpm h)

low_signed : (n : ℕ) → n < 1048576 → signed 1048576 (n / 16) ≡ pos (n / 16)
low_signed n h = ground arith

-- The field of 20 signed bits at bit 44, where `encode_inv_rpm` puts the speed and which gives it back for
-- every speed that fits, holds in the simulator's frame 0x463 the low 20 bits of the speed divided by 16, rounded
-- down: never a negative number.
pub signed_at-f_463 :
    (rpm : ℤ) (cnt : ℕ)
    → InRange (2 ^ 20) rpm
    → (signed_at (encode_inv_rpm rpm) 44 20 ≡ rpm)
      × (signed_at (f_463 rpm cnt) 44 20 ≡ pos (wrap (2 ^ 20) rpm / 16))
unfolding signed_at f_463
signed_at-f_463 rpm cnt h = (
  signed_at-encode_inv_rpm rpm h,
  rw (sim_bits (wrap 1048576 rpm) (cnt % 16) (omega arith) (wrap20-lt rpm))
      (low_signed (wrap 1048576 rpm) (wrap20-lt rpm)),
)

-- The temperatures that a byte with offset 50 can hold.
abbrev pub IsTemp : ℤ → Type 0
IsTemp t = (negsuc 49 ≤ℤ t) × (t ≤ℤ pos 205)

temp_byte : (t : ℤ) → IsTemp t → sub_ℕ (wrap 256 (add_ℕ t 50)) 50 ≡ t
temp_byte (pos n) h = ground arith
temp_byte (negsuc n) h = ground arith

-- Four temperatures between -50 and 205 degrees come back from the frame, each in its place.
pub decode_pit_temps-encode :
    (a b c d : ℤ)
    → IsTemp a
    → IsTemp b
    → IsTemp c
    → IsTemp d
    → decode_pit_temps (encode_inv_temps a b c d)
      ≡ ok (record { temp_board = a; temp_pwrstg = b; temp_motor1 = c; temp_motor2 = d })
unfolding decode_pit_temps encode_inv_temps
decode_pit_temps-encode a b c d ha hb hc hd =
    rw (temp_byte a ha, temp_byte b hb, temp_byte c hc, temp_byte d hd)

wrap32-lt : (z : ℤ) → wrap 4294967296 z < 4294967296
wrap32-lt (pos n) = omega arith
wrap32-lt (negsuc n) = omega arith

signed-wrap32 : (z : ℤ) → InRange 4294967296 z → signed 4294967296 (wrap 4294967296 z) ≡ z
signed-wrap32 (pos n) h = ground arith
signed-wrap32 (negsuc n) h = ground arith

fits_s32-true : (z : ℤ) → InRange 4294967296 z → fits_s32 z ≡ true
fits_s32-true (pos n) h = ground arith
fits_s32-true (negsuc n) h = ground arith

from_le-to_le32 : (n : ℕ) → n < 4294967296 → from_le (to_le 4 n) ≡ n
from_le-to_le32 n h = omega arith

-- A torque command that fits 32 signed bits is encoded, and the little-endian signed decoder reads
-- it back unchanged.
pub decode_motor_rpm-encode :
    (pct : ℤ)
    → InRange (2 ^ 32) pct
    → (encode_udv_torque pct >>= λ bs. ok (decode_motor_rpm bs)) ≡ ok pct
unfolding encode_udv_torque decode_motor_rpm
decode_motor_rpm-encode pct h =
    rw (fits_s32-true pct h)
      (rw (from_le-to_le32 (wrap 4294967296 pct) (wrap32-lt pct)) (rw (signed-wrap32 pct h)))

-- The frame 0x704 loses nothing: bytes 4 and 5 are rebuilt from the fields read out of them, and
-- every field stays inside its width.
decode_pit_health-lossless :
    (b0 b1 b2 b3 b4 b5 b6 b7 : ℕ)
    → IsBytes (b4 ∷ b5 ∷ [])
    → (h : PitHealth) × (decode_pit_health (b0 ∷ b1 ∷ b2 ∷ b3 ∷ b4 ∷ b5 ∷ b6 ∷ b7 ∷ []) ≡ ok h)
      × (h.task_ran_mask + 32 * h.stub_no_ams + 64 * h.stub_no_inverter + 128 * h.stub_start ≡ b4)
      × (h.reset_cause
            + 8 * h.stub_brake
            + 16 * h.cal_status
            + 64 * h.stub_torque_cap
            + 128 * h.boot_refused
          ≡ b5)
      × (h.free_heap ≡ b0 * 256 + b1)
      × (h.min_free_heap ≡ b2 * 256 + b3)
      × (h.task_ran_mask < 32)
      × (h.reset_cause < 8)
      × (h.cal_status < 4)
unfolding decode_pit_health
decode_pit_health-lossless b0 b1 b2 b3 b4 b5 b6 b7 w = (
  _,
  refl,
  omega arith,
  omega arith,
  omega arith,
  omega arith,
  omega arith,
  omega arith,
  omega arith,
)
