-- ===== src/Vcu/Torque.antt =====
-- The torque map of tools/firmware_test/vcu/can_map.py: percent conditioner and expected setpoint.
use ifs_hil.Prelude.{
  ℕ, zero, suc, ◌-◌, ◌*◌, ◌/◌, ◌≤◌, ◌≡◌, ◌↔◌, refl, ap, ltb, if◌then◌else◌, arith,
}
use ifs_hil.Prelude.Int.{ℤ, pos, negsuc, neg_ℕ, ◌≤ℤ◌}

unfoldable pub dv_conditioned_pct : ℤ → ℕ
dv_conditioned_pct (negsuc n) = 0
dv_conditioned_pct (pos n) = if ltb 100 n then 100 else n

abbrev pub dv_torque_deadband_pct : ℕ
dv_torque_deadband_pct = 10

-- The magnitude under the minus sign; `//` on these naturals is the truncated quotient.
abbrev magnitude : ℕ → ℕ
magnitude pct = pct * 240 / 90 - 2400 / 90

unfoldable pub dv_torque_nm : ℤ → ℤ
dv_torque_nm (negsuc n) = pos 0
dv_torque_nm (pos n) = if ltb n dv_torque_deadband_pct then pos 0 else neg_ℕ (magnitude n)

-- How hard the motor is driven, in Nm.
abbrev pub strength : ℤ → ℕ
strength (pos n) = 0
strength (negsuc n) = suc n

strength-neg_ℕ : (n : ℕ) → strength (neg_ℕ n) ≡ n
strength-neg_ℕ zero = refl
strength-neg_ℕ (suc n) = refl

neg_ℕ-zero : (n : ℕ) → n ≡ 0 → neg_ℕ n ≡ pos 0
neg_ℕ-zero n e = rw e

strength_closed : (n : ℕ) → strength (dv_torque_nm (pos n)) ≡ (if ltb n 10 then 0 else magnitude n)
unfolding dv_torque_nm
strength_closed n = ground (arith, strength-neg_ℕ (magnitude n))

-- The expected setpoint for a raw command: conditioned, then mapped.
abbrev pub torque_for : ℤ → ℤ
torque_for cmd = dv_torque_nm (pos (dv_conditioned_pct cmd))

-- For every integer command, the setpoint is not positive, at most 240 Nm in magnitude, and zero
-- exactly for the commands up to 10 percent.
pub dv_torque_limits :
    (cmd : ℤ)
    → (torque_for cmd ≡ neg_ℕ (strength (torque_for cmd)))
      × (strength (torque_for cmd) ≤ 240)
      × ((torque_for cmd ≡ pos 0) ↔ (cmd ≤ℤ pos 10))
unfolding dv_conditioned_pct dv_torque_nm
dv_torque_limits (negsuc k) = (refl, omega arith, (λ e. tt, λ l. refl))
dv_torque_limits (pos k) =
    let m : ℕ = magnitude (dv_conditioned_pct (pos k)) in
    (
      ground (arith, strength-neg_ℕ m),
      ground (arith, strength-neg_ℕ m),
      (
        λ e. ground (arith, strength-neg_ℕ m, ap strength e),
        λ l. ground (arith, strength-neg_ℕ m, neg_ℕ-zero m),
      ),
    )

-- A larger command never asks for less torque, over all integers.
pub dv_torque_mono : (a b : ℤ) → a ≤ℤ b → strength (torque_for a) ≤ strength (torque_for b)
unfolding dv_conditioned_pct
dv_torque_mono a b h =
    ground (arith, strength_closed (dv_conditioned_pct a), strength_closed (dv_conditioned_pct b))
