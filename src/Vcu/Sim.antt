-- ===== src/Vcu/Sim.antt =====
-- The frame builders of tools/firmware_test/vcu/inverter_sim.py and ams_sim.py, and those of
-- tools/firmware_test/acu_stim.py. Arguments that the command line takes as temperatures or speeds
-- are integers, counters and states are natural numbers.
use ifs_hil.Prelude.{ℕ, zero, suc, ◌+◌, ◌/◌, ◌%◌, ◌^◌, Bool, List, [], ◌∷◌, ◌++◌, if◌then◌else◌}
use ifs_hil.Prelude.Int.{ℤ, wrap}

unfoldable pub f_461 : ℕ → ℕ → ℕ → List ℕ
f_461 state e cnt = 0 ∷ (cnt % 16) ∷ (e % 256) ∷ 0 ∷ (state % 16) ∷ 0 ∷ 0 ∷ []

unfoldable pub f_463 : ℤ → ℕ → List ℕ
f_463 rpm cnt =
    let r = wrap (2 ^ 20) rpm in
    0 ∷ (cnt % 16) ∷ 0 ∷ 0 ∷ 0 ∷ (r % 256) ∷ (r / 256 % 256) ∷ (r / 65536 % 16) ∷ []

unfoldable pub f_464 : ℤ → ℤ → ℤ → List ℕ
f_464 motor_c igbt_c air_c =
    wrap 256 motor_c ∷ wrap 256 igbt_c ∷ wrap 256 air_c ∷ 0 ∷ 0 ∷ 0 ∷ 0 ∷ 0 ∷ []

-- `x & 0xFF` and `(x >> 8) & 0xFF` of any integer are the two bytes of x modulo 65536.
unfoldable pub f_465 : ℤ → ℤ → ℕ → List ℕ
f_465 speed current cnt =
    let s = wrap 65536 speed in
    let c = wrap 65536 current in
    0 ∷ (cnt % 16) ∷ (s % 256) ∷ (s / 256) ∷ (c % 256) ∷ (c / 256) ∷ 0 ∷ 0 ∷ []

unfoldable pub f_466 : ℤ → ℕ → List ℕ
f_466 vdc cnt = let v = wrap 65536 vdc in 0 ∷ (cnt % 16) ∷ (v % 256) ∷ (v / 256) ∷ 0 ∷ 0 ∷ []

pub record Args : Type 0 where
  pub state : ℕ
  pub e : ℕ
  pub vdc : ℤ
  pub rpm : ℤ
  pub motor_temp : ℤ
  pub igbt_temp : ℤ
  pub air_temp : ℤ
  pub speed : ℤ
  pub current : ℤ

-- A frame of a round: identifier, declared length, payload.
pub record Sent : Type 0 where
  pub id : ℕ
  pub dlc : ℕ
  pub payload : List ℕ

unfoldable pub build_round : Args → ℕ → List Sent
unfolding f_461 f_463 f_464 f_465 f_466
build_round a cnt =
    record { id = 0x461; dlc = 7; payload = f_461 a.state a.e cnt }
    ∷ record { id = 0x466; dlc = 6; payload = f_466 a.vdc cnt }
    ∷ record { id = 0x463; dlc = 8; payload = f_463 a.rpm cnt }
    ∷ record { id = 0x464; dlc = 8; payload = f_464 a.motor_temp a.igbt_temp a.air_temp }
    ∷ record { id = 0x465; dlc = 8; payload = f_465 a.speed a.current cnt }
    ∷ []

-- The sending loop of `main`: the counter moves before each round.
unfoldable pub stream : ℕ → Args → ℕ → List Sent
stream zero a cnt = []
stream (suc n) a cnt = let next = (cnt + 1) % 16 in build_round a next ++ stream n a next

unfoldable pub f_4a0 : ℕ → ℕ → List ℕ
f_4a0 state session = (state % 256) ∷ 0 ∷ 0 ∷ (session % 256) ∷ 0 ∷ 0 ∷ 0 ∷ 0 ∷ []

unfoldable pub f_020 : Bool → List ℕ
f_020 is_ok = (if is_ok then 1 else 0) ∷ 0 ∷ 0 ∷ 0 ∷ 0 ∷ 0 ∷ 0 ∷ 0 ∷ []

-- `AcuStim.send_dc_bus_v`: the payload of the standard frame 0x100.
unfoldable pub dc_bus_payload : ℤ → List ℕ
dc_bus_payload volts = let v = wrap 65536 volts in (v % 256) ∷ (v / 256 % 256) ∷ []
