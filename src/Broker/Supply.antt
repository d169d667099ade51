-- ===== src/Broker/Supply.antt =====
-- The supply of `HardwareManager`, broker/bus.py: the pin PSU_ON, which is low while the supply is on, and the
-- wait for PWR_OK. What PWR_OK reads, turn by turn until the deadline, is a parameter.
use ifs_hil.Prelude.{
  ℕ, zero, suc, ◌<◌, ◌≤◌, ◌≡◌, refl, Bool, true, false, List, [], ◌∷◌, if◌then◌else◌, length,
  get_elem?, some, arith,
}

pub record Supply : Type 0 where
  pub psu_on_low : Bool
  pub op_count : ℕ

-- The reads of PWR_OK while time is left, up to one that is ready.
abbrev pub reads_until : List Bool → ℕ
reads_until [] = 0
reads_until (ready ∷ later) = let rest = suc (reads_until later) in if ready then 1 else rest

-- `_psu_status_unlocked`: whether the supply is on, and the power good.
unfoldable pub psu_status : Bool → Supply → Bool × Bool
psu_status pwr_ok s = (s.psu_on_low, pwr_ok)

-- The status, the reads that were waited for, and the supply; `after` is what PWR_OK reads at the end.
unfoldable pub psu_power : Bool → List Bool → Bool → Supply → (Bool × Bool) × ℕ × Supply
unfolding psu_status
psu_power on reads after s =
    let t : Supply = record { psu_on_low = on; op_count = suc s.op_count } in
    (psu_status after t, (if on then reads_until reads else 0), t)

-- The wait is over at the first ready read, and takes all of them only if the others are not ready.
reads_until-first :
    (reads : List Bool)
    → (reads_until reads ≤ length reads)
      × ((i : ℕ) → suc i < reads_until reads → get_elem? reads i ≡ some false)
reads_until-first [] = (omega arith, λ i h. absurd (omega (arith, h)))
reads_until-first (true ∷ later) = (omega arith, λ i h. absurd (omega (arith, h)))
reads_until-first (false ∷ later) =
    let r = reads_until-first later in (omega (arith, r.0), not_first later r.1)
  where
    not_first :
        (ls : List Bool)
        → ((i : ℕ) → suc i < reads_until ls → get_elem? ls i ≡ some false)
        → (i : ℕ) → suc i < suc (reads_until ls)
        → get_elem? (false ∷ ls) i ≡ some false
    not_first ls k zero h = refl
    not_first ls k (suc i) h = k i (omega (arith, h))

-- Switching the supply sets its pin and tells it in the status. Switching it on waits for at most the reads
-- until the deadline, and past a read only if it was not ready; switching it off does not wait.
psu_power-waits :
    (on : Bool) (reads : List Bool) (after : Bool) (s : Supply)
    → ((psu_power on reads after s).0 ≡ (on, after))
      × ((psu_power on reads after s).2.psu_on_low ≡ on)
      × ((psu_power on reads after s).1 ≤ length reads)
      × ((i : ℕ) → suc i < (psu_power on reads after s).1 → get_elem? reads i ≡ some false)
      × ((psu_power false reads after s).1 ≡ 0)
unfolding psu_power psu_status
psu_power-waits true reads after s = let r = reads_until-first reads in (refl, refl, r.0, r.1, refl)
psu_power-waits false reads after s =
    (refl, refl, omega arith, (λ i h. absurd (omega (arith, h))), refl)
