-- ===== src/Bench/Slots.antt =====
-- The deep probe of tools/bench.py, `_probe_slots`, over the in-memory backend of the broker. Currents are in
-- microamperes; the call `ina.current`, `none` where it raises, is a parameter, since the backend answers it
-- with one fixed reading.
use ifs_hil.Prelude.{ℕ, ◌-◌, Bool, true, false, List, [], ◌∷◌, Option, none, some, ltb}
use ifs_hil.Prelude.Int.{ℤ, pos, negsuc}
use ifs_hil.Prelude.Result.{Result, ok, err}
use ifs_hil.Broker.Fake.{Fake, tca_set_direction, tca_write_pin, tca_write_port, tca_read_port}

-- What is found of a slot.
pub record SlotFound : Type 0 where
  pub slot : ℕ
  pub current : Option ℤ
  pub populated : Bool

-- current is not None and current > 0.010
abbrev pub is_populated : Option ℤ → Bool
is_populated none = false
is_populated (some (pos n)) = ltb 10_000 n
is_populated (some (negsuc n)) = false

-- `_try`: an exception is None.
abbrev pub tried : {A : Type 0} → Result A → Option A
tried (ok a) = some a
tried (err e) = none

abbrev pub ina_for_slot : List (ℕ × ℕ)
ina_for_slot = (1, 0x40) ∷ (2, 0x41) ∷ (3, 0x44) ∷ (4, 0x45) ∷ []

module _ {V : Type 0} (current : ℕ → Fake V → Option ℤ × Fake V) where
  abbrev pub closed : ℕ → Fake V → Fake V
  closed slot f = (tca_write_pin 0x20 0 (slot - 1) true (tca_set_direction 0x20 0 0x00 f).1).1

  abbrev pub found_of : ℕ → Option ℤ → SlotFound
  found_of slot c = record { slot = slot; current = c; populated = is_populated c }

  abbrev pub walk : List (ℕ × ℕ) → Fake V → List SlotFound × Fake V
  walk [] f = ([], f)
  walk ((slot, ina_addr) ∷ rest) f =
      let measured = current ina_addr (closed slot f) in
      let r = walk rest measured.1 in (found_of slot measured.0 ∷ r.0, r.1)

  abbrev pub restored : Option ℕ → Fake V → Fake V
  restored none f = f
  restored (some before) f = (tca_write_port 0x20 0 before f).1

  -- What is read before is restored after the walk.
  unfoldable pub probe_from : Option ℕ → Fake V → List SlotFound × Fake V
  probe_from before f = let r = walk ina_for_slot f in (r.0, restored before r.1)

  unfoldable pub probe_slots : Fake V → List SlotFound × Fake V
  unfolding probe_from
  probe_slots f = let r = tca_read_port 0x20 0 f in probe_from (tried r.0) r.1
