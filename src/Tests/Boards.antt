-- ===== src/Tests/Boards.antt =====
-- The devices of the broker's managers, broker/bus.py and broker/fake_bus.py, at concrete values.
use ifs_hil.Prelude.{
  ℕ, ◌*◌, ◌-◌, ◌≡◌, refl, true, false, List, [], ◌∷◌, map, Option, none, some, All, arith,
}
use ifs_hil.Prelude.Int.{ℤ, pos}
use ifs_hil.Prelude.Bytes.{bit}
use ifs_hil.Dashboard.Web.Register.{coils}
use ifs_hil.Bench.Slots.{ina_for_slot, probe_from, probe_slots}
use ifs_hil.Bench.Seated.{AreMeasured, probe_slots-Restores}
use ifs_hil.Prelude.Result.{Result, ok, err, key_error}
use ifs_hil.Broker.Expander.{chip_write_pin}
use ifs_hil.Broker.Fake.{Fake, two}
use ifs_hil.Broker.Fake
use ifs_hil.Broker.Devices
use ifs_hil.Broker.Devices.{Devices}
use ifs_hil.Broker.Devices.Shown.{
  TcaCall, set_direction, set_all_outputs, write_port, write_all, write_pin,
}
use ifs_hil.Broker.Devices.Mirrored.{run_real, run_fake, Agrees, run-Agrees}

abbrev devices : Devices (Unit {0})
devices = record {
  op_count = 0;
  tcas = (0x20, record { acks = true; regs = 9 ∷ 9 ∷ 0 ∷ 5 ∷ 0 ∷ 0 ∷ 0xFF ∷ 0xFF ∷ [] }) ∷ [];
  bus = tt;
}

abbrev memory : Fake ℕ
memory = record {
  op_count = 0;
  adc = [];
  dac = [];
  can = [];
  tca = record { addr = 0x20; outputs = two 0 5; directions = two 0xFF 0xFF } ∷ [];
  psu_on = false;
  pwr_ok = false;
}

abbrev calls : List TcaCall
calls =
    set_all_outputs 0x20
    ∷ write_pin 0x20 0 3 true
    ∷ write_all 0x77 1 2
    ∷ write_port 0x20 1 0x1FF
    ∷ set_direction 0x20 1 0x0F
    ∷ []

run-Agrees_example :
    ((run_real calls devices).0 ≡ (run_fake calls memory).0)
    × Agrees (run_real calls devices).1 (run_fake calls memory).1
    × ((Devices.tca_get_direction 0x20 1 (run_real calls devices).1).0
        ≡ (Fake.tca_get_direction 0x20 1 (run_fake calls memory).1).0)
run-Agrees_example =
    run-Agrees calls 0x20 1 devices memory
      (tt, ((omega arith, omega arith), (tt, (omega arith, (omega arith, tt))))) (omega arith)
      (record {
        mirrors = (
          refl,
          record {
            acks = refl;
            o0 = 0;
            o1 = 5;
            d0 = 0xFF;
            d1 = 0xFF;
            rest = (9, 9, 0, 0, refl);
            outputs = refl;
            directions = refl;
            byte0 = omega arith;
            byte1 = omega arith;
          },
          tt,
        );
        counts = refl;
      })

replies : (run_real calls devices).0 ≡ ok tt ∷ ok tt ∷ err key_error ∷ ok tt ∷ ok tt ∷ []
unfolding chip_write_pin Devices.tca_set_direction Devices.tca_set_all_outputs
    Devices.tca_write_port Devices.tca_write_all Devices.tca_write_pin
replies = refl

-- The reading of the in-memory backend, in microamperes.
abbrev microamperes : Result ℕ → Option ℤ
microamperes (ok a) = some (pos (a * 1000))
microamperes (err e) = none

abbrev current_at : ℕ → Fake ℕ → Option ℤ × Fake ℕ
current_at addr f = let r = Fake.ina_current addr f in (microamperes r.0, r.1)

current_at-keeps : (addr : ℕ) (f : Fake ℕ) → coils (current_at addr f).1 ≡ coils f
unfolding Fake.ina_current
current_at-keeps addr f = refl

probe_slots-Restores_example :
    AreMeasured current_at current_at-keeps ina_for_slot (probe_slots current_at memory).0
    × (coils (probe_slots current_at memory).1 ≡ ok 0)
    × AreMeasured current_at current_at-keeps ina_for_slot
        (probe_from current_at (some 0xFF) memory).0
    × (coils (probe_from current_at (some 0xFF) memory).1 ≡ ok 0xFF)
    × AreMeasured current_at current_at-keeps ina_for_slot (probe_from current_at none memory).0
    × ((n : ℕ) × (coils (probe_from current_at none memory).1 ≡ ok n)
        × All (λ p. bit n (p.0 - 1) ≡ true) ina_for_slot)
probe_slots-Restores_example =
    probe_slots-Restores current_at current_at-keeps 0 0xFF memory refl (omega arith) (omega arith)

probed : map (λ s. s.populated) (probe_slots current_at memory).0 ≡ true ∷ true ∷ true ∷ true ∷ []
unfolding probe_slots probe_from Fake.ina_current Fake.tca_read_port Fake.tca_set_direction
    Fake.tca_write_pin Fake.tca_write_port
probed = refl
