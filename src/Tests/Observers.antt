-- ===== src/Tests/Observers.antt =====
-- tools/firmware_test/can_observer.py, and the scan of the bus in broker/bus.py, at concrete values.
use ifs_hil.Prelude.{ℕ, ◌≡◌, refl, false, List, [], ◌∷◌, ◌++◌, none, some, elem}
use ifs_hil.Observer.{Captured, run, last, count, max_period}
use ifs_hil.Broker.Fake.{tca_addrs, ina_addrs}
use ifs_hil.Broker.Scan.{i2c_scan}

abbrev frame : ℕ → ℕ → Captured
frame t i = record { timestamp = t; can_id = i; is_extended_id = false; dlc = 1; payload = 7 ∷ [] }

-- The frame without a time stamp is given the time of its read.
abbrev capture : List Captured
capture =
    run
      ((5, some (frame 4 0x100))
        ∷ (6, none)
        ∷ (9, some (frame 8 0x200))
        ∷ (11, some (frame 10 0x100))
        ∷ (25, some (frame 0 0x100))
        ∷ [])
      []

captured_times : last 0x100 false capture ≡ some (frame 25 0x100)
unfolding run last
captured_times = refl

counted_since : count 0x100 false (some 10) capture ≡ 2
unfolding run count
counted_since = refl

longest : max_period 0x100 false none capture ≡ some 15
unfolding run max_period
longest = refl

-- The whole range has the three expanders and the four monitors.
scanned : (i2c_scan (λ a. elem a (tca_addrs ++ ina_addrs)) 0x08 0x78 0).0 ≡ tca_addrs ++ ina_addrs
unfolding i2c_scan
scanned = refl
