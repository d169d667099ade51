-- ===== src/Tests/Benches.antt =====
-- Benches of tools/bench.py at concrete descriptors, answers and verdicts.
use ifs_hil.Prelude.{
  ltb, ◌==◌, ◌||◌, ◌+◌, ◌-◌, ℕ, zero, suc, ◌≤◌, ◌≡◌, ◌↔◌, refl, Bool, true, false, not, ◌&&◌, List,
  [], ◌∷◌, Option, none, some, any_of, All, if◌then◌else◌,
}
use ifs_hil.Prelude.Text.{Text, lit, same, strip, split_on, lstrip, rstrip}
use ifs_hil.Bench.Desc.{Expect, Desc}
use ifs_hil.Bench.Resolve.{required, satisfies, runner_labels, resolve}
use ifs_hil.Bench.Matching.{resolve-chosen}
use ifs_hil.Bench.Probe.{
  Client, DacRead, dac_devid_expected, dac_devid_retries, retry, read_dac, probe,
}
use ifs_hil.Bench.Retry.{Answered, read_dac-settled}
use ifs_hil.Bench.Verify.{verify}
use ifs_hil.Bench.Agreement.{Agrees, verify-Agrees}
use ifs_hil.Bench.Suite.{resolve_suite, AskedFor, resolve_suite-AskedFor}
use ifs_hil.Bench.Watchdog.{Psu, watchdog}
use ifs_hil.Bench.Recovery.{is_power, is_switch, free, watch_all, watchdog-power, watchdog-Phase}

abbrev expect : Expect
expect = record { ina = 0x40 ∷ []; tca = 0x20 ∷ []; dac = 0 ∷ []; nrf24 = some false }

abbrev bench : Desc
bench = record {
  id = lit "bench-01";
  capabilities = lit "dut-ams" ∷ lit "can" ∷ [];
  base_labels = none;
  slots = record { number = 2; dut = some (lit "ams"); ina = none } ∷ [];
  routing = [];
  can =
      record { role = lit "acu"; dev = lit "can0"; bitrate = some 500000; sample_point = some 6875 }
      ∷ [];
  expect = some expect;
}

abbrev same_benches : List Desc → List Desc
same_benches ds = ds

abbrev same_names : List Text → List Text
same_names ts = ts

resolve-chosen_example :
    (satisfies (required (lit "can")) bench ≡ true)
    × All (λ c. satisfies (required (lit "can")) c ≡ true) (bench ∷ [])
unfolding resolve required runner_labels strip split_on lstrip rstrip same
resolve-chosen_example =
    resolve-chosen same_benches same_names (lit "can") [] (bench ∷ []) bench
      (lit "self-hosted" ∷ lit "hil-bench" ∷ lit "bench-01" ∷ lit "dut-ams" ∷ lit "can" ∷ [])
      (bench ∷ []) refl

-- The first read is mis-clocked, the second is right.
abbrev clocked : ℕ → Option ℕ
clocked zero = some 0x082E
clocked (suc zero) = some 0x0417
clocked (suc (suc k)) = none

abbrev settled : DacRead
settled = record { idx = 1; dev_id = 0x0417; attempts = 2; seen = 0x082E ∷ 0x0417 ∷ [] }

read_dac-settled_example :
    ((settled.dev_id ≡ dac_devid_expected) ↔ Answered clocked dac_devid_retries)
    × (settled.attempts ≤ dac_devid_retries)
unfolding read_dac retry
read_dac-settled_example = read_dac-settled 1 clocked settled refl

abbrev client : Client
client = record {
  pwr_ok = some true;
  ina_present = λ a. some true;
  tca_present = λ a. some true;
  devid = λ idx k. some 0x0417;
  nrf_present = none;
  can = record { dev = lit "can0"; bitrate = some 500000; sample_point = some 6870 } ∷ [];
}

-- The comparison of exact decimals; the float of 0.880 is farther from that of 0.875 than the tolerance.
abbrev far : ℕ → ℕ → Bool
far a b = ltb 50 (a - b + (b - a)) || (a == 8750 && b == 8800)

verify-Agrees_example :
    (verify far bench client ≡ 0)
    ↔ ((e : Expect) × (bench.expect ≡ some e) × Agrees far bench e (probe client))
verify-Agrees_example = verify-Agrees far bench client

abbrev psu : Psu
psu = record { reachable = true; off_ok = true; on_ok = true }

abbrev wedged : ℕ → Bool
wedged k = false

abbrev units : List Text
units = lit "active" ∷ []

watchdog-power_example :
    (any_of is_power (watchdog psu wedged true false units).1
      ≡ not (wedged 0) && (true && (not (wedged 1) && (not (wedged 2) && psu.reachable))))
    × (any_of is_switch (watchdog psu wedged true false units).1
        ≡ not (wedged 0)
          && (true && (not (wedged 1) && (not (wedged 2) && (psu.reachable && psu.off_ok)))))
watchdog-power_example = watchdog-power psu wedged true false units

watchdog-Phase_example : watch_all free (watchdog psu wedged true false units).1 ≡ free
watchdog-Phase_example = watchdog-Phase psu wedged true false units

abbrev suites : Text → Option (List Text)
suites name = if same name (lit "dv") then some (lit "tests/hil/vcu/test_dv.py" ∷ []) else none

resolve_suite-AskedFor_example :
    AskedFor suites (strip (lit " dv")) (lit "tests/hil/vcu/test_dv.py" ∷ [])
unfolding resolve_suite strip lstrip rstrip same
resolve_suite-AskedFor_example =
    resolve_suite-AskedFor suites (lit " dv") (lit "tests/hil/vcu/test_dv.py" ∷ []) refl
