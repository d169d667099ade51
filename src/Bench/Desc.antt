-- ===== src/Bench/Desc.antt =====
-- Bench descriptors as tools/bench.py reads them from configs/benches/. A key that a descriptor may
-- lack is an option. Sample points are in ten-thousandths, the last digit that a descriptor gives.
use ifs_hil.Prelude.{ℕ, Bool, false, List, [], ◌∷◌, Option, none, some, if◌then◌else◌}
use ifs_hil.Prelude.Text.{Text, same}
use ifs_hil.Prelude.Result.{Result, ok, err, key_error, runtime_error}

pub record Slot : Type 0 where
  pub number : ℕ
  pub dut : Option Text
  pub ina : Option ℕ

-- An entry of `routing`; a route may have no DAC.
pub record Route : Type 0 where
  pub name : Text
  pub dac : Option ℕ
  pub tca : Option ℕ
  pub port : Option ℕ

pub record CanSpec : Type 0 where
  pub role : Text
  pub dev : Text
  pub bitrate : Option ℕ
  pub sample_point : Option ℕ

-- The `expect` block.
pub record Expect : Type 0 where
  pub ina : List ℕ
  pub tca : List ℕ
  pub dac : List ℕ
  pub nrf24 : Option Bool

pub record Desc : Type 0 where
  pub id : Text
  pub capabilities : List Text
  pub base_labels : Option (List Text)
  pub slots : List Slot
  pub routing : List Route
  pub can : List CanSpec
  pub expect : Option Expect

abbrev pub has_dut : Text → Slot → Bool
has_dut dut s = elim s.dut [ none ↦ false | some d ↦ same d dut ]

-- `slot_for_dut`, on the slots in sorted order.
unfoldable pub slot_for_dut : Text → List Slot → Result ℕ
slot_for_dut dut [] = err key_error
slot_for_dut dut (s ∷ slots) = if has_dut dut s then ok s.number else slot_for_dut dut slots

abbrev pub find_bench : Text → List Desc → Option Desc
find_bench id [] = none
find_bench id (d ∷ ds) = if same d.id id then some d else find_bench id ds

-- `load_bench`: the argument or $HIL_BENCH, else the only bench there is. An empty name is no name.
unfoldable pub load_bench : Text → List Desc → Result Desc
load_bench (c ∷ id) benches = elim (find_bench (c ∷ id) benches) [
  | none ↦ err key_error
  | some d ↦ ok d
]
load_bench [] [] = err runtime_error
load_bench [] (d ∷ []) = ok d
load_bench [] (d ∷ e ∷ benches) = err runtime_error
