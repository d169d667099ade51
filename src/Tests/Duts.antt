-- ===== src/Tests/Duts.antt =====
-- A flash of tools/flash_dut.py on a bench with two devices.
use ifs_hil.Prelude.{refl, true, false, [], ◌∷◌, Option, none, some, All, arith, if◌then◌else◌}
use ifs_hil.Prelude.Text.{Text, lit, same, strip, lstrip, rstrip}
use ifs_hil.Bench.Desc.{Desc, slot_for_dut, load_bench}
use ifs_hil.Dut.Target.{
  Profile, resolve, other_dut_slots, ina_of, flash_bus, assert_flasher_recent, node_rows, identify,
}
use ifs_hil.Dut.Port.{Port, State, call, ◌then◌}
use ifs_hil.Dut.Session.{
  Site, Plan, de_energise, energise, into_bootloader, write, attempt, finish, session, make_plan,
  carry_out, flash,
}
use ifs_hil.Dut.Chosen.{IsSeat, IsAlone, flash-isolates}
use ifs_hil.Dut.Guards.{IsGuarded, flash-Guarded}
use ifs_hil.Dut.Gates.{Passed, flash-Passed}

abbrev profile : Profile
profile = record { bl_node_id = 2; mlc_boot_current = none; bl_product = some (lit "IFS-AMS") }

abbrev profiles : Text → Option Profile
profiles dut = if same dut (lit "ams") then some profile else none

abbrev bench : Desc
bench = record {
  id = lit "bench-01";
  capabilities = lit "dut-ams" ∷ lit "dut-ecu" ∷ [];
  base_labels = none;
  slots =
      record { number = 1; dut = some (lit "ecu"); ina = none }
      ∷ record { number = 2; dut = some (lit "ams"); ina = some 0x41 }
      ∷ [];
  routing = [];
  can =
      record { role = lit "acu"; dev = lit "can0"; bitrate = some 500000; sample_point = none }
      ∷ [];
  expect = none;
}

abbrev site : Site
site = record {
  image = some (lit "ab");
  version = some (record { major = 2; minor = 14; patch = 0 });
  broker = true;
  call_ok = λ k. true;
  reads = λ p. p.pins;
  draws = λ p. 130000;
  lines = lit "node" ∷ lit " 0x02 IFS-AMS" ∷ [];
  write_ok = true;
}

abbrev plan : Plan
plan = record { desc = bench; profile = profile; slot = 2; ina = 0x41; others = 1 ∷ [] }

abbrev port : Port
port = record {
  pins = true ∷ false ∷ false ∷ false ∷ false ∷ false ∷ false ∷ false ∷ [];
  outputs = false;
}

abbrev start : State
start = record { port = port; calls = 0; log = [] }

flash-isolates_example :
    IsSeat (lit "ams") 2 bench.slots
    × All
        (IsAlone 2 bench.slots)
        (flash profiles (bench ∷ []) site (lit "ams") [] (lit "ab") false true start).1.log
unfolding make_plan resolve load_bench slot_for_dut ina_of flash_bus other_dut_slots same
flash-isolates_example =
    flash-isolates profiles (bench ∷ []) site (lit "ams") [] (lit "ab") false true port 0 plan
      (((omega arith, omega arith), ((omega arith, omega arith), tt)), tt) refl

flash-Passed_example : Passed site plan
unfolding make_plan resolve load_bench slot_for_dut ina_of flash_bus other_dut_slots same flash
    carry_out session attempt finish de_energise energise into_bootloader write call identify
    node_rows assert_flasher_recent ◌then◌ strip lstrip rstrip
flash-Passed_example =
    flash-Passed profiles (bench ∷ []) site (lit "ams") [] (lit "ab") true start plan refl refl

flash-Guarded_example :
    All
      (IsGuarded site plan)
      (flash profiles (bench ∷ []) site (lit "ams") [] (lit "ab") false true start).1.log
unfolding make_plan resolve load_bench slot_for_dut ina_of flash_bus other_dut_slots same
flash-Guarded_example =
    flash-Guarded profiles (bench ∷ []) site (lit "ams") [] (lit "ab") false true port 0 plan refl
