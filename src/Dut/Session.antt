-- ===== src/Dut/Session.antt =====
-- `flash` of tools/flash_dut.py: the checks before anything is energised, the session, and its `finally`.
use ifs_hil.Prelude.{
  ℕ, ◌*◌, Bool, true, false, not, ◌&&◌, List, [], ◌∷◌, Option, none, some, if◌then◌else◌, ltb,
}
use ifs_hil.Prelude.Text.{Text, lit, same, is_empty}
use ifs_hil.Prelude.Result.{Result, ok, err, key_error, runtime_error, ◌>>=◌}
use ifs_hil.Bench.Desc.{Desc}
use ifs_hil.Dut.Target.{
  Profile, Version, resolve, other_dut_slots, ina_of, flash_bus, find_can, assert_flasher_recent,
  node_rows, identify,
}
use ifs_hil.Dut.Port.{
  Port, read_port, set_direction, write_pin, measure, listen, trigger, discover, write_image,
  write_port, State, Step, ◌then◌, lift, note, switch, call,
}

-- What the bench and the host answer: the checksum of the image if there is one, the version of
-- can-flasher, the broker, what the input register of the port shows, the current of the slot in microamperes by the state of the relays, the
-- lines of `discover`, and whether can-flasher writes and verifies the image.
pub record Site : Type 0 where
  pub image : Option Text
  pub version : Option Version
  pub broker : Bool
  pub call_ok : ℕ → Bool
  pub reads : Port → List Bool
  pub draws : Port → ℕ
  pub lines : List Text
  pub write_ok : Bool

-- What the checks before the session settle.
pub record Plan : Type 0 where
  pub desc : Desc
  pub profile : Profile
  pub slot : ℕ
  pub ina : ℕ
  pub others : List ℕ

abbrev pub floor_current : Profile → ℕ
floor_current p = elim p.mlc_boot_current [ none ↦ 100 | some f ↦ f ]

-- desc["can"]["acu"]["bitrate"]
abbrev pub acu_bitrate : Desc → Result ℕ
acu_bitrate desc = elim (find_can (lit "acu") desc.can) [
  | none ↦ err key_error
  | some acu ↦ elim acu.bitrate [ none ↦ err key_error | some b ↦ ok b ]
]

-- The image is there and, if a checksum is expected, has it.
abbrev pub check_image : Option Text → Text → Result (Unit {0})
check_image none expect_sha = err runtime_error
check_image (some actual) expect_sha =
    if not (is_empty expect_sha) && not (same actual expect_sha) then err runtime_error else ok tt

abbrev pub require : Bool → Result (Unit {0})
require true = ok tt
require false = err runtime_error

module _ (site : Site) (plan : Plan) where
  unfoldable pub de_energise : List ℕ → Step (Unit {0})
  de_energise [] = lift (ok tt)
  de_energise (s ∷ others) =
      call site.call_ok (write_pin s false) (switch s false) then λ _. de_energise others

  abbrev pub draws_enough : Port → Bool
  draws_enough p = not (ltb (site.draws p) (floor_current plan.profile * 1000))

  -- The supply current after the target's relay is closed.
  unfoldable pub energise : Step (Unit {0})
  energise = call site.call_ok (write_pin plan.slot true) (switch plan.slot true) then λ _.
      call site.call_ok (measure plan.ina) (λ p. p) then λ _.
      λ s. (require (draws_enough s.port), s)

  -- Trigger, discovery and the identity gate; neither silence nor a failed trigger is fatal.
  unfoldable pub into_bootloader : Step Text
  into_bootloader = note listen then λ _. note trigger then λ _.
      lift (acu_bitrate plan.desc) then λ _.
      note discover then λ _. lift (identify plan.profile.bl_product (node_rows site.lines))

  unfoldable pub write : Step Bool
  write = (λ s. note (write_image s.port) s) then λ _.
      lift (require site.write_ok) then λ _. lift (ok true)

  -- The `try` after the port has been read.
  unfoldable pub attempt : Step Bool
  attempt = call site.call_ok set_direction (λ p. record p { outputs = true }) then λ _.
      de_energise plan.others then λ _. energise then λ _. into_bootloader then λ _. write

  -- The `finally`; a call that raises there is only reported.
  unfoldable pub finish : Bool → List Bool → State → State
  finish false before s = s
  finish true before s =
      (call site.call_ok (write_port before) (λ p. record p { pins = before }) s).1

  -- With the port not read there is nothing to restore.
  unfoldable pub session : Bool → Step Bool
  session restore_relays = λ s.
      let before = site.reads s.port in
      (call site.call_ok read_port (λ p. p) then λ _.
      λ s'. let r = attempt s' in (r.0, finish restore_relays before r.1))
        s

-- The checks up to the print-out, for a dry run as well.
unfoldable pub make_plan :
    (Text → Option Profile) → List Desc → Site → (dut bench expect_sha : Text) → Result Plan
make_plan profiles benches site dut bench expect_sha = check_image site.image expect_sha >>= λ _.
    resolve profiles dut bench benches >>= λ target. flash_bus target.0 >>= λ _.
    ina_of target.0 target.2 >>= λ ina. ok (record {
      desc = target.0;
      profile = target.1;
      slot = target.2;
      ina = ina;
      others = other_dut_slots target.0 target.2;
    })

-- What follows the plan. The value is the `flashed` of the result. The guards of the dry run, one at each step of
-- the source, are one branch here.
unfoldable pub carry_out : Site → (dry restore_relays : Bool) → Plan → Step Bool
carry_out site true restore_relays plan = lift (acu_bitrate plan.desc >>= λ _. ok false)
carry_out site false restore_relays plan = lift (assert_flasher_recent site.version) then λ _.
    lift (require site.broker) then λ _. session site plan restore_relays

unfoldable pub flash :
    (Text → Option Profile)
    → List Desc
    → Site
    → (dut bench expect_sha : Text) → (dry restore_relays : Bool) → Step Bool
flash profiles benches site dut bench expect_sha dry restore_relays =
    lift (make_plan profiles benches site dut bench expect_sha)
    then carry_out site dry restore_relays
