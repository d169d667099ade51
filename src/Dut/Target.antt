-- ===== src/Dut/Target.antt =====
-- What tools/flash_dut.py decides from the descriptor before it touches the bench.
use ifs_hil.Prelude.{
  ℕ, Bool, true, false, not, ◌&&◌, ◌||◌, List, [], ◌∷◌, ◌++◌, map, Option, none, some,
  if◌then◌else◌, keep, ◌==◌, ltb,
}
use ifs_hil.Prelude.Text.{Text, lit, same, among, contains, lower, lstrip, strip, starts_with}
use ifs_hil.Prelude.Result.{Result, ok, err, key_error, runtime_error, ◌>>=◌}
use ifs_hil.Bench.Desc.{Slot, Route, CanSpec, Desc, slot_for_dut, load_bench}

-- The entries of a DUT's profile that the flash reads; the current is in milliamperes.
pub record Profile : Type 0 where
  pub bl_node_id : ℕ
  pub mlc_boot_current : Option ℕ
  pub bl_product : Option Text

-- `resolve`, with the profiles of the DUTs that have one.
unfoldable pub resolve :
    (Text → Option Profile) → Text → Text → List Desc → Result (Desc × Profile × ℕ)
resolve profiles dut bench benches = load_bench bench benches >>= λ desc.
    if among (lit "dut-" ++ dut) desc.capabilities
    then elim (profiles dut) [
      | none ↦ err runtime_error
      | some profile ↦ slot_for_dut dut desc.slots >>= λ slot. ok (desc, profile, slot)
    ]
    else err runtime_error

abbrev find_route : Text → List Route → Option Route
find_route name [] = none
find_route name (r ∷ rs) = if same r.name name then some r else find_route name rs

abbrev or_default : Option ℕ → ℕ → ℕ
or_default none d = d
or_default (some n) d = n

-- The address and the port of the expander that drives the carrier relays.
unfoldable pub carrier_power : Desc → ℕ × ℕ
carrier_power desc = elim (find_route (lit "carrier_power") desc.routing) [
  | none ↦ (0x20, 0)
  | some r ↦ (or_default r.tca 0x20, or_default r.port 0)
]

abbrev pub seats_dut : Slot → Bool
seats_dut s = elim s.dut [ none ↦ false | some d ↦ not (same d (lit "none")) ]

-- `other_dut_slots`, by number; the order in which they are switched off does not matter below.
unfoldable pub other_dut_slots : Desc → ℕ → List ℕ
other_dut_slots desc target =
    map (λ s. s.number) (keep (λ s. not (s.number == target) && seats_dut s) desc.slots)

-- INA_FOR_SLOT
abbrev ina_for_slot : ℕ → Result ℕ
ina_for_slot slot =
    if slot == 1
    then ok 0x40
    else (if slot == 2
        then ok 0x41
        else (if slot == 3 then ok 0x44 else (if slot == 4 then ok 0x45 else err key_error)))

abbrev find_slot : ℕ → List Slot → Option Slot
find_slot n [] = none
find_slot n (s ∷ slots) = if s.number == n then some s else find_slot n slots

-- The slot's own INA address, else that of INA_FOR_SLOT; an address of 0 is no address.
unfoldable pub ina_of : Desc → ℕ → Result ℕ
ina_of desc slot = elim (find_slot slot desc.slots) [
  | none ↦ ina_for_slot slot
  | some s ↦ elim s.ina [
    | none ↦ ina_for_slot slot
    | some a ↦ if a == 0 then ina_for_slot slot else ok a
  ]
]

abbrev pub find_can : Text → List CanSpec → Option CanSpec
find_can role [] = none
find_can role (c ∷ cs) = if same c.role role then some c else find_can role cs

-- `desc["can"].get("bms_bl", desc["can"]["acu"])["dev"]`: the entry of `acu` is looked up first.
unfoldable pub flash_bus : Desc → Result Text
flash_bus desc = elim (find_can (lit "acu") desc.can) [
  | none ↦ err key_error
  | some acu ↦ elim (find_can (lit "bms_bl") desc.can) [ none ↦ ok acu.dev | some bl ↦ ok bl.dev ]
]

pub record Version : Type 0 where
  pub major : ℕ
  pub minor : ℕ
  pub patch : ℕ

-- `got < MIN_FLASHER`, in the order of tuples, for 2.8.0.
abbrev pub is_old : Version → Bool
is_old v = ltb v.major 2 || (v.major == 2 && (ltb v.minor 8 || (v.minor == 8 && ltb v.patch 0)))

-- `_assert_flasher_recent`, on the version that can-flasher gives of itself.
unfoldable pub assert_flasher_recent : Option Version → Result Version
assert_flasher_recent none = err runtime_error
assert_flasher_recent (some v) = if is_old v then err runtime_error else ok v

-- The rows of `discover` that name a node.
unfoldable pub node_rows : List Text → List Text
node_rows lines = map strip (keep (λ l. starts_with (lit "0x") (lower (lstrip l))) lines)

abbrev pub is_appless : Text → Bool
is_appless row = contains (lit "no app installed") (lower row)

abbrev pub is_product : Option Text → Text → Bool
is_product none row = true
is_product (some []) row = true
is_product (some (c ∷ want)) row = contains (c ∷ want) row

-- The identity gate: exactly one node, and the expected product unless the board has no app.
unfoldable pub identify : Option Text → List Text → Result Text
identify want [] = err runtime_error
identify want (row ∷ []) =
    if is_appless row || is_product want row then ok row else err runtime_error
identify want (row ∷ other ∷ rows) = err runtime_error
