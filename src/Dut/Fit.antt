-- ===== src/Dut/Fit.antt =====
-- The plan of `flash` in tools/flash_dut.py, on descriptors whose slots are pins of the relay port.
use ifs_hil.Prelude.{
  ℕ, ◌≤◌, ◌≡◌, ◌≢◌, refl, sym, subst, Bool, true, false, not, ◌&&◌, List, [], ◌∷◌, ◌++◌, map,
  Option, none, some, arith, if◌then◌else◌, ==_iff, ◌==◌, keep, All, length,
}
use ifs_hil.Prelude.Text.{Text, lit, same, among}
use ifs_hil.Prelude.Result.{Result, ok, err, key_error, runtime_error, ◌>>=◌}
use ifs_hil.Bench.Desc.{Slot, Desc, load_bench, slot_for_dut, find_bench, has_dut}
use ifs_hil.Dut.Target.{Profile, other_dut_slots, seats_dut, resolve, ina_of, flash_bus}
use ifs_hil.Dut.Port.{State, Port, lift, ◌then◌}
use ifs_hil.Dut.Session.{Site, Plan, check_image, make_plan, flash, carry_out}
use ifs_hil.Dut.Isolation.{IsSafe}
use ifs_hil.Dut.Written.{carry_out-log}

-- The value, if there is one, has the property.
unfoldable pub Holds : {A : Type 0} (P : A → Type 0) → Result A → Type 0
Holds P (err e) = Unit
Holds P (ok a) = P a

module _ {A B : Type 0} (P : A → Type 0) (Q : B → Type 0) where
  pub Holds-bind :
      (r : Result A) (f : A → Result B)
      → Holds P r
      → ((a : A) → P a → Holds Q (f a))
      → Holds Q (r >>= f)
  unfolding Holds
  Holds-bind (err e) f h k = tt
  Holds-bind (ok a) f h k = k a h

pub Holds-any : {A : Type 0} (r : Result A) → Holds (λ _. Unit {0}) r
unfolding Holds
Holds-any (ok a) = tt
Holds-any (err e) = tt

-- Every slot is numbered from 1 and has its pin.
abbrev pub HasPins : ℕ → Desc → Type 0
HasPins n d = All (λ s. (1 ≤ s.number) × (s.number ≤ n)) d.slots

if-either : {A : Type 0} (P : A → Type 0) (b : Bool) (x y : A) → P x → P y → P (if b then x else y)
if-either P true x y p q = p
if-either P false x y p q = q

find_bench-Holds :
    (P : Desc → Type 0) (id : Text) (ds : List Desc)
    → All P ds
    → Holds P (elim (find_bench id ds) [ none ↦ err key_error | some d ↦ ok d ])
unfolding Holds
find_bench-Holds P id [] h = tt
find_bench-Holds P id (d ∷ ds) h =
    if-either (λ o. Holds P (elim o [ none ↦ err key_error | some e ↦ ok e ])) (same d.id id)
      (some d) _ h.0 (find_bench-Holds P id ds h.1)

load_bench-Holds :
    (P : Desc → Type 0) (id : Text) (ds : List Desc) → All P ds → Holds P (load_bench id ds)
unfolding Holds load_bench
load_bench-Holds P (c ∷ id) ds h = find_bench-Holds P (c ∷ id) ds h
load_bench-Holds P [] [] h = tt
load_bench-Holds P [] (d ∷ []) h = h.0
load_bench-Holds P [] (d ∷ e ∷ ds) h = tt

slot_for_dut-Holds :
    (P : ℕ → Type 0) (dut : Text) (slots : List Slot)
    → All (λ s. P s.number) slots
    → Holds P (slot_for_dut dut slots)
unfolding Holds slot_for_dut
slot_for_dut-Holds P dut [] h = tt
slot_for_dut-Holds P dut (s ∷ slots) h =
    if-either (Holds P) (has_dut dut s) (ok s.number) (slot_for_dut dut slots) h.0
      (slot_for_dut-Holds P dut slots h.1)

abbrev InPort : ℕ → ℕ → Type 0
InPort n slot = (1 ≤ slot) × (slot ≤ n)

abbrev Apart : ℕ → List ℕ → Type 0
Apart slot = All (λ s. (1 ≤ s) × (s ≢ slot))

other_dut_slots-Apart :
    (n target : ℕ) (slots : List Slot)
    → All (λ s. InPort n s.number) slots
    → Apart target (map (λ s. s.number) (keep (λ s. not (s.number == target) && seats_dut s) slots))
other_dut_slots-Apart n target [] h = tt
other_dut_slots-Apart n target (s ∷ slots) h =
    go (s.number == target) (seats_dut s) refl (other_dut_slots-Apart n target slots h.1)
  where
    go :
        (b c : Bool)
        → (s.number == target) ≡ b
        → Apart target
            (map (λ s. s.number) (keep (λ s. not (s.number == target) && seats_dut s) slots))
        → Apart target (
            map
              (λ s. s.number)
              (if not b && c
                then s ∷ keep (λ s. not (s.number == target) && seats_dut s) slots
                else keep (λ s. not (s.number == target) && seats_dut s) slots))
    go true c e rest = rest
    go false true e rest = ((h.0.0, λ q. cc (e, (==_iff s.number target).1 q)), rest)
    go false false e rest = rest

abbrev IsFit : ℕ → Plan → Type 0
IsFit n plan = InPort n plan.slot × Apart plan.slot plan.others

resolve-Holds :
    (n : ℕ) (profiles : Text → Option Profile) (dut bench : Text) (benches : List Desc)
    → All (HasPins n) benches
    → Holds (λ t. HasPins n t.0 × InPort n t.2) (resolve profiles dut bench benches)
unfolding resolve Holds
resolve-Holds n profiles dut bench benches h =
    Holds-bind (HasPins n) _ (load_bench bench benches) _
      (load_bench-Holds (HasPins n) bench benches h)
      (λ desc k. go desc k (among (lit "dut-" ++ dut) desc.capabilities) (profiles dut))
  where
    go :
        (desc : Desc)
        → HasPins n desc
        → (b : Bool) (o : Option Profile)
        → Holds
            (λ (t : Desc × Profile × ℕ). HasPins n t.0 × InPort n t.2)
            (if b
              then elim o [
                | none ↦ err runtime_error
                | some profile ↦ slot_for_dut dut desc.slots >>= λ slot. ok (desc, profile, slot)
              ]
              else err runtime_error)
    go desc k true none = tt
    go desc k true (some profile) =
        Holds-bind (InPort n) _ (slot_for_dut dut desc.slots) _
          (slot_for_dut-Holds (InPort n) dut desc.slots k) (λ slot i. (k, i))
    go desc k false o = tt

make_plan-Holds :
    (n : ℕ) (profiles : Text → Option Profile) (benches : List Desc) (site : Site)
    (dut bench expect_sha : Text)
    → All (HasPins n) benches
    → Holds (IsFit n) (make_plan profiles benches site dut bench expect_sha)
unfolding make_plan Holds other_dut_slots
make_plan-Holds n profiles benches site dut bench expect_sha h =
    Holds-bind _ _ (check_image site.image expect_sha) _ (Holds-any _) λ _ _.
      Holds-bind _ _ (resolve profiles dut bench benches) _
        (resolve-Holds n profiles dut bench benches h)
        λ t k. Holds-bind _ _ (flash_bus t.0) _ (Holds-any _) λ _ _.
          Holds-bind _ _ (ina_of t.0 t.2) _ (Holds-any _)
            λ _ _. (k.1, other_dut_slots-Apart n t.2 t.0.slots k.0)

-- On every outcome an image is written only while the slots of the plan are isolated.
pub flash-log :
    (profiles : Text → Option Profile) (benches : List Desc) (site : Site)
    (dut bench expect_sha : Text) (dry restore_relays : Bool) (port : Port) (calls : ℕ)
    (plan : Plan)
    → All (HasPins (length port.pins)) benches
    → make_plan profiles benches site dut bench expect_sha ≡ ok plan
    → All
        (IsSafe plan.slot plan.others)
        (flash profiles benches site dut bench expect_sha dry restore_relays
          (record { port = port; calls = calls; log = [] })).1.log
unfolding flash Holds ◌then◌
flash-log profiles benches site dut bench expect_sha dry restore_relays port calls plan wired
      planned =
    let s : State = record { port = port; calls = calls; log = [] } in
    let fit =
      subst (Holds (IsFit (length port.pins))) planned
        (make_plan-Holds (length port.pins) profiles benches site dut bench expect_sha wired) in
    subst
      (λ r.
        All (IsSafe plan.slot plan.others)
          ((lift r then carry_out site dry restore_relays) s).1.log)
      (sym planned)
      (carry_out-log site plan fit.0.0 fit.1 dry restore_relays s
        (tt, omega (arith, fit.0.0, fit.0.1)))
