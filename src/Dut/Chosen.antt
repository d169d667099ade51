-- ===== src/Dut/Chosen.antt =====
-- What tools/flash_dut.py isolates, said of the slots of the descriptor.
use ifs_hil.Prelude.{
  ℕ, ◌-◌, ◌≡◌, refl, ap, subst, ◌⊎◌, inl, inr, Bool, true, false, not, ◌&&◌, List, [], ◌∷◌, ◌++◌,
  map, Option, none, some, arith, if◌then◌else◌, ==_iff, ◌==◌, keep, All, length,
}
use ifs_hil.Prelude.Every.{All-weaken}
use ifs_hil.Prelude.Text.{Text, lit, same, same_iff, among}
use ifs_hil.Prelude.Result.{ok, err, runtime_error, ◌>>=◌}
use ifs_hil.Bench.Desc.{Slot, Desc, load_bench, slot_for_dut, has_dut}
use ifs_hil.Dut.Target.{Profile, other_dut_slots, seats_dut, resolve, ina_of, flash_bus}
use ifs_hil.Dut.Port.{
  Port, Act, read_port, set_direction, write_pin, measure, listen, trigger, discover, write_image,
  write_port, is_on,
}
use ifs_hil.Dut.Session.{Site, Plan, check_image, make_plan, flash}
use ifs_hil.Dut.Isolation.{IsSafe, Dark}
use ifs_hil.Dut.Fit.{Holds, Holds-bind, Holds-any, HasPins, flash-log}

-- A slot seats no DUT, is the target's, or has its relay open.
abbrev pub IsDark : ℕ → List Bool → Slot → Type 0
IsDark target pins s =
    (s.dut ≡ none)
    ⊎ ((s.dut ≡ some (lit "none")) ⊎ ((s.number ≡ target) ⊎ (is_on pins (s.number - 1) ≡ false)))

-- An image is written only while the pins are outputs, the target is on, and no other slot with a DUT is.
abbrev pub IsAlone : ℕ → List Slot → Act → Type 0
IsAlone target slots (write_image p) =
    (p.outputs ≡ true) × (is_on p.pins (target - 1) ≡ true) × All (IsDark target p.pins) slots
IsAlone target slots read_port = Unit
IsAlone target slots set_direction = Unit
IsAlone target slots (write_pin s v) = Unit
IsAlone target slots (measure a) = Unit
IsAlone target slots listen = Unit
IsAlone target slots trigger = Unit
IsAlone target slots discover = Unit
IsAlone target slots (write_port pins) = Unit

-- One of the slots has the number and seats the DUT.
abbrev pub IsSeat : Text → ℕ → List Slot → Type 0
IsSeat dut n [] = ⊥
IsSeat dut n (s ∷ slots) = ((s.number ≡ n) × (s.dut ≡ some dut)) ⊎ IsSeat dut n slots

is_none :
    (o : Option Text)
    → (elim o as (λ x. Bool) [ none ↦ false | some d ↦ not (same d (lit "none")) ]) ≡ false
    → (o ≡ none) ⊎ (o ≡ some (lit "none"))
is_none none h = inl refl
is_none (some d) h = inr (ap some ((same_iff d (lit "none")).0 (ground (arith, h))))

Dark-IsDark :
    (target : ℕ) (pins : List Bool) (slots : List Slot)
    → Dark pins (map (λ s. s.number) (keep (λ s. not (s.number == target) && seats_dut s) slots))
    → All (IsDark target pins) slots
Dark-IsDark target pins [] h = tt
Dark-IsDark target pins (s ∷ slots) h =
    go (s.number == target) (seats_dut s) refl refl (λ d. Dark-IsDark target pins slots d) h
  where
    go :
        (b c : Bool)
        → (s.number == target) ≡ b
        → seats_dut s ≡ c
        → (Dark pins
              (map (λ s. s.number) (keep (λ s. not (s.number == target) && seats_dut s) slots))
            → All (IsDark target pins) slots)
        → Dark pins (
            map
              (λ s. s.number)
              (if not b && c
                then s ∷ keep (λ s. not (s.number == target) && seats_dut s) slots
                else keep (λ s. not (s.number == target) && seats_dut s) slots))
        → All (IsDark target pins) (s ∷ slots)
    go true c e f rec d = (inr (inr (inl ((==_iff s.number target).0 e))), rec d)
    go false true e f rec d = (inr (inr (inr d.0)), rec d.1)
    go false false e f rec d = elim (is_none s.dut f) [
      | inl n ↦ (inl n, rec d)
      | inr n ↦ (inr (inl n), rec d)
    ]

IsSafe-IsAlone :
    (target : ℕ) (desc : Desc) (a : Act)
    → IsSafe target (other_dut_slots desc target) a
    → IsAlone target desc.slots a
unfolding IsSafe other_dut_slots
IsSafe-IsAlone target desc (write_image p) h = (h.0, h.1, Dark-IsDark target p.pins desc.slots h.2)
IsSafe-IsAlone target desc read_port h = tt
IsSafe-IsAlone target desc set_direction h = tt
IsSafe-IsAlone target desc (write_pin s v) h = tt
IsSafe-IsAlone target desc (measure a) h = tt
IsSafe-IsAlone target desc listen h = tt
IsSafe-IsAlone target desc trigger h = tt
IsSafe-IsAlone target desc discover h = tt
IsSafe-IsAlone target desc (write_port pins) h = tt

slot_for_dut-IsSeat :
    (dut : Text) (slots : List Slot) (P : ℕ → Type 0)
    → ((n : ℕ) → IsSeat dut n slots → P n)
    → Holds P (slot_for_dut dut slots)
unfolding Holds slot_for_dut
slot_for_dut-IsSeat dut [] P k = tt
slot_for_dut-IsSeat dut (s ∷ slots) P k =
    go (has_dut dut s) refl (slot_for_dut-IsSeat dut slots P (λ n h. k n (inr h)))
  where
    seated :
        (o : Option Text)
        → (elim o as (λ x. Bool) [ none ↦ false | some d ↦ same d dut ]) ≡ true
        → o ≡ some dut
    seated none h = absurd (cc h)
    seated (some d) h = ap some ((same_iff d dut).0 h)

    go :
        (b : Bool)
        → has_dut dut s ≡ b
        → Holds P (slot_for_dut dut slots)
        → Holds P (if b then ok s.number else slot_for_dut dut slots)
    go true e rest = k s.number (inl (refl, seated s.dut e))
    go false e rest = rest

-- The plan is made of the slot that seats the DUT and of the others of its descriptor.
abbrev IsChosen : Text → Plan → Type 0
IsChosen dut plan =
    (plan.others ≡ other_dut_slots plan.desc plan.slot) × IsSeat dut plan.slot plan.desc.slots

resolve-IsSeat :
    (profiles : Text → Option Profile) (dut bench : Text) (benches : List Desc)
    → Holds (λ t. IsSeat dut t.2 t.0.slots) (resolve profiles dut bench benches)
unfolding resolve Holds
resolve-IsSeat profiles dut bench benches =
    Holds-bind (λ _. Unit {0}) _ (load_bench bench benches) _ (Holds-any (load_bench bench benches))
      (λ desc _. go desc (among (lit "dut-" ++ dut) desc.capabilities) (profiles dut))
  where
    go :
        (desc : Desc) (b : Bool) (o : Option Profile)
        → Holds
            (λ (t : Desc × Profile × ℕ). IsSeat dut t.2 t.0.slots)
            (if b
              then elim o [
                | none ↦ err runtime_error
                | some profile ↦ slot_for_dut dut desc.slots >>= λ slot. ok (desc, profile, slot)
              ]
              else err runtime_error)
    go desc true none = tt
    go desc true (some profile) =
        Holds-bind (λ n. IsSeat dut n desc.slots) _ (slot_for_dut dut desc.slots) _
          (slot_for_dut-IsSeat dut desc.slots _ (λ n h. h)) (λ slot h. h)
    go desc false o = tt

make_plan-IsChosen :
    (profiles : Text → Option Profile) (benches : List Desc) (site : Site)
    (dut bench expect_sha : Text)
    → Holds (IsChosen dut) (make_plan profiles benches site dut bench expect_sha)
unfolding make_plan Holds
make_plan-IsChosen profiles benches site dut bench expect_sha =
    Holds-bind _ _ (check_image site.image expect_sha) _ (Holds-any _) λ _ _.
      Holds-bind _ _ (resolve profiles dut bench benches) _
        (resolve-IsSeat profiles dut bench benches)
        λ t k.
          Holds-bind _ _ (flash_bus t.0) _ (Holds-any _)
            λ _ _. Holds-bind _ _ (ina_of t.0 t.2) _ (Holds-any _) λ _ _. (refl, k)

-- On descriptors that number their slots from 1 to the pins of the relay port, whatever the broker, the
-- bus and can-flasher answer, and on every outcome: the target is a slot of the descriptor that seats the DUT, and an
-- image is written only while the port's pins are outputs, the target's relay is closed, and the relay of every other
-- slot of the descriptor is open, unless the slot names no DUT, or "none".
pub flash-isolates :
    (profiles : Text → Option Profile) (benches : List Desc) (site : Site)
    (dut bench expect_sha : Text) (dry restore_relays : Bool) (port : Port) (calls : ℕ)
    (plan : Plan)
    → All (HasPins (length port.pins)) benches
    → make_plan profiles benches site dut bench expect_sha ≡ ok plan
    → IsSeat dut plan.slot plan.desc.slots
      × All
          (IsAlone plan.slot plan.desc.slots)
          (flash profiles benches site dut bench expect_sha dry restore_relays
            (record { port = port; calls = calls; log = [] })).1.log
unfolding Holds
flash-isolates profiles benches site dut bench expect_sha dry restore_relays port calls plan wired
      planned =
    let chosen =
      subst (Holds (IsChosen dut)) planned
        (make_plan-IsChosen profiles benches site dut bench expect_sha) in
    let log =
      flash-log profiles benches site dut bench expect_sha dry restore_relays port calls plan wired
        planned in
    (
      chosen.1,
      All-weaken (IsSafe plan.slot plan.others) (IsAlone plan.slot plan.desc.slots) _
          (λ a h.
            IsSafe-IsAlone plan.slot plan.desc a (subst (λ os. IsSafe plan.slot os a) chosen.0 h))
          log,
    )
