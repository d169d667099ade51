-- ===== src/Dut/Guards.antt =====
-- The gates that `flash` of tools/flash_dut.py passes before it touches the bench, and before it writes.
use ifs_hil.Prelude.{
  ◌≡◌, refl, sym, subst, Bool, true, false, List, [], ◌∷◌, Option, some, All, if◌then◌else◌,
  Bool-cases, inl, inr, ℕ,
}
use ifs_hil.Prelude.Text.{Text}
use ifs_hil.Prelude.Result.{Result, ok, err, ◌>>=◌}
use ifs_hil.Bench.Desc.{Desc}
use ifs_hil.Dut.Target.{Profile, Version, assert_flasher_recent, identify, node_rows}
use ifs_hil.Dut.Port.{
  Port, Act, read_port, set_direction, write_pin, measure, listen, trigger, discover, write_image,
  write_port, State, Step, ◌then◌, continue, lift, note, switch, call,
}
use ifs_hil.Dut.Pins.{All-snoc}
use ifs_hil.Dut.Session.{
  Site, Plan, acu_bitrate, require, de_energise, energise, into_bootloader, write, attempt, finish,
  session, make_plan, carry_out, flash,
}
use ifs_hil.Dut.Gates.{
  IsRecent, OneNode, is_old-IsRecent, recent-ok, require-ok, identify-ok, Tells, later, lift-Tells,
}

-- A step adds only acts of a kind to the log.
pub record Adds {A : Type 0} (P : Act → Type 0) (m : Step A) : Type 0 where
  pub at : (s : State) → All P s.log → All P (m s).1.log

module _ {P : Act → Type 0} where
  Adds-continue :
      {A B : Type 0} (r : Result A) (f : A → Step B) (s : State)
      → ((a : A) → r ≡ ok a → Adds P (f a))
      → All P s.log
      → All P (continue r f s).1.log
  Adds-continue (ok a) f s k h = (k a refl).at s h
  Adds-continue (err e) f s k h = h

  Adds-then :
      {A B : Type 0} {m : Step A} {f : A → Step B}
      → Adds P m
      → ((a : A) → Adds P (f a))
      → Adds P (m then f)
  unfolding ◌then◌
  Adds-then {m} {f} p k = record {
    at = λ s h. Adds-continue (m s).0 f (m s).1 (λ a e. k a) (p.at s h);
  }

  -- What a first step that ends with a value tells is known after it.
  Adds-told :
      {A B : Type 0} {G : Type 0} {m : Step A} {f : A → Step B}
      → Adds P m
      → Tells G m
      → (G → (a : A) → Adds P (f a))
      → Adds P (m then f)
  unfolding ◌then◌
  Adds-told {m} {f} p t k = record {
    at = λ s h. Adds-continue (m s).0 f (m s).1 (λ a e. k (t.at s a e) a) (p.at s h);
  }

  -- What a value that is lifted tells is known after it.
  Adds-lift_then :
      {A B : Type 0} (r : Result A) {f : A → Step B}
      → ((a : A) → r ≡ ok a → Adds P (f a))
      → Adds P (lift r then f)
  unfolding ◌then◌
  Adds-lift_then r {f} k = record { at = λ s h. Adds-continue r f s k h }

  Adds-lift : {A : Type 0} (r : Result A) → Adds P (lift r)
  Adds-lift r = record { at = λ s h. h }

  Adds-note : (a : Act) → P a → Adds P (note a)
  Adds-note a p = record { at = λ s h. All-snoc P s.log a h p }

  Adds-call :
      (call_ok : ℕ → Bool) (a : Act) (effect : Port → Port) → P a → Adds P (call call_ok a effect)
  unfolding call
  Adds-call call_ok a effect p = record {
    at = λ s h. elim (Bool-cases (call_ok s.calls)) [
      | inl e ↦ rw e (All-snoc P s.log a h p)
      | inr e ↦ rw e (All-snoc P s.log a h p)
    ];
  }

module _ (site : Site) (plan : Plan) where
  -- can-flasher is recent, and the broker is there.
  abbrev pub Ready : Type 0
  Ready = ((v : Version) × (site.version ≡ some v) × IsRecent v) × (site.broker ≡ true)

  -- Nothing is done but after `Ready`; and no image is written but to the one node that fits.
  abbrev pub IsGuarded : Act → Type 0
  IsGuarded (write_image p) = Ready × OneNode plan.profile.bl_product (node_rows site.lines)
  IsGuarded read_port = Ready
  IsGuarded set_direction = Ready
  IsGuarded (write_pin s v) = Ready
  IsGuarded (measure a) = Ready
  IsGuarded listen = Ready
  IsGuarded trigger = Ready
  IsGuarded discover = Ready
  IsGuarded (write_port pins) = Ready

  module _ (ready : Ready) where
    de_energise-Adds : (others : List ℕ) → Adds IsGuarded (de_energise site plan others)
    unfolding de_energise
    de_energise-Adds [] = Adds-lift (ok tt)
    de_energise-Adds (s ∷ others) =
        Adds-then (Adds-call site.call_ok (write_pin s false) (switch s false) ready)
          (λ _. de_energise-Adds others)

    energise-Adds : Adds IsGuarded (energise site plan)
    unfolding energise
    energise-Adds =
        Adds-then (Adds-call site.call_ok (write_pin plan.slot true) (switch plan.slot true) ready)
          λ _.
            Adds-then (Adds-call site.call_ok (measure plan.ina) (λ p. p) ready)
              λ _. record { at = λ s h. h }

    write-Adds :
        OneNode plan.profile.bl_product (node_rows site.lines) → Adds IsGuarded (write site plan)
    unfolding write
    write-Adds one =
        Adds-then
          (record { at = λ s h. All-snoc IsGuarded s.log (write_image s.port) h (ready, one) })
          λ _. Adds-lift_then (require site.write_ok) λ _ _. Adds-lift (ok true)

    into_bootloader-Adds : Adds IsGuarded (into_bootloader site plan)
    unfolding into_bootloader
    into_bootloader-Adds = Adds-then (Adds-note listen ready) λ _.
        Adds-then (Adds-note trigger ready) λ _. Adds-lift_then (acu_bitrate plan.desc) λ _ _.
          Adds-then (Adds-note discover ready)
            λ _. Adds-lift (identify plan.profile.bl_product (node_rows site.lines))

    into_bootloader-Tells :
        Tells (OneNode plan.profile.bl_product (node_rows site.lines)) (into_bootloader site plan)
    unfolding into_bootloader
    into_bootloader-Tells = later _ λ _. later _ λ _.
        later _ λ _.
          later _ λ _. lift-Tells _ (identify-ok plan.profile.bl_product (node_rows site.lines))

    attempt-Adds : Adds IsGuarded (attempt site plan)
    unfolding attempt
    attempt-Adds =
        Adds-then (Adds-call site.call_ok set_direction (λ p. record p { outputs = true }) ready)
          λ _. Adds-then (de_energise-Adds plan.others) λ _.
            Adds-then energise-Adds
              λ _. Adds-told into_bootloader-Adds into_bootloader-Tells (λ one _. write-Adds one)

    finish-Adds :
        (restore_relays : Bool) (before : List Bool) (s : State)
        → All IsGuarded s.log
        → All IsGuarded (finish site plan restore_relays before s).log
    unfolding finish
    finish-Adds false before s h = h
    finish-Adds true before s h =
        (Adds-call site.call_ok (write_port before) (λ p. record p { pins = before }) ready).at s h

    session-Adds : (restore_relays : Bool) → Adds IsGuarded (session site plan restore_relays)
    unfolding session
    session-Adds restore_relays = record {
      at = λ s h.
          (Adds-then (Adds-call site.call_ok read_port (λ p. p) ready) λ _. record {
            at = λ s' h'. finish-Adds restore_relays (site.reads s.port) _ (attempt-Adds.at s' h');
          }).at
            s h;
    }

  carry_out-Adds :
      (dry restore_relays : Bool) → Adds IsGuarded (carry_out site dry restore_relays plan)
  unfolding carry_out
  carry_out-Adds true restore_relays = Adds-lift (acu_bitrate plan.desc >>= λ _. ok false)
  carry_out-Adds false restore_relays = Adds-lift_then (assert_flasher_recent site.version) λ v e.
      Adds-lift_then (require site.broker) λ u b.
        let r = recent-ok site.version v e in
        session-Adds ((v, r.0, is_old-IsRecent v r.1), require-ok site.broker u b) restore_relays

-- Whatever the answers, and on every outcome, errors included: the bench is touched only when can-flasher is 2.8.0 or
-- later and the broker is there; and an image is written only when, besides, exactly one node has answered, whose row has
-- the profile's product or reports no app, or the profile names no product.
pub flash-Guarded :
    (profiles : Text → Option Profile) (benches : List Desc) (site : Site)
    (dut bench expect_sha : Text) (dry restore_relays : Bool) (port : Port) (calls : ℕ)
    (plan : Plan)
    → make_plan profiles benches site dut bench expect_sha ≡ ok plan
    → All
        (IsGuarded site plan)
        (flash profiles benches site dut bench expect_sha dry restore_relays
          (record { port = port; calls = calls; log = [] })).1.log
unfolding flash ◌then◌
flash-Guarded profiles benches site dut bench expect_sha dry restore_relays port calls plan
      planned =
    let s : State = record { port = port; calls = calls; log = [] } in
    subst (λ r. All (IsGuarded site plan) ((lift r then carry_out site dry restore_relays) s).1.log)
      (sym planned) ((carry_out-Adds site plan dry restore_relays).at s tt)
