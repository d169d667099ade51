-- ===== src/Dut/Written.antt =====
-- A whole run of `flash` of tools/flash_dut.py, and the relays when the image is written.
use ifs_hil.Prelude.{
  ℕ, ◌-◌, ◌≤◌, ◌<◌, ◌≢◌, refl, Bool, true, false, List, [], if◌then◌else◌, All, length,
}
use ifs_hil.Prelude.Result.{Result, ok, err}
use ifs_hil.Dut.Target.{identify, node_rows, assert_flasher_recent}
use ifs_hil.Dut.Port.{
  Port, Act, read_port, set_direction, listen, trigger, discover, write_image, write_port, State,
  Step, ◌then◌, continue, lift, note, call,
}
use ifs_hil.Dut.Session.{
  Site, Plan, acu_bitrate, require, de_energise, into_bootloader, write, attempt, finish, session,
  carry_out,
}
use ifs_hil.Dut.Pins.{Post, Post-then, Post-mono}
use ifs_hil.Dut.Isolation.{
  IsIsolated, IsSafe, Safe, Anyhow, Good, IsReady, call-Safe, lift-Safe, note-Safe,
  de_energise-Safe, energise-Safe,
}

-- From a port as `Q` says, whatever was sent before, a step goes wrong safely or leaves it as `R` says.
pub record Safely {A : Type 0} (slot : ℕ) (others : List ℕ) (Q R : Port → Type 0) (m : Step A)
    : Type 0 where
  pub at : (s : State) → Safe slot others Q s → Good slot others R (m s)

module _ {slot : ℕ} {others : List ℕ} where
  Safely-then :
      {A B : Type 0} {Q R T : Port → Type 0} (m : Step A) (f : A → Step B)
      → Safely slot others Q R m
      → ((a : A) → Safely slot others R T (f a))
      → Safely slot others Q T (m then f)
  Safely-then {Q = Q} {R = R} {T = T} m f h k = record {
    at = λ s q.
        Post-then (λ _. Safe slot others R) (λ _. Safe slot others T) (Safe slot others Anyhow) f
          (λ a s' r. (k a).at s' r) m s (h.at s q);
  }

  Safely-lift : {A : Type 0} (Q : Port → Type 0) (r : Result A) → Safely slot others Q Q (lift r)
  Safely-lift Q r = record { at = λ s q. lift-Safe slot others Q r s q }

  Safely-note :
      (Q : Port → Type 0) (a : Act) → IsSafe slot others a → Safely slot others Q Q (note a)
  Safely-note Q a safe = record { at = λ s q. note-Safe slot others Q a s safe q }

-- Whatever the outcome, the acts were safe.
Good-log :
    {A : Type 0} (slot : ℕ) (others : List ℕ) (Q : Port → Type 0) (r : Result A) (s : State)
    → Good slot others Q (r, s)
    → All (IsSafe slot others) s.log
unfolding Post
Good-log slot others Q (ok a) s h = h.0
Good-log slot others Q (err e) s h = h.0

module _ (site : Site) (plan : Plan) (le : 1 ≤ plan.slot)
    (apart : All (λ s. (1 ≤ s) × (s ≢ plan.slot)) plan.others) where
  abbrev P : {A : Type 0} → (Port → Type 0) → (Port → Type 0) → Step A → Type 0
  P = Safely plan.slot plan.others

  abbrev Isolated : Port → Type 0
  Isolated = IsIsolated plan.slot plan.others

  into_bootloader-Safe : P Isolated Isolated (into_bootloader site plan)
  unfolding into_bootloader IsSafe
  into_bootloader-Safe = Safely-then _ _ (Safely-note Isolated listen tt) λ _.
      Safely-then _ _ (Safely-note Isolated trigger tt) λ _.
        Safely-then _ _ (Safely-lift Isolated (acu_bitrate plan.desc)) λ _.
          Safely-then _ _ (Safely-note Isolated discover tt)
            λ _. Safely-lift Isolated (identify plan.profile.bl_product (node_rows site.lines))

  write-Safe : P Isolated Isolated (write site plan)
  unfolding write IsSafe
  write-Safe =
      Safely-then _ _
        (record {
          at = λ s q. note-Safe plan.slot plan.others Isolated (write_image s.port) s q.1 q;
        })
        λ _.
          Safely-then _ _ (Safely-lift Isolated (require site.write_ok))
            λ _. Safely-lift Isolated (ok true)

  abbrev Fits : Port → Type 0
  Fits p = plan.slot - 1 < length p.pins

  attempt-Safe : P Fits Isolated (attempt site plan)
  unfolding attempt IsSafe
  attempt-Safe =
      Safely-then {R = IsReady plan.slot []} _ _
        (record {
          at = λ s q.
              call-Safe plan.slot plan.others site.call_ok set_direction
                (λ p. record p { outputs = true }) (IsReady plan.slot []) s tt q.0 (refl, q.1, tt);
        })
        λ _.
          Safely-then {R = IsReady plan.slot plan.others} _ _
            (record {
              at = λ s q.
                  Post-mono _ _ _ _ (de_energise site plan plan.others s).0
                    (de_energise site plan plan.others s).1
                    (λ _ s' g. (g.0.0, (g.0.1.0, g.0.1.1, g.1))) (λ s' g. g)
                    (de_energise-Safe site plan plan.others [] s q);
            })
            λ _.
              Safely-then {R = Isolated} _ _ (record { at = energise-Safe site plan le apart })
                λ _. Safely-then {R = Isolated} _ _ into_bootloader-Safe λ _. write-Safe

  -- The acts of a run are safe.
  abbrev pub Logs : {A : Type 0} → Step A → Type 0
  Logs m =
      (s : State)
      → Safe plan.slot plan.others Fits s
      → All (IsSafe plan.slot plan.others) (m s).1.log

  Logs-lift :
      {A B : Type 0} (r : Result A) (f : A → Step B) → ((a : A) → Logs (f a)) → Logs (lift r then f)
  unfolding ◌then◌
  Logs-lift (ok a) f h s q = h a s q
  Logs-lift (err e) f h s q = q.0

  finish-log :
      (restore_relays : Bool) (before : List Bool) (s : State)
      → All (IsSafe plan.slot plan.others) s.log
      → All (IsSafe plan.slot plan.others) (finish site plan restore_relays before s).log
  unfolding finish IsSafe
  finish-log false before s h = h
  finish-log true before s h =
      let r = call site.call_ok (write_port before) (λ p. record p { pins = before }) s in
      Good-log plan.slot plan.others Anyhow r.0 r.1 (
        call-Safe plan.slot plan.others site.call_ok (write_port before)
          (λ p. record p { pins = before }) Anyhow s tt h tt)

  session-log : (restore_relays : Bool) → Logs (session site plan restore_relays)
  unfolding session IsSafe Post ◌then◌
  session-log restore_relays s q =
      let r = call site.call_ok read_port (λ p. p) s in
      go r.0 r.1 (call-Safe plan.slot plan.others site.call_ok read_port (λ p. p) Fits s tt q.0 q.1)
    where
      go :
          (r : Result (Unit {0})) (s' : State)
          → Good plan.slot plan.others Fits (r, s')
          → All
              (IsSafe plan.slot plan.others)
              (continue r
                (λ _ s1.
                  let r1 = attempt site plan s1 in
                  (r1.0, finish site plan restore_relays (site.reads s.port) r1.1))
                s').1.log
      go (ok a) s' h =
          let r = attempt site plan s' in
          finish-log restore_relays (site.reads s.port) r.1
            (Good-log plan.slot plan.others Isolated r.0 r.1 (attempt-Safe.at s' h))
      go (err e) s' h = h.0

  pub carry_out-log : (dry restore_relays : Bool) → Logs (carry_out site dry restore_relays plan)
  unfolding carry_out
  carry_out-log true restore_relays s q = q.0
  carry_out-log false restore_relays s q =
      Logs-lift (assert_flasher_recent site.version) _
        (λ _. Logs-lift (require site.broker) _ (λ _. session-log restore_relays)) s q
