-- ===== src/Bench/Recovery.antt =====
-- What the watchdog of tools/bench.py may do to a bench, and when.
use ifs_hil.Prelude.{
  ℕ, ◌≡◌, Bool, true, false, not, ◌&&◌, ◌||◌, List, [], ◌∷◌, if◌then◌else◌, any_of, arith,
}
use ifs_hil.Prelude.Text.{Text}
use ifs_hil.Bench.Watchdog.{
  Psu, Action, check, lock, lock_refused, unlock, capture, power, restart_broker, unload_mcp251x,
  load_mcp251x, restart_can_up, psu_cycle, recover, clean_code, climb, watchdog,
}

abbrev pub is_power : Action → Bool
is_power (power on done) = true
is_power check = false
is_power lock = false
is_power lock_refused = false
is_power unlock = false
is_power (capture done) = false
is_power restart_broker = false
is_power unload_mcp251x = false
is_power load_mcp251x = false
is_power restart_can_up = false

-- An observer of a run: whether the lock is held, and whether the capture of the evidence has been
-- tried since.
pub data Phase : Type 0 where
  free held tried broken : Phase

-- A recovery action is allowed only after the attempt to capture, under the lock.
abbrev only_tried : Phase → Phase
only_tried tried = tried
only_tried free = broken
only_tried held = broken
only_tried broken = broken

abbrev pub watch : Phase → Action → Phase
watch p check = p
watch p lock_refused = p
watch free lock = held
watch held lock = broken
watch tried lock = broken
watch broken lock = broken
watch free unlock = broken
watch held unlock = free
watch tried unlock = free
watch broken unlock = broken
watch free (capture done) = broken
watch held (capture done) = tried
watch tried (capture done) = tried
watch broken (capture done) = broken
watch p (power on done) = only_tried p
watch p restart_broker = only_tried p
watch p unload_mcp251x = only_tried p
watch p load_mcp251x = only_tried p
watch p restart_can_up = only_tried p

abbrev pub watch_all : Phase → List Action → Phase
watch_all p [] = p
watch_all p (a ∷ acts) = watch_all (watch p a) acts

-- A call of the supply that was done.
abbrev pub is_switch : Action → Bool
is_switch (power on done) = done
is_switch check = false
is_switch lock = false
is_switch lock_refused = false
is_switch unlock = false
is_switch (capture done) = false
is_switch restart_broker = false
is_switch unload_mcp251x = false
is_switch load_mcp251x = false
is_switch restart_can_up = false

-- The supply is told to switch the rails exactly when the lock is free, the first three verdicts are bad (before the
-- lock, under it, and after a broker restart), and the broker can be reached; and the rails are switched exactly when,
-- besides, the call that switches them off succeeds.
pub watchdog-power :
    (psu : Psu) (health : ℕ → Bool) (lock_free captured : Bool) (states : List Text)
    → (any_of is_power (watchdog psu health lock_free captured states).1
        ≡ not (health 0) && (lock_free && (not (health 1) && (not (health 2) && psu.reachable))))
      × (any_of is_switch (watchdog psu health lock_free captured states).1
          ≡ not (health 0)
            && (lock_free && (not (health 1) && (not (health 2) && (psu.reachable && psu.off_ok)))))
unfolding watchdog climb recover psu_cycle
watchdog-power psu health lock_free captured states = (ground arith, ground arith)

-- Every recovery action comes after the capture of the evidence has been tried, whether or not it succeeded, and under
-- the lock; and every run that takes the lock ends with giving it back.
pub watchdog-Phase :
    (psu : Psu) (health : ℕ → Bool) (lock_free captured : Bool) (states : List Text)
    → watch_all free (watchdog psu health lock_free captured states).1 ≡ free
unfolding watchdog climb recover psu_cycle
watchdog-Phase psu health lock_free captured states = ground arith

-- The run fails when a unit of the runner is down; otherwise exactly when the lock is free and all of
-- the four verdicts are bad.
pub watchdog-exit :
    (psu : Psu) (health : ℕ → Bool) (lock_free captured : Bool) (states : List Text)
    → (watchdog psu health lock_free captured states).0 ≡ (
        if lock_free && not (health 0 || (health 1 || (health 2 || health 3)))
        then 1
        else clean_code states)
unfolding watchdog climb
watchdog-exit psu health lock_free captured states = ground arith

-- The supply and the CAN controllers, as the actions leave them. Power that comes back resets the
-- controllers, which the kernel notices only when the driver is loaded again and the links are set up.
pub data Driver : Type 0 where
  gone loaded fresh stale : Driver

pub record Rig : Type 0 where
  pub rails : Bool
  pub driver : Driver

abbrev set_up : Driver → Driver
set_up loaded = fresh
set_up gone = gone
set_up fresh = fresh
set_up stale = stale

abbrev effect : Action → Rig → Rig
effect check r = r
effect lock r = r
effect lock_refused r = r
effect unlock r = r
effect (capture done) r = r
effect (power on false) r = r
effect (power on true) r = record { rails = on; driver = stale }
effect restart_broker r = r
effect unload_mcp251x r = record { rails = r.rails; driver = gone }
effect load_mcp251x r = record { rails = r.rails; driver = loaded }
effect restart_can_up r = record { rails = r.rails; driver = set_up r.driver }

abbrev pub run_all : List Action → Rig → Rig
run_all [] r = r
run_all (a ∷ acts) r = run_all acts (effect a r)

-- After the second rung, its commands succeeding, the CAN links are set up anew whatever the supply
-- did. If the power-off was done, the rails are on exactly when the power-on that follows it was
-- done; if not, they are as they were.
recover-rig :
    (psu : Psu) (r : Rig)
    → run_all (recover psu 2) r ≡ record {
      rails = (if psu.reachable && psu.off_ok then psu.on_ok else r.rails);
      driver = fresh;
    }
unfolding recover psu_cycle
recover-rig psu r = ground arith
