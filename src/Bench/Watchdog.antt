-- ===== src/Bench/Watchdog.antt =====
-- The recovery ladder and the watchdog of tools/bench.py, as the actions that they take in order. The
-- waits between actions are not modelled.
use ifs_hil.Prelude.{
  ℕ, suc, Bool, true, false, not, List, [], ◌∷◌, ◌++◌, Option, none, some, if◌then◌else◌, any_of,
  leb,
}
use ifs_hil.Prelude.Text.{Text, lit, same}
use ifs_hil.Bench.Desc.{Desc}

-- What the broker does when the rails are cycled: whether it can be reached, and which calls succeed.
pub record Psu : Type 0 where
  pub reachable : Bool
  pub off_ok : Bool
  pub on_ok : Bool

pub data Action : Type 0 where
  check : Action
  lock lock_refused unlock : Action
  capture : (done : Bool) → Action
  power : (on : Bool) (done : Bool) → Action
  restart_broker unload_mcp251x load_mcp251x restart_can_up : Action

-- `_psu_cycle`: a call that raises ends it.
unfoldable pub psu_cycle : Psu → List Action
psu_cycle psu =
    if psu.reachable
    then power false psu.off_ok ∷ (if psu.off_ok then power true psu.on_ok ∷ [] else [])
    else []

-- One rung; the result of `_psu_cycle` is ignored.
unfoldable pub recover : Psu → ℕ → List Action
recover psu level =
    if leb level 1
    then restart_broker ∷ []
    else psu_cycle psu ++ unload_mcp251x ∷ load_mcp251x ∷ restart_can_up ∷ restart_broker ∷ []

-- `cmd_recover`, which waits for the lock.
unfoldable pub cmd_recover : Psu → ℕ → List Action
cmd_recover psu level = lock ∷ (recover psu level ++ unlock ∷ [])

-- The bench that the watchdog looks after: --bench, $HIL_BENCH, or the only one; `none` exits.
abbrev pub watchdog_bench : Text → Text → List Desc → Option Text
watchdog_bench (c ∷ bench) env benches = some (c ∷ bench)
watchdog_bench [] (c ∷ env) benches = some (c ∷ env)
watchdog_bench [] [] [] = none
watchdog_bench [] [] (d ∷ []) = some d.id
watchdog_bench [] [] (d ∷ e ∷ benches) = none

-- `clean`, from the states of the runner's units.
abbrev pub clean_code : List Text → ℕ
clean_code states = if any_of (λ st. not (same st (lit "active"))) states then 1 else 0

-- The exit code and the actions.
abbrev pub Run : Type 0
Run = ℕ × List Action

-- `health k` is the verdict of verification number k, from 0.
module _ (psu : Psu) (health : ℕ → Bool) (clean : ℕ) where
  abbrev pub after : List Action → Run → Run
  after acts run = (run.0, acts ++ run.1)

  -- The loop over the levels, each followed by verification number k, k + 1, ...
  unfoldable pub climb : List ℕ → ℕ → Run
  climb [] k = (1, unlock ∷ [])
  climb (level ∷ levels) k =
      let rest = climb levels (suc k) in
      after (recover psu level ++ check ∷ []) (if health k then (clean, unlock ∷ []) else rest)

-- A capture of the evidence that fails is told, and the recovery goes on.
unfoldable pub watchdog : Psu → (ℕ → Bool) → Bool → Bool → List Text → Run
watchdog psu health lock_free captured states =
    let clean = clean_code states in
    if health 0
    then (clean, check ∷ [])
    else (if lock_free
        then (if health 1
            then (clean, check ∷ lock ∷ check ∷ unlock ∷ [])
            else after psu health clean (check ∷ lock ∷ check ∷ capture captured ∷ [])
                (climb psu health clean (1 ∷ 2 ∷ []) 2))
        else (clean, check ∷ lock_refused ∷ []))
