-- ===== src/Trigger.antt =====
-- tools/flash_ams_via_trigger.py: the three ways to flash the AMS. What the outside answers is a stream
-- for each command: whether the image is there, and for the n-th call whether a bootloader answers,
-- can-flasher succeeds, the trigger is sent, and the slot is power-cycled. A subprocess may also
-- raise, which ends the program. The waits and the texts printed are not modelled.
use ifs_hil.Prelude.{
  ℕ, zero, suc, ◌+◌, ◌==◌, ◌≤◌, ◌≡◌, refl, Bool, true, false, not, List, [], ◌∷◌, ◌++◌,
  if◌then◌else◌,
}
use ifs_hil.Prelude.Text.{Text, lit, lstrip, lower, starts_with}
use ifs_hil.Prelude.Result.{Result, Exc, ok, err}
pub mod Ladder

-- The commands that the program runs.
pub data Act : Type 0 where
  discover trigger flash power_cycle : Act

pub record World : Type 0 where
  pub discovers : ℕ → Result Bool
  pub flashes : ℕ → Result Bool
  pub triggers : ℕ → Bool
  pub cycles : ℕ → Bool

-- How far each stream is read, and the commands run, the last one first.
pub record Site : Type 0 where
  pub discovered : ℕ
  pub flashed : ℕ
  pub triggered : ℕ
  pub cycled : ℕ
  pub acts : List Act

pub record Args : Type 0 where
  pub bin_is_file : Bool
  pub no_fallback : Bool
  pub max_fallback_attempts : ℕ

-- How the program ends: with an exit code, or with an exception.
pub data Exit : Type 0 where
  code : ℕ → Exit
  uncaught : Exc → Exit

-- A node answered: a line of `can-flasher discover` whose first token starts with 0x, for an exit code 0.
abbrev any_row : List Text → Bool
any_row [] = false
any_row (l ∷ ls) = if starts_with (lit "0x") (lower (lstrip l)) then true else any_row ls

unfoldable pub discover_bl : ℕ → List Text → Bool
unfolding lstrip
discover_bl returncode lines = if returncode == 0 then any_row lines else false

-- A step on the way: it goes on, or the program has ended.
abbrev pub Way : Type 0
Way = Site → Exit × Site

module _ (w : World) where
  abbrev pub on_answer : Result Bool → Way → Way → Way
  on_answer (ok true) yes_way no_way s = yes_way s
  on_answer (ok false) yes_way no_way s = no_way s
  on_answer (err e) yes_way no_way s = (uncaught e, s)

  abbrev pub discovering : Way → Way → Way
  discovering yes_way no_way s =
      on_answer (w.discovers s.discovered) yes_way no_way
        (record s { discovered = suc s.discovered; acts = discover ∷ s.acts })

  -- An image that is written ends the program with 0.
  abbrev pub flashing : Way → Way
  flashing no_way s =
      on_answer (w.flashes s.flashed) (λ t. (code 0, t)) no_way
        (record s { flashed = suc s.flashed; acts = flash ∷ s.acts })

  abbrev pub choose : Bool → Way → Way → Way
  choose true yes_way no_way = yes_way
  choose false yes_way no_way = no_way

  abbrev pub triggering : Way → Way → Way
  triggering yes_way no_way s =
      choose (w.triggers s.triggered) yes_way no_way
        (record s { triggered = suc s.triggered; acts = trigger ∷ s.acts })

  abbrev pub cycling : Way → Way → Way
  cycling yes_way no_way s =
      choose (w.cycles s.cycled) yes_way no_way
        (record s { cycled = suc s.cycled; acts = power_cycle ∷ s.acts })

  -- The power-cycle fallback, with the attempts that are left.
  unfoldable pub fall_back : ℕ → Way
  fall_back zero s = (code 1, s)
  fall_back (suc n) s = cycling (discovering (flashing (fall_back n)) (fall_back n)) (fall_back n) s

  abbrev pub after_trigger : Args → Way
  after_trigger args s =
      if args.no_fallback then (code 1, s) else fall_back args.max_fallback_attempts s

  abbrev pub trigger_path : Args → Way
  trigger_path args =
      triggering (discovering (flashing (after_trigger args)) (after_trigger args))
        (after_trigger args)

  -- `main`, after the arguments are read.
  unfoldable pub main : Args → Way
  unfolding fall_back
  main args s =
      if args.bin_is_file
      then discovering (flashing (trigger_path args)) (trigger_path args) s
      else (code 2, s)
