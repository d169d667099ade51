-- ===== src/Kpi.antt =====
-- scripts/hil_kpi_report.py: the sessions that are loaded, and their summary. The files of the directory are
-- given in their order, with `none` for one that does not hold JSON; times are numbers, which the
-- source only compares. The hours, which are quotients of floats, and the statistics are not modelled.
use ifs_hil.Prelude.{
  ℕ, zero, suc, ◌+◌, ◌<◌, Bool, true, false, not, ◌&&◌, List, [], ◌∷◌, ◌++◌, map, Option, none,
  some, if◌then◌else◌, length, ltb, leb, ◌==◌,
}
use ifs_hil.Prelude.Text.{Text, same, is_empty}
pub mod Candidates

pub record Session : Type 0 where
  pub started_at_iso : Text
  pub started_at_unix : ℕ
  pub power_cycle_count : ℕ
  pub flash_cycle_count : ℕ
  pub bl_trigger_count : ℕ
  pub frames_observed_total : ℕ
  pub block_f_cycles_completed : ℕ
  pub tests_executed : ℕ
  pub tests_passed : ℕ
  pub tests_failed : ℕ
  pub tests_errored : ℕ
  pub tests_skipped : ℕ
  pub failed_tests : List Text
  pub errored_tests : List Text

-- s < t on texts.
abbrev pub text_lt : Text → Text → Bool
text_lt s [] = false
text_lt [] (d ∷ t) = true
text_lt (c ∷ s) (d ∷ t) = elim (c == d) [ true ↦ text_lt s t | false ↦ ltb c d ]

-- list.sort(key=...), which is stable.
abbrev pub insert_by : {A : Type 0} → (A → A → Bool) → A → List A → List A
insert_by before a [] = a ∷ []
insert_by before a (b ∷ bs) = elim (before b a) [
  | true ↦ b ∷ insert_by before a bs
  | false ↦ a ∷ b ∷ bs
]

abbrev pub sort_by : {A : Type 0} → (A → A → Bool) → List A → List A
sort_by before [] = []
sort_by before (a ∷ as_) = insert_by before a (sort_by before as_)

abbrev is_old : Text → Session → Bool
is_old since s = not (is_empty since) && text_lt s.started_at_iso since

abbrev kept : Text → List (Option Session) → List Session
kept since [] = []
kept since (none ∷ files) = kept since files
kept since (some s ∷ files) = elim (is_old since s) [
  | true ↦ kept since files
  | false ↦ s ∷ kept since files
]

-- An empty `since_iso` stands for None too, which is tested alike.
unfoldable pub load_sessions : Bool → Text → List (Option Session) → List Session
load_sessions is_dir since files =
    if is_dir
    then sort_by (λ (s : Session). λ (t : Session). ltb s.started_at_unix t.started_at_unix)
        (kept since files)
    else []

abbrev sum_of : (Session → ℕ) → List Session → ℕ
sum_of field [] = 0
sum_of field (s ∷ ss) = field s + sum_of field ss

pub record Totals : Type 0 where
  pub session_count : ℕ
  pub power_cycles : ℕ
  pub flash_cycles : ℕ
  pub bl_triggers : ℕ
  pub frames_observed : ℕ
  pub block_f_cycles : ℕ
  pub executed : ℕ
  pub passed : ℕ
  pub failed : ℕ
  pub errored : ℕ
  pub skipped : ℕ

unfoldable pub totals : List Session → Totals
totals ss = record {
  session_count = length ss;
  power_cycles = sum_of (λ s. s.power_cycle_count) ss;
  flash_cycles = sum_of (λ s. s.flash_cycle_count) ss;
  bl_triggers = sum_of (λ s. s.bl_trigger_count) ss;
  frames_observed = sum_of (λ s. s.frames_observed_total) ss;
  block_f_cycles = sum_of (λ s. s.block_f_cycles_completed) ss;
  executed = sum_of (λ s. s.tests_executed) ss;
  passed = sum_of (λ s. s.tests_passed) ss;
  failed = sum_of (λ s. s.tests_failed) ss;
  errored = sum_of (λ s. s.tests_errored) ss;
  skipped = sum_of (λ s. s.tests_skipped) ss;
}

-- The hits of each test, in the order in which the tests first appear.
abbrev pub Outcomes : Type 0
Outcomes = List (Text × ℕ)

abbrev pub add_hit : Text → Outcomes → Outcomes
add_hit n [] = (n, 1) ∷ []
add_hit n (e ∷ es) = if same e.0 n then (e.0, suc e.1) ∷ es else e ∷ add_hit n es

abbrev pub add_hits : List Text → Outcomes → Outcomes
add_hits [] es = es
add_hits (n ∷ ns) es = add_hits ns (add_hit n es)

abbrev pub outcomes_from : List Session → Outcomes → Outcomes
outcomes_from [] es = es
outcomes_from (s ∷ ss) es = outcomes_from ss (add_hits (s.failed_tests ++ s.errored_tests) es)

-- The names whose number of hits passes a test, in the order of the dict.
abbrev pub names_with : (ℕ → Bool) → Outcomes → List Text
names_with test [] = []
names_with test (e ∷ es) = let rest = names_with test es in if test e.1 then e.0 ∷ rest else rest

abbrev pub is_flaky : ℕ → ℕ → Bool
is_flaky total hits = leb 2 hits && ltb hits total

abbrev pub is_regressed : ℕ → Bool
is_regressed hits = not (leb 2 hits)

unfoldable pub regression_candidates : List Session → List Text
unfolding same
regression_candidates ss = sort_by text_lt (names_with is_regressed (outcomes_from ss []))

unfoldable pub flake_candidates : List Session → List Text
unfolding same
flake_candidates ss = sort_by text_lt (names_with (is_flaky (length ss)) (outcomes_from ss []))
