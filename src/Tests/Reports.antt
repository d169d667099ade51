-- ===== src/Tests/Reports.antt =====
-- tools/flash_ams_via_trigger.py and scripts/hil_kpi_report.py at concrete values.
use ifs_hil.Prelude.{◌≡◌, true, false, ◌&&◌, List, [], ◌∷◌, leb, ltb, ◌==◌, length}
use ifs_hil.Prelude.Text.{Text, lit, among}
use ifs_hil.Prelude.Result.{ok}
use ifs_hil.Trigger.{World, Site, Args, main}
use ifs_hil.Trigger.Ladder.{Ends, main-Ends}
use ifs_hil.Kpi.{Session, regression_candidates, flake_candidates}
use ifs_hil.Kpi.Candidates.{hits_of, candidates-hits_of}

-- The bootloader answers from the third search on; the first flash then succeeds.
abbrev world : World
world = record {
  discovers = λ n. ok (ltb 1 n);
  flashes = λ n. ok true;
  triggers = λ n. true;
  cycles = λ n. true;
}

abbrev site : Site
site = record { discovered = 0; flashed = 0; triggered = 0; cycled = 0; acts = [] }

abbrev arguments : Args
arguments = record { bin_is_file = true; no_fallback = false; max_fallback_attempts = 3 }

main-Ends_example : Ends world 3 site (main world arguments site)
main-Ends_example = main-Ends world arguments site

abbrev session : List Text → List Text → Session
session failed errored = record {
  started_at_iso = [];
  started_at_unix = 0;
  power_cycle_count = 0;
  flash_cycle_count = 0;
  bl_trigger_count = 0;
  frames_observed_total = 0;
  block_f_cycles_completed = 0;
  tests_executed = 0;
  tests_passed = 0;
  tests_failed = 0;
  tests_errored = 0;
  tests_skipped = 0;
  failed_tests = failed;
  errored_tests = errored;
}

abbrev sessions : List Session
sessions =
    session (lit "a" ∷ lit "b" ∷ []) [] ∷ session (lit "b" ∷ []) [] ∷ session [] (lit "c" ∷ []) ∷ []

candidates-hits_of_example :
    (among (lit "b") (regression_candidates sessions) ≡ hits_of (lit "b") sessions == 1)
    × (among (lit "b") (flake_candidates sessions)
        ≡ leb 2 (hits_of (lit "b") sessions) && ltb (hits_of (lit "b") sessions) (length sessions))
candidates-hits_of_example = candidates-hits_of (lit "b") sessions
