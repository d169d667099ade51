-- ===== src/Bench/Report.antt =====
-- The checks of the self-hosted runner in `doctor_checks` of tools/bench.py, and `cmd_doctor` with the lines that
-- it prints.
use ifs_hil.Prelude.{
  ℕ, zero, suc, ◌+◌, Bool, false, not, List, [], ◌∷◌, ◌++◌, length, Option, none, some,
  if◌then◌else◌,
}
use ifs_hil.Prelude.Text.{Text, lit, same, words, starts_with}
use ifs_hil.Bench.Host.{Host, sh, is_zero, Check, or_text}
use ifs_hil.Bench.Doctor.{is_enabled, restart_policy, enabled_and_active, states_of, host_checks}

-- s.replace(old, ""), for a text that is not empty; `skip` characters of an occurrence are still to be dropped.
abbrev without_from : Text → ℕ → Text → Text
without_from old skip [] = []
without_from old (suc skip) (c ∷ s) = without_from old skip s
without_from [] zero (c ∷ s) = c ∷ s
without_from (o ∷ os) zero (c ∷ s) =
    if starts_with (o ∷ os) (c ∷ s)
    then without_from (o ∷ os) (length os) s
    else c ∷ without_from (o ∷ os) 0 s

abbrev pub service_name : Text → Text
service_name unit = without_from (lit ".service") 0 unit

module _ (host : Host) where
  unfoldable pub runner_units : List Text
  runner_units =
      words
        (sh host (
          lit
            "systemctl list-unit-files 'actions.runner.*.service' --no-legend 2>/dev/null | awk '{print $1}'")).1

  abbrev pub service_check : Text → Check
  service_check unit = record {
    section = lit "14";
    name = service_name unit;
    ok = enabled_and_active host unit;
    detail =
        states_of host unit
        ++ (if same (is_enabled host unit) (lit "enabled")
            then []
            else lit "  — will NOT return after a power cut: sudo systemctl enable " ++ unit);
  }

  abbrev pub restart_check : Text → Check
  restart_check unit = record {
    section = lit "14";
    name = lit "runner restart policy";
    ok = same (restart_policy host unit) (lit "always");
    detail =
        lit "Restart="
        ++ or_text (restart_policy host unit) (lit "-")
        ++ (if same (restart_policy host unit) (lit "always")
            then []
            else lit
                "  — a runner that exits is never brought back; re-run scripts/bench_setup.sh to install the drop-in");
  }

  abbrev pub units_checks : List Text → List Check
  units_checks [] = []
  units_checks (unit ∷ rest) = service_check unit ∷ restart_check unit ∷ units_checks rest

  abbrev pub unserved : Check
  unserved = record {
    section = lit "14";
    name = lit "runner service";
    ok = false;
    detail =
        lit
          "runner is configured but has no systemd unit — cd ~/actions-runner && sudo ./svc.sh install $(id -un) && sudo ./svc.sh start";
  }

  abbrev pub is_configured : Bool
  is_configured = is_zero (sh host (lit "test -f \"$HOME/actions-runner/.runner\"")).0

  abbrev pub checks_of : List Text → List Check
  checks_of [] = if is_configured then unserved ∷ [] else []
  checks_of (unit ∷ rest) = units_checks (unit ∷ rest)

  abbrev pub runner_checks : List Check
  runner_checks = checks_of runner_units

  unfoldable pub doctor_checks : Bool → List Check
  doctor_checks include_runner = host_checks host ++ (if include_runner then runner_checks else [])

-- What `cmd_doctor` prints.
pub data Line : Type 0 where
  heading : Text → Line
  verdict : Check → Line
  runner_unchecked : Line
  failed : ℕ → Line
  documented : Line

abbrev is_section : Option Text → Text → Bool
is_section none s = false
is_section (some t) s = same s t

unfoldable pub printed : Option Text → List Check → List Line
printed section [] = []
printed section (c ∷ cs) =
    let rest = verdict c ∷ printed (some c.section) cs in
    if is_section section c.section then rest else heading c.section ∷ rest

abbrev pub failures : List Check → ℕ
failures [] = 0
failures (c ∷ cs) = (if c.ok then 0 else 1) + failures cs

abbrev pub summary : ℕ → Line
summary zero = documented
summary (suc n) = failed (suc n)

pub data Exit : Type 0 where
  refused : Exit
  returned : List Line → ℕ → Exit

-- The lines after the verdicts.
abbrev pub closing : Bool → ℕ → List Line
closing host_only n = (if host_only then runner_unchecked ∷ [] else []) ++ (summary n ∷ [])

-- `1 if failures else 0`
abbrev pub exit_status : ℕ → ℕ
exit_status zero = 0
exit_status (suc n) = 1

abbrev pub report : Bool → List Check → Exit
report host_only cs =
    returned (printed none cs ++ closing host_only (failures cs)) (exit_status (failures cs))

unfoldable pub cmd_doctor : Bool → Host → Exit
unfolding doctor_checks
cmd_doctor host_only host =
    if host.linux then report host_only (doctor_checks host (not host_only)) else refused
