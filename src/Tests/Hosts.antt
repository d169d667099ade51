-- ===== src/Tests/Hosts.antt =====
-- Hosts under `bench doctor` of tools/bench.py.
use ifs_hil.Prelude.{ℕ, ◌≡◌, ◌↔◌, refl, true, false, List, [], ◌∷◌, none, if◌then◌else◌}
use ifs_hil.Prelude.Int.{pos}
use ifs_hil.Prelude.Text.{
  Text, lit, same, starts_with, contains, strip, lstrip, rstrip, split_on, words,
}
use ifs_hil.Bench.Host.{Host, completed, raised, sh, line_of, module_check}
use ifs_hil.Bench.Doctor.{host_checks, controllers_check}
use ifs_hil.Bench.Report.{
  Line, Exit, refused, returned, printed, runner_units, doctor_checks, cmd_doctor,
}
use ifs_hil.Bench.Documented.{Passes}
use ifs_hil.Bench.Printed.{verdicts, AreHeaded}
use ifs_hil.Bench.Verdict.{cmd_doctor-Passes}

-- What the shell prints on a bench that was set up, by the beginning of the command.
abbrev replies : List (Text × Text)
replies =
    (lit "id", lit "spi i2c gpio dialout netdev")
    ∷ (lit "cat", lit "dtoverlay=mcp2515-triple\ngpio=7=op,dl\ngpio=8=ip,pd")
    ∷ (lit "dmesg", lit "3\n")
    ∷ (lit "sudo", lit "(root) NOPASSWD: /sbin/ip link set can0 up")
    ∷ (lit "systemctl is-enabled", lit "enabled")
    ∷ (lit "systemctl is-active", lit "active")
    ∷ (lit "systemctl show", lit "always")
    ∷ (lit "systemctl list", lit "actions.runner.org.service")
    ∷ (lit "pinctrl", lit "7: op lo\n 8: ip hi")
    ∷ (lit "curl", lit "200")
    ∷ []

abbrev reply_to : Text → List (Text × Text) → Text
reply_to cmd [] = if contains (lit ".orig") cmd then lit "aa" else lit "bb"
reply_to cmd ((begin, out) ∷ rest) =
    let other = reply_to cmd rest in if starts_with begin cmd then out else other

abbrev good : Host
good = record {
  run = λ cmd. completed (pos 0) (reply_to cmd replies) [];
  release = lit "6.6";
  linux = true;
}

-- A host where no command starts.
abbrev bare : Host
bare = record { run = λ cmd. raised (lit "no shell"); release = lit "6.6"; linux = true }

abbrev status_of : Exit → ℕ
status_of refused = 2
status_of (returned ls code) = code

set_up : status_of (cmd_doctor false good) ≡ 0
unfolding cmd_doctor doctor_checks host_checks sh strip lstrip rstrip split_on words line_of
    module_check controllers_check runner_units same printed
set_up = refl

not_set_up : status_of (cmd_doctor true bare) ≡ 1
unfolding cmd_doctor doctor_checks host_checks sh strip lstrip rstrip split_on words line_of
    module_check controllers_check same printed
not_set_up = refl

cmd_doctor-Passes_example :
    (ls : List Line) × (code : ℕ) × (cmd_doctor false good ≡ returned ls code)
    × (verdicts ls ≡ doctor_checks good true)
    × AreHeaded none ls
    × ((code ≡ 0) ↔ Passes good true)
cmd_doctor-Passes_example = cmd_doctor-Passes false good refl
