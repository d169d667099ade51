-- ===== src/Bench/Doctor.antt =====
-- The checks of the bench in `doctor_checks` of tools/bench.py, in their order.
use ifs_hil.Prelude.{Bool, ◌&&◌, List, [], ◌∷◌, ◌++◌, map, if◌then◌else◌, leb}
use ifs_hil.Prelude.Text.{Text, lit, same, among, split_on, words, contains}
use ifs_hil.Bench.Host.{
  Host, sh, is_zero, Check, runs, has_all, packages_command, required_groups, boot_config,
  config_lines, module_check, all_digits, number, or_text, line_of, units,
}

abbrev pub granted : Text
granted = lit "ip link set can"

module _ (host : Host) where
  unfoldable pub controllers_check : Check
  controllers_check =
      let dm = (sh host (lit "dmesg 2>/dev/null | grep -c 'MCP2515 successfully initialized'")).1 in
      record {
        section = lit "5";
        name = lit "all three MCP2515 bound";
        ok = all_digits dm && leb 3 (number 0 dm);
        detail = or_text dm (lit "0") ++ lit "/3 initialised";
      }

  abbrev pub sudoers_check : Check
  sudoers_check =
      let sudo_l = (sh host (lit "sudo -n -l 2>/dev/null")).1 in
      record {
        section = lit "6";
        name = lit "sudoers drop-in";
        ok = contains granted sudo_l;
        detail =
            if contains granted sudo_l
            then lit "NOPASSWD ip link set canN granted"
            else lit "no ip-link escalation for this user";
      }

  -- What systemd says of a unit.
  abbrev pub is_enabled : Text → Text
  is_enabled unit = (sh host (lit "systemctl is-enabled " ++ unit ++ lit " 2>/dev/null")).1

  abbrev pub is_active : Text → Text
  is_active unit = (sh host (lit "systemctl is-active " ++ unit ++ lit " 2>/dev/null")).1

  abbrev pub restart_policy : Text → Text
  restart_policy unit =
      (sh host (lit "systemctl show -p Restart --value " ++ unit ++ lit " 2>/dev/null")).1

  abbrev pub enabled_and_active : Text → Bool
  enabled_and_active unit =
      same (is_enabled unit) (lit "enabled") && same (is_active unit) (lit "active")

  -- f"enabled={en or '-'} active={ac or '-'}"
  abbrev pub states_of : Text → Text
  states_of unit =
      lit "enabled="
      ++ or_text (is_enabled unit) (lit "-")
      ++ lit " active="
      ++ or_text (is_active unit) (lit "-")

  abbrev pub unit_check : Text → Check
  unit_check unit = record {
    section = lit "7";
    name = unit;
    ok = enabled_and_active unit;
    detail = states_of unit;
  }

  abbrev pub device_check : Text → Check
  device_check dev = runs host (lit "8") dev (lit "test -e " ++ dev) (lit "present") (lit "missing")

  -- The line of `pinctrl` for a pin.
  abbrev pub pin_line : Text → Text
  pin_line pin = line_of pin (split_on b'\n' (sh host (lit "pinctrl get 7,8 2>/dev/null")).1)

  abbrev pub pin_check : Text → Text → Text → Text → Check
  pin_check pin title mode level = record {
    section = lit "8";
    name = title;
    ok = contains mode (pin_line pin) && contains level (pin_line pin);
    detail = or_text (pin_line pin) (lit "GPIO" ++ pin ++ lit " not reported");
  }

  abbrev pub http_code : Text
  http_code =
      (sh host (lit "curl -s -o /dev/null -w '%{http_code}' http://localhost:8080/api/status")).1

  abbrev pub dashboard_check : Check
  dashboard_check = record {
    section = lit "9";
    name = lit "dashboard :8080";
    ok = same http_code (lit "200");
    detail = lit "HTTP " ++ or_text http_code (lit "---");
  }

  abbrev pub flasher_check : Check
  flasher_check =
      let r = sh host (lit "can-flasher --version 2>/dev/null") in
      record {
        section = lit "10";
        name = lit "can-flasher";
        ok = is_zero r.0;
        detail = or_text r.1 (lit "not on PATH");
      }

  -- The steps that every bench has.
  unfoldable pub host_checks : List Check
  host_checks =
      runs host (lit "2") (lit "apt packages") packages_command (lit "all present")
          (lit "one or more missing; see §2")
        ∷ has_all (lit "1") (lit "user groups") (λ g. among g (words (sh host (lit "id -nG")).1))
            required_groups (lit " ")
        ∷ runs host (lit "4") (lit "device-tree overlay")
            (lit "test -f /boot/firmware/overlays/mcp2515-triple.dtbo") (lit "installed")
            (lit "mcp2515-triple.dtbo not in /boot/firmware/overlays")
        ∷ has_all (lit "4") (lit "config.txt entries")
            (λ l. contains l (sh host (lit "cat " ++ boot_config ++ lit " 2>/dev/null")).1)
            config_lines (lit ", ")
        ∷ module_check host
        ∷ controllers_check
        ∷ sudoers_check
        ∷ map unit_check units
      ++ (map device_check (lit "/dev/spidev0.3" ∷ lit "/dev/i2c-1" ∷ [])
          ++ (pin_check (lit "7") (lit "GPIO7 PS_ON# low") (lit "op") (lit "lo")
              ∷ pin_check (lit "8") (lit "GPIO8 PWR_OK high") (lit "ip") (lit "hi")
              ∷ runs host (lit "8") (lit "broker socket")
                  (lit "test -S /run/hil-broker/broker.sock") (lit "present") (lit "missing")
              ∷ dashboard_check
              ∷ flasher_check
              ∷ []))
