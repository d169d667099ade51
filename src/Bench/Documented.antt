-- ===== src/Bench/Documented.antt =====
-- What `bench doctor` of tools/bench.py asks of a host, in the words of the shell.
use mathlib.Core.List.{foldl}
use ifs_hil.Prelude.{ℕ, ◌+◌, ◌*◌, ◌-◌, ◌≤◌, ◌≡◌, ◌≢◌, Bool, true, false, List, [], ◌∷◌, ◌++◌, All}
use ifs_hil.Prelude.Int.{ℤ, pos}
use ifs_hil.Prelude.Text.{Text, strip, lit, among, words, contains, split_on}
use ifs_hil.Bench.Host.{Host, sh}

abbrev pub Succeeds : Host → Text → Type 0
Succeeds host cmd = (sh host cmd).0 ≡ pos 0

-- What a command prints.
abbrev pub says : Host → Text → Text
says host cmd = (sh host cmd).1

abbrev pub IsUp : Host → Text → Type 0
IsUp host unit =
    (says host (lit "systemctl is-enabled " ++ unit ++ lit " 2>/dev/null") ≡ lit "enabled")
    × (says host (lit "systemctl is-active " ++ unit ++ lit " 2>/dev/null") ≡ lit "active")

-- A line of a pin: without the white space around it, its part before the first colon is the pin.
abbrev pub IsLineOf : Text → Text → Type 0
IsLineOf pin line =
    (key after : Text) × (line ≡ key ++ (b':' ∷ after))
    × All (λ c. c ≢ b':') key
    × (strip key ≡ pin)

-- The last line of the pin has the mode and the level.
abbrev pub Shows : List Text → Text → Text → Text → Type 0
Shows lines pin mode level =
    (before after : List Text) × (line : Text) × (lines ≡ before ++ (line ∷ after))
    × IsLineOf pin (strip line)
    × All (λ l. ¬ IsLineOf pin (strip l)) after
    × (contains mode (strip line) ≡ true)
    × (contains level (strip line) ≡ true)

-- The pins of the supply, as pinctrl prints them.
abbrev pub pins : Host → List Text
pins host = split_on b'\n' (says host (lit "pinctrl get 7,8 2>/dev/null"))

-- What is printed of the checksum of a file.
abbrev pub checksum : Host → Text → ℤ × Text
checksum host file = sh host (lit "md5sum " ++ file ++ lit " 2>/dev/null | cut -d' ' -f1")

-- The module that the kernel loads.
abbrev pub kernel_module : Host → Text
kernel_module host =
    lit "/lib/modules/" ++ host.release ++ lit "/kernel/drivers/net/can/spi/mcp251x.ko.xz"

-- A checksum is printed of the stock module, and not the same is printed of the module; which may be missing.
abbrev pub IsPatched : Host → Type 0
IsPatched host =
    ((checksum host (kernel_module host ++ lit ".orig")).0 ≡ pos 0)
    × ((checksum host (kernel_module host ++ lit ".orig")).1 ≢ [])
    × ((checksum host (kernel_module host)).1
        ≢ (checksum host (kernel_module host ++ lit ".orig")).1)

-- The number that decimal digits stand for.
abbrev pub decimal : Text → ℕ
decimal s = foldl (λ n c. n * 10 + (c - b'0')) 0 s

abbrev pub IsBound : Host → Type 0
IsBound host =
    let dm = says host (lit "dmesg 2>/dev/null | grep -c 'MCP2515 successfully initialized'") in
    (dm ≢ []) × All (λ c. (b'0' ≤ c) × (c ≤ b'9')) dm × (3 ≤ decimal dm)

abbrev pub IsServed : Host → Text → Type 0
IsServed host unit =
    IsUp host unit
    × (says host (lit "systemctl show -p Restart --value " ++ unit ++ lit " 2>/dev/null")
        ≡ lit "always")

-- Every runner unit is up and always restarted; without one, no runner is configured.
abbrev pub IsKept : Host → List Text → Type 0
IsKept host [] = ¬ Succeeds host (lit "test -f \"$HOME/actions-runner/.runner\"")
IsKept host (u ∷ us) = IsServed host u × All (IsServed host) us

-- The steps that every bench has.
pub record HostPasses (host : Host) : Type 0 where
  pub packages : Succeeds host (
      lit
        "dpkg -s python3-can can-utils device-tree-compiler xz-utils libudev-dev pkg-config git curl >/dev/null 2>&1")
  pub groups :
      All
        (λ g. among g (words (says host (lit "id -nG"))) ≡ true)
        (lit "spi" ∷ lit "i2c" ∷ lit "gpio" ∷ lit "dialout" ∷ lit "netdev" ∷ [])
  pub overlay : Succeeds host (lit "test -f /boot/firmware/overlays/mcp2515-triple.dtbo")
  pub config :
      All
        (λ l. contains l (says host (lit "cat /boot/firmware/config.txt 2>/dev/null")) ≡ true)
        (lit "dtoverlay=mcp2515-triple" ∷ lit "gpio=7=op,dl" ∷ lit "gpio=8=ip,pd" ∷ [])
  pub patched : IsPatched host
  pub bound : IsBound host
  pub sudoers : contains (lit "ip link set can") (says host (lit "sudo -n -l 2>/dev/null")) ≡ true
  pub services :
      All
        (IsUp host)
        (lit "hil-psu-on" ∷ lit "hil-can-up" ∷ lit "hil-broker" ∷ lit "hil-dashboard" ∷ [])
  pub spidev : Succeeds host (lit "test -e /dev/spidev0.3")
  pub i2c : Succeeds host (lit "test -e /dev/i2c-1")
  pub ps_on : Shows (pins host) (lit "7") (lit "op") (lit "lo")
  pub pwr_ok : Shows (pins host) (lit "8") (lit "ip") (lit "hi")
  pub socket : Succeeds host (lit "test -S /run/hil-broker/broker.sock")
  pub dashboard :
      says host (lit "curl -s -o /dev/null -w '%{http_code}' http://localhost:8080/api/status")
      ≡ lit "200"
  pub flasher : Succeeds host (lit "can-flasher --version 2>/dev/null")

-- The runner units, as systemd lists them.
abbrev pub listed : Host → List Text
listed host = words (
    says host (
      lit
        "systemctl list-unit-files 'actions.runner.*.service' --no-legend 2>/dev/null | awk '{print $1}'"))

-- Those of the runner count when they are asked for.
abbrev pub Passes : Host → Bool → Type 0
Passes host true = HostPasses host × IsKept host (listed host)
Passes host false = HostPasses host
