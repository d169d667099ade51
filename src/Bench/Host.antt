-- ===== src/Bench/Host.antt =====
-- The host under `bench doctor` of tools/bench.py: `_sh`, the texts that it reads, and its first checks. How the
-- commands of the shell end is a parameter; no command is run twice, so that it is a function of the command.
use ifs_hil.Prelude.{
  ℕ, ◌+◌, ◌*◌, ◌-◌, Bool, false, not, ◌&&◌, ◌||◌, List, [], ◌∷◌, ◌++◌, if◌then◌else◌, keep, all_of,
  leb, ◌==◌,
}
use ifs_hil.Prelude.Int.{ℤ, pos, negsuc}
use ifs_hil.Prelude.Text.{Text, lit, same, is_empty, strip, contains}

-- How `subprocess.run` ends: the exit status, stdout and stderr, or the message of an exception.
pub data Outcome : Type 0 where
  completed : (returncode : ℤ) → (stdout stderr : Text) → Outcome
  raised : Text → Outcome

pub record Host : Type 0 where
  pub run : Text → Outcome
  pub release : Text
  pub linux : Bool

-- `_sh`: (rc, output)
abbrev sh_of : Outcome → ℤ × Text
sh_of (completed rc out er) = (rc, strip (out ++ er))
sh_of (raised e) = (pos 1, e)

unfoldable pub sh : Host → Text → ℤ × Text
sh host cmd = sh_of (host.run cmd)

-- rc == 0
abbrev pub is_zero : ℤ → Bool
is_zero (pos n) = n == 0
is_zero (negsuc n) = false

abbrev pub apt_packages : List Text
apt_packages =
    lit "python3-can"
    ∷ lit "can-utils"
    ∷ lit "device-tree-compiler"
    ∷ lit "xz-utils"
    ∷ lit "libudev-dev"
    ∷ lit "pkg-config"
    ∷ lit "git"
    ∷ lit "curl"
    ∷ []

abbrev pub required_groups : List Text
required_groups = lit "spi" ∷ lit "i2c" ∷ lit "gpio" ∷ lit "dialout" ∷ lit "netdev" ∷ []

abbrev pub boot_config : Text
boot_config = lit "/boot/firmware/config.txt"

abbrev pub config_lines : List Text
config_lines = lit "dtoverlay=mcp2515-triple" ∷ lit "gpio=7=op,dl" ∷ lit "gpio=8=ip,pd" ∷ []

abbrev pub units : List Text
units = lit "hil-psu-on" ∷ lit "hil-can-up" ∷ lit "hil-broker" ∷ lit "hil-dashboard" ∷ []

-- What `doctor_checks` yields of a setup step.
pub record Check : Type 0 where
  pub section : Text
  pub name : Text
  pub ok : Bool
  pub detail : Text

-- sep.join(xs)
abbrev pub join_with : Text → List Text → Text
join_with sep [] = []
join_with sep (x ∷ []) = x
join_with sep (x ∷ y ∷ ys) = x ++ sep ++ join_with sep (y ∷ ys)

-- `s or other`
abbrev pub or_text : Text → Text → Text
or_text [] other = other
or_text (c ∷ s) other = c ∷ s

abbrev pub is_digit : ℕ → Bool
is_digit c = leb b'0' c && leb c b'9'

-- s.isdigit()
abbrev pub all_digits : Text → Bool
all_digits s = not (is_empty s) && all_of is_digit s

-- int(s) of digits, after those that `acc` stands for.
abbrev pub number : ℕ → Text → ℕ
number acc [] = acc
number acc (c ∷ s) = number (acc * 10 + (c - b'0')) s

-- line.split(":", 1)[0]
abbrev pub before_colon : Text → Text
before_colon [] = []
before_colon (c ∷ s) = let rest = before_colon s in if c == b':' then [] else c ∷ rest

abbrev pub is_line_of : Text → Text → Bool
is_line_of key line = contains (lit ":") line && same key (strip (before_colon line))

-- `lines.get(key, "")`: a later line replaces an earlier one with its key.
unfoldable pub line_of : Text → List Text → Text
line_of key [] = []
line_of key (l ∷ ls) = or_text (line_of key ls) (if is_line_of key (strip l) then strip l else [])

-- The checksum of the module against that of the stock module, with the exit status of the latter.
abbrev pub compared : Text → ℤ × Text → Check
compared a (rc_b, b) =
    if not (is_zero rc_b) || is_empty b
    then record {
      section = lit "5";
      name = lit "patched mcp251x";
      ok = false;
      detail = lit "no mcp251x.ko.xz.orig — the patched module was never built here";
    }
    else record {
      section = lit "5";
      name = lit "patched mcp251x";
      ok = not (same a b);
      detail =
          if same a b
          then lit "identical to stock: patch not installed"
          else lit "differs from stock";
    }

abbrev pub missing_from : (Text → Bool) → List Text → List Text
missing_from present wanted = keep (λ w. not (present w)) wanted

-- A check that every wanted text is present.
abbrev pub has_all : Text → Text → (Text → Bool) → List Text → Text → Check
has_all section name present wanted sep = record {
  section = section;
  name = name;
  ok = all_of present wanted;
  detail =
      if all_of present wanted
      then lit "ok"
      else lit "missing: " ++ join_with sep (missing_from present wanted);
}

abbrev pub packages_command : Text
packages_command = lit "dpkg -s " ++ join_with (lit " ") apt_packages ++ lit " >/dev/null 2>&1"

module _ (host : Host) where
  -- A check that a command exits with 0.
  abbrev pub runs : Text → Text → Text → Text → Text → Check
  runs section name cmd good bad =
      let rc = (sh host cmd).0 in
      record {
        section = section;
        name = name;
        ok = is_zero rc;
        detail = if is_zero rc then good else bad;
      }

  abbrev pub module_path : Text
  module_path =
      lit "/lib/modules/" ++ host.release ++ lit "/kernel/drivers/net/can/spi/mcp251x.ko.xz"

  -- The checksum of a file, as the shell prints it.
  abbrev pub md5 : Text → ℤ × Text
  md5 file = sh host (lit "md5sum " ++ file ++ lit " 2>/dev/null | cut -d' ' -f1")

  unfoldable pub module_check : Check
  module_check = compared (md5 module_path).1 (md5 (module_path ++ lit ".orig"))
