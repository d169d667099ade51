-- ===== src/Flasher/Command.antt =====
-- The class CanFlasher of tools/firmware_test/flash_helper.py: the command lines that it runs, and what its
-- methods return. How a process ends is a parameter, and so is shlex.join.
use ifs_hil.Prelude.{
  ℕ, zero, suc, ◌/◌, ◌%◌, Bool, true, false, not, ◌&&◌, List, [], ◌∷◌, ◌++◌, Option, none, some,
  if◌then◌else◌, length, take, leb, ltb,
}
use ifs_hil.Prelude.Int.{ℤ, pos, negsuc}
use ifs_hil.Prelude.Numerals.{decimal, decimal_int, hex_digit}
use ifs_hil.Prelude.Text.{Text, lit, rstrip, split_on, contains}
use ifs_hil.Flasher.Rows.{DiscoveredNode, parse_row}

pub record CanFlasher : Type 0 where
  pub channel : Text
  pub bitrate : ℕ
  pub node_id : ℕ
  pub discover_timeout_ms : ℕ
  pub per_frame_timeout_ms : ℕ
  pub binary : Text

pub record Process : Type 0 where
  pub returncode : ℤ
  pub stdout : Text
  pub stderr : Text

-- What `_run` gives: a process, CanFlasherError with its command and process, or another exception of
-- `subprocess.run`, such as a time-out.
pub data Ran (A : Type 0) : Type 0 where
  value : A → Ran A
  flasher_error : List Text → Process → Ran A
  not_run : Ran A

pub data Spawned : Type 0 where
  ended : Process → Spawned
  broken : Spawned

-- f"{n:X}" of a number below 16 ^ fuel.
unfoldable pub hex_from : ℕ → ℕ → Text
hex_from zero n = []
hex_from (suc fuel) n =
    let front = hex_from fuel (n / 16) in
    if ltb n 16 then hex_digit n ∷ [] else front ++ (hex_digit (n % 16) ∷ [])

abbrev pub hex_text : ℕ → Text
hex_text n = lit "0x" ++ hex_from (suc n) n

-- `_trim` with its limit of 800.
unfoldable pub trim : Text → Text
trim s = trimmed (rstrip s)
  where
    trimmed : Text → Text
    trimmed [] = lit "(empty)"
    trimmed (c ∷ s) =
        if leb (length (c ∷ s)) 800 then c ∷ s else take 800 (c ∷ s) ++ lit " …(truncated)"

-- str(CanFlasherError)
unfoldable pub message : (List Text → Text) → List Text → Process → Text
unfolding trim
message join cmd p =
    lit "can-flasher exit "
    ++ decimal_int p.returncode
    ++ lit " on `"
    ++ join cmd
    ++ lit "`\n  stdout: "
    ++ trim p.stdout
    ++ lit "\n  stderr: "
    ++ trim p.stderr

abbrev pub succeeded : ℤ → Bool
succeeded (pos zero) = true
succeeded (pos (suc n)) = false
succeeded (negsuc n) = false

-- `timeout_ms` is the deprecated keyword.
abbrev pub with_timeout : Option ℕ → CanFlasher → CanFlasher
with_timeout none f = f
with_timeout (some ms) f = record f { discover_timeout_ms = ms }

-- `timeout_ms or self.discover_timeout_ms`
abbrev pub or_default : Option ℕ → ℕ → ℕ
or_default none d = d
or_default (some zero) d = d
or_default (some (suc n)) d = suc n

-- A line that does not match is passed over.
abbrev pub found_with : Option DiscoveredNode → List DiscoveredNode → List DiscoveredNode
found_with none rest = rest
found_with (some n) rest = n ∷ rest

abbrev pub parsed : List Text → List DiscoveredNode
parsed [] = []
parsed (line ∷ lines) = found_with (parse_row line) (parsed lines)

module _ (spawn : List Text → Spawned) where
  -- `_run`
  abbrev pub checked : Bool → List Text → Spawned → Ran Process
  checked check cmd broken = not_run
  checked check cmd (ended p) =
      if check && not (succeeded p.returncode) then flasher_error cmd p else value p

  abbrev pub run : Bool → List Text → Ran Process
  run check cmd = checked check cmd (spawn cmd)

-- The result of a call that is a statement.
abbrev pub ignored : Ran Process → Ran (Unit {0})
ignored (value p) = value tt
ignored (flasher_error cmd p) = flasher_error cmd p
ignored not_run = not_run

module _ (f : CanFlasher) where
  abbrev pub base_args : List Text
  base_args =
      f.binary
      ∷ lit "--interface"
      ∷ lit "socketcan"
      ∷ lit "--channel"
      ∷ f.channel
      ∷ lit "--bitrate"
      ∷ decimal f.bitrate
      ∷ []

  abbrev pub node_args : List Text
  node_args =
      lit "--node-id" ∷ hex_text f.node_id ∷ lit "--timeout" ∷ decimal f.per_frame_timeout_ms ∷ []

  abbrev pub discover_args : Option ℕ → List Text
  discover_args timeout_ms =
      base_args
      ++ (lit "discover"
          ∷ lit "--timeout-ms"
          ∷ decimal (or_default timeout_ms f.discover_timeout_ms)
          ∷ [])

  abbrev pub flash_args : Text → ℕ → Bool → Bool → List Text → List Text
  flash_args image_path address verify jump extra_args =
      base_args
      ++ node_args
      ++ (lit "flash" ∷ image_path ∷ lit "--address" ∷ hex_text address ∷ [])
      ++ (if verify then lit "--verify-after" ∷ [] else [])
      ++ (if jump then lit "--jump" ∷ [] else [])
      ++ extra_args

  module _ (spawn : List Text → Spawned) where
    abbrev pub nodes_of : List Text → Ran Process → Ran (List DiscoveredNode)
    nodes_of args not_run = not_run
    nodes_of args (flasher_error cmd p) = flasher_error cmd p
    nodes_of args (value p) =
        if succeeded p.returncode
        then (if contains (lit "No bootloaders replied") (p.stdout ++ p.stderr)
            then value []
            else value (parsed (split_on b'\n' p.stdout)))
        else flasher_error args p

    unfoldable pub discover : Option ℕ → Ran (List DiscoveredNode)
    discover timeout_ms =
        let args = discover_args timeout_ms in nodes_of args (run spawn false args)

    unfoldable pub flash : Text → ℕ → Bool → Bool → List Text → Ran Process
    flash image_path address verify jump extra_args =
        run spawn true (flash_args image_path address verify jump extra_args)

    -- `channel or self.channel`
    abbrev pub trigger_channel : Option Text → Text
    trigger_channel none = f.channel
    trigger_channel (some []) = f.channel
    trigger_channel (some (c ∷ s)) = c ∷ s

    unfoldable pub send_boot_trigger : Option Text → Ran (Unit {0})
    send_boot_trigger channel =
        ignored (run spawn true (lit "cansend" ∷ trigger_channel channel ∷ lit "002#B007AD11" ∷ []))

    unfoldable pub app_to_bl : Ran (Unit {0})
    app_to_bl = ignored (
        run spawn true (
          base_args
          ++ node_args
          ++ (lit "send-raw" ∷ lit "0x001" ∷ lit "03" ∷ lit "06" ∷ lit "01" ∷ [])))
