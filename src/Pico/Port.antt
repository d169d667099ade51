-- ===== src/Pico/Port.antt =====
-- The port of the cell emulator's client, tools/pico_ltc_emulator/host/pico_ltc_client.py: which one is
-- taken, and how it is opened, closed and given up; and the reading of the status line. What
-- pyserial, the file system and Python's `int(v, 0)` answer are parameters.
use ifs_hil.Prelude.{
  ℕ, Bool, true, false, ◌&&◌, List, [], ◌∷◌, Option, none, some, ◌==◌, if◌then◌else◌,
}
use ifs_hil.Prelude.Int.{ℤ}
use ifs_hil.Prelude.Text.{Text, lit, same, starts_with, words}
use ifs_hil.Prelude.Result.{Result, ok, err, runtime_error, ◌>>=◌}
use ifs_hil.Pico.{Io, Wire, send_recv, ◌and_then◌, fail}

-- A port that pyserial lists; it may have no identifiers.
pub record ComPort : Type 0 where
  pub vid : Option ℕ
  pub pid : Option ℕ
  pub device : Text

abbrev is_number : Option ℕ → ℕ → Bool
is_number none n = false
is_number (some m) n = m == n

abbrev pub is_pico_cdc : ComPort → Bool
is_pico_cdc p = is_number p.vid 0x2E8A && is_number p.pid 0x000A

abbrev pub is_pico : ComPort → Bool
is_pico p = is_number p.vid 0x2E8A

abbrev pub first_of : (ComPort → Bool) → List ComPort → Option Text
first_of test [] = none
first_of test (p ∷ ps) = if test p then some p.device else first_of test ps

abbrev pub fallback : List Text → Result Text
fallback [] = err runtime_error
fallback (c ∷ cs) = ok c

abbrev pub or_else : Option Text → Result Text → Result Text
or_else none r = r
or_else (some t) r = ok t

-- The second argument is the sorted list of /dev/ttyACM*.
unfoldable pub find_pico_port : List ComPort → List Text → Result Text
find_pico_port comports candidates =
    or_else (first_of is_pico_cdc comports)
      (or_else (first_of is_pico comports) (fallback candidates))

-- `open`, where pyserial may fail to open the port. A port that is open stays as it is.
unfoldable pub open_port : Result (Unit {0}) → Io (Unit {0})
open_port connects c = if c.is_open then (ok tt, c) else opened connects c
  where
    opened : Result (Unit {0}) → Io (Unit {0})
    opened (ok u) d = (ok tt, record { is_open = true; sent = d.sent })
    opened (err e) d = (err e, d)

-- `close`, where the close of the port itself may raise.
unfoldable pub close : Result (Unit {0}) → Io (Unit {0})
close closes c =
    if c.is_open then (closes, record { is_open = false; sent = c.sent }) else (ok tt, c)

-- `reboot_to_bootloader`, by what the write and the flush give; the reply is not looked at.
unfoldable pub reboot_to_bootloader : Result (Unit {0}) → Result (Unit {0}) → Io (Unit {0})
reboot_to_bootloader writes closes c =
    if c.is_open
    then (closes >>= λ u. writes, record { is_open = false; sent = lit "BSL" ∷ c.sent })
    else (ok tt, c)

-- A value of the status: a number where `int(v, 0)` reads one, else the text.
pub data Reading : Type 0 where
  number : ℤ → Reading
  word : Text → Reading

abbrev pub Status : Type 0
Status = List (Text × Reading)

-- tok.split("=", 1), if there is an equals sign.
abbrev extend : ℕ → Option (Text × Text) → Option (Text × Text)
extend c none = none
extend c (some kv) = some (c ∷ kv.0, kv.1)

abbrev pub split_pair : Text → Option (Text × Text)
split_pair [] = none
split_pair (c ∷ s) = if c == b'=' then some ([], s) else extend c (split_pair s)

-- out[k] = v
abbrev pub store : Text → Reading → Status → Status
store k v [] = (k, v) ∷ []
store k v (e ∷ es) = if same e.0 k then (k, v) ∷ es else e ∷ store k v es

module _ (int_of : Text → Option ℤ) where
  abbrev pub reading_of : Text → Reading
  reading_of v = elim (int_of v) [ none ↦ word v | some n ↦ number n ]

  abbrev pub keep_pair : Option (Text × Text) → Status → Status
  keep_pair none out = out
  keep_pair (some kv) out = store kv.0 (reading_of kv.1) out

  abbrev pub read_tokens : List Text → Status → Status
  read_tokens [] out = out
  read_tokens (t ∷ ts) out = read_tokens ts (keep_pair (split_pair t) out)

  -- The first token is the OK itself.
  abbrev pub read_fields : List Text → Status
  read_fields [] = []
  read_fields (t ∷ ts) = read_tokens ts []

  unfoldable pub status_of : Text → Result Status
  unfolding words
  status_of line =
      if starts_with (lit "OK") line then ok (read_fields (words line)) else err runtime_error

  unfoldable pub status : (List Text → Text → Wire) → Io Status
  status device = send_recv device (lit "STATUS") and_then λ line. fail (status_of line)
