-- ===== src/Pico.antt =====
-- tools/pico_ltc_emulator/host/pico_ltc_client.py: the client of the cell emulator. The emulator is a
-- parameter: what the port gives for a line, by the lines sent before it.
use ifs_hil.Prelude.{
  ℕ, ◌+◌, ◌-◌, ◌*◌, Bool, true, false, not, ◌&&◌, List, [], ◌∷◌, ◌++◌, Option, none, some, ltb, leb,
  ◌==◌, if◌then◌else◌,
}
use ifs_hil.Prelude.Int.{ℤ, pos, negsuc}
use ifs_hil.Prelude.Numerals.{decimal_int, hex_byte}
use ifs_hil.Prelude.Text.{Text, lit, rstrip, starts_with}
use ifs_hil.Prelude.Result.{Result, ok, err, runtime_error, value_error, os_error}
pub mod Address
pub mod Restore
pub mod Port

-- The client: whether `_ser` holds an open port, and the lines written to it, the last one first.
pub record Client : Type 0 where
  pub is_open : Bool
  pub sent : List Text

-- An action of the client, which returns or raises.
abbrev pub Io : Type 0 → Type 0
Io A = Client → Result A × Client

abbrev pub after : {A B : Type 0} → Result A × Client → (A → Io B) → Result B × Client
after (ok a, c) k = k a c
after (err e, c) k = (err e, c)

infixl 5 ◌and_then◌
abbrev pub ◌and_then◌ : {A B : Type 0} → Io A → (A → Io B) → Io B
(io and_then k) c = after (io c) k

abbrev pub pure : {A : Type 0} → A → Io A
pure a c = (ok a, c)

abbrev pub fail : {A : Type 0} → Result A → Io A
fail r c = (r, c)

-- What a cleanup leaves: its own exception, or the outcome of the block.
abbrev pub cleaned : {A : Type 0} → Result A → Result (Unit {0}) × Client → Result A × Client
cleaned r (ok u, c) = (r, c)
cleaned r (err e, c) = (err e, c)

-- try: block finally: cleanup
abbrev pub with_cleanup : {A : Type 0} → Io A → Io (Unit {0}) → Io A
with_cleanup block cleanup c = let r = block c in cleaned r.0 (cleanup r.1)

abbrev pub cells_per_ltc_upper : ℕ
cells_per_ltc_upper = 9

abbrev pub cells_per_ltc_lower : ℕ
cells_per_ltc_lower = 10

abbrev pub cells_per_module : ℕ
cells_per_module = cells_per_ltc_upper + cells_per_ltc_lower

-- `0 <= z < bound`, or ValueError.
abbrev pub require_below : ℕ → ℤ → Result ℕ
require_below bound (pos n) = if ltb n bound then ok n else err value_error
require_below bound (negsuc n) = err value_error

abbrev split_cell : ℕ → ℕ → ℕ × ℕ
split_cell m c =
    if ltb c cells_per_ltc_upper then (2 * m, c) else (2 * m + 1, c - cells_per_ltc_upper)

abbrev pub both : {A B : Type 0} → Result ℕ → Result A → (ℕ → A → B) → Result B
both (ok m) (ok c) f = ok (f m c)
both (ok m) (err e) f = err e
both (err e) c f = err e

unfoldable pub module_cell_to_chain : ℤ → ℤ → Result (ℕ × ℕ)
module_cell_to_chain m cell = both (require_below 5 m) (require_below 19 cell) split_cell

-- Adg731ChannelMap[sensor], and the position of the upper LTC.
abbrev temp_channel : ℕ → ℕ → ℕ × ℕ
temp_channel m s = (2 * m, if ltb s 10 then s else s + 6)

abbrev pub module_temp_to_chain : ℤ → ℤ → Result (ℕ × ℕ)
module_temp_to_chain m sensor = both (require_below 5 m) (require_below 20 sensor) temp_channel

-- f"{name} {a} {b} {c}"
abbrev pub spaced : Text → List ℤ → Text
spaced name [] = name
spaced name (z ∷ zs) = spaced (name ++ (b' ' ∷ decimal_int z)) zs

abbrev pub cell_line : ℤ → ℤ → ℤ → Text
cell_line m c mv = spaced (lit "SET_CELL") (m ∷ c ∷ mv ∷ [])

abbrev pub temp_line : ℤ → ℤ → ℤ → Text
temp_line m s t = spaced (lit "SET_TEMP") (m ∷ s ∷ t ∷ [])

abbrev pub stop_line : ℕ → Text
stop_line mask = lit "STOP_REPLY 0x" ++ hex_byte mask

-- What the port gives when a line is written, flushed and the reply is read: a line, decoded, or the
-- exception that one of the three calls raises.
pub data Wire : Type 0 where
  heard : Text → Wire
  broken : Wire

-- A reply that starts with ERR is raised.
abbrev pub judged : Text → Result Text
judged reply = if starts_with (lit "ERR") reply then err runtime_error else ok reply

abbrev pub accept : Wire → Result Text
accept (heard reply) = judged (rstrip reply)
accept broken = err os_error

abbrev pub each : {A : Type 0} → (A → Io (Unit {0})) → List A → Io (Unit {0})
each act [] = pure tt
each act (x ∷ xs) = act x and_then λ u. each act xs

-- {(module, cell): mV}, in the dictionary's order.
abbrev pub Override : Type 0
Override = ℤ × ℤ × ℤ

module _ (device : List Text → Text → Wire) where
  -- The line is recorded without its newline.
  abbrev pub exchange : Text → Io Text
  exchange line c =
      (accept (device c.sent line), record { is_open = c.is_open; sent = line ∷ c.sent })

  unfoldable pub send_recv : Text → Io Text
  send_recv line c = if c.is_open then exchange (rstrip line) c else (err runtime_error, c)

  abbrev pub command : Text → Io (Unit {0})
  command line = send_recv line and_then λ reply. pure tt

  abbrev pub set_cell : ℤ → ℤ → ℤ → Io (Unit {0})
  set_cell m c mv = command (cell_line m c mv)

  abbrev pub set_temp : ℤ → ℤ → ℤ → Io (Unit {0})
  set_temp m s t = command (temp_line m s t)

  abbrev pub set_all_cells : ℤ → Io (Unit {0})
  set_all_cells mv = command (spaced (lit "SET_ALL_CELLS") (mv ∷ []))

  abbrev pub set_all_temps : ℤ → Io (Unit {0})
  set_all_temps t = command (spaced (lit "SET_ALL_TEMPS") (t ∷ []))

  abbrev pub ping : Io Text
  ping = send_recv (lit "PING")

  abbrev pub reset_state : Io (Unit {0})
  reset_state = command (lit "RESET_STATE")

  abbrev pub resume_all : Io (Unit {0})
  resume_all = command (lit "RESUME_ALL")

  unfoldable pub stop_reply : ℤ → Io (Unit {0})
  stop_reply mask = fail (require_below 0x20 mask) and_then λ m. command (stop_line m)

  -- `set_module_cell` and `inject_cell_v`.
  unfoldable pub set_module_cell : ℤ → ℤ → ℤ → Io (Unit {0})
  set_module_cell m cell mv =
      fail (module_cell_to_chain m cell) and_then λ at. set_cell (pos at.0) (pos at.1) mv

  -- `set_module_temp` and `inject_cell_t`.
  unfoldable pub set_module_temp : ℤ → ℤ → ℤ → Io (Unit {0})
  set_module_temp m sensor t =
      fail (module_temp_to_chain m sensor) and_then λ at. set_temp (pos at.0) (pos at.1) t

  abbrev pub apply_cell : Override → Io (Unit {0})
  apply_cell o = set_cell o.0 o.1 o.2

  abbrev pub apply_temp : Override → Io (Unit {0})
  apply_temp o = set_temp o.0 o.1 o.2

  -- The overrides, and then the body of the `with` block.
  unfoldable pub overridden : {A : Type 0} → List Override → List Override → Io A → Io A
  overridden cells temps body =
      each apply_cell cells and_then λ u. each apply_temp temps and_then λ v. body

  unfoldable pub temporarily : {A : Type 0} → List Override → List Override → Io A → Io A
  temporarily cells temps body = with_cleanup (overridden cells temps body) reset_state
