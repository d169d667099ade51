-- ===== src/Tests/Emulators.antt =====
-- The client of the cell emulator, tools/pico_ltc_emulator/host/pico_ltc_client.py, at concrete values.
use ifs_hil.Prelude.{◌<◌, ◌≡◌, refl, ◌↔◌, true, List, [], ◌∷◌, ◌+◌, ◌/◌}
use ifs_hil.Prelude.Int.{pos, negsuc}
use ifs_hil.Prelude.Numerals.{decimal_int}
use ifs_hil.Prelude.Text.{Text, lit, rstrip}
use ifs_hil.Prelude.Result.{ok}
use ifs_hil.Pico.{
  Client, Io, Wire, heard, Override, pure, module_cell_to_chain, overridden, temporarily, send_recv,
}
use ifs_hil.Pico.Address.{module_cell_to_chain-cell_of}
use ifs_hil.Pico.Restore.{temporarily-overridden}

module_cell_to_chain-cell_of_example :
    (module_cell_to_chain (pos 3) (pos 15) ≡ ok (7, 6))
    ↔ ((7 < 10) × (6 < 10) × (pos 3 ≡ pos (7 / 2)) × (pos 15 ≡ pos (9 + 6)))
module_cell_to_chain-cell_of_example = module_cell_to_chain-cell_of (pos 3) (pos 15) 7 6

-- It takes every line.
abbrev willing : List Text → Text → Wire
willing log line = heard (lit "OK")

abbrev client : Client
client = record { is_open = true; sent = [] }

abbrev cells : List Override
cells = (pos 2, pos 4, pos 3600) ∷ []

abbrev temps : List Override
temps = (pos 2, pos 17, negsuc 49) ∷ []

abbrev body : Io (Unit {0})
body = pure tt

temporarily-overridden_example : temporarily willing cells temps body client ≡ (
  ok tt,
  record {
    is_open = true;
    sent = lit "RESET_STATE" ∷ lit "SET_TEMP 2 17 -50" ∷ lit "SET_CELL 2 4 3600" ∷ [];
  },
)
unfolding temporarily overridden send_recv rstrip decimal_int
temporarily-overridden_example = temporarily-overridden willing cells temps body client refl
