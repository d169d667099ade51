-- ===== src/Pico/Address.antt =====
-- The addresses of tools/pico_ltc_emulator/host/pico_ltc_client.py: the cells of the five modules and
-- the positions of the chain.
use ifs_hil.Prelude.{ℕ, ◌+◌, ◌/◌, ◌%◌, ◌<◌, ◌≡◌, ◌↔◌, ◌==◌, if◌then◌else◌, arith}
use ifs_hil.Prelude.Int.{ℤ, pos, negsuc}
use ifs_hil.Prelude.Result.{ok}
use ifs_hil.Pico.{cells_per_ltc_upper, cells_per_ltc_lower, module_cell_to_chain}

-- The cells that the LTC at a position of the chain has: the first of each two is the upper one.
abbrev pub cells_at : ℕ → ℕ
cells_at p = if p % 2 == 0 then cells_per_ltc_upper else cells_per_ltc_lower

-- The cell of its module that the cell q of the position p is.
abbrev pub cell_of : ℕ → ℕ → ℕ
cell_of p q = if p % 2 == 0 then q else cells_per_ltc_upper + q

-- A position and a cell of its LTC are addressed exactly by the module of the position and the cell of
-- that module that they are. So each of the 95 cells of the chain has one address, and no two addresses
-- share a cell.
pub module_cell_to_chain-cell_of :
    (m c : ℤ) (p q : ℕ)
    → (module_cell_to_chain m c ≡ ok (p, q))
      ↔ ((p < 10) × (q < cells_at p) × (m ≡ pos (p / 2)) × (c ≡ pos (cell_of p q)))
unfolding module_cell_to_chain
module_cell_to_chain-cell_of (pos m) (pos c) p q = (λ e. ground (arith, e), λ h. ground (arith, h))
module_cell_to_chain-cell_of (pos m) (negsuc c) p q =
    (λ e. ground (arith, e), λ h. ground (arith, h))
module_cell_to_chain-cell_of (negsuc m) c p q = (λ e. ground (arith, e), λ h. ground (arith, h))
