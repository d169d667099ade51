-- ===== src/Vcu/Crc.antt =====
-- CRC-8 SAE J1850 and the E2E frame of tools/firmware_test/vcu/can_map.py.
pub mod Detect
use mathlib.Core.List.{foldl}
use ifs_hil.Prelude.{
  ℕ, zero, suc, ◌+◌, ◌*◌, ◌/◌, ◌%◌, ◌<◌, ◌≡◌, ◌≢◌, refl, ap, Bool, true, List, [], ◌∷◌, ◌++◌,
  bit_xor, if◌then◌else◌, ◌==◌, ==_iff, replicate, set, drop, arith, ◌&&◌, ltb,
}
use ifs_hil.Prelude.Tests.{table, table-true}
use ifs_hil.Prelude.Bytes.{bit, IsBytes}

-- One round of the inner loop; `& 0xFF` is the remainder by 256.
unfoldable pub crc_bit : ℕ → ℕ
crc_bit crc = if bit crc 7 then bit_xor (crc * 2) 0x1D % 256 else crc * 2 % 256

unfoldable pub crc_rounds : ℕ → ℕ → ℕ
unfolding crc_bit
crc_rounds zero crc = crc
crc_rounds (suc n) crc = crc_rounds n (crc_bit crc)

unfoldable pub crc_byte : ℕ → ℕ → ℕ
unfolding crc_rounds
crc_byte crc b = crc_rounds 8 (bit_xor crc b)

unfoldable pub crc_from : ℕ → List ℕ → ℕ
unfolding crc_byte
crc_from crc [] = crc
crc_from crc (b ∷ bs) = crc_from (crc_byte crc b) bs

unfoldable pub crc8_j1850 : List ℕ → ℕ
unfolding crc_from
crc8_j1850 payload = bit_xor (crc_from 0xFF payload) 0xFF

-- `sig_writer` is a function on the buffer. Both callers write inside the frame.
unfoldable pub e2e_frame : ℕ → ℕ → ℕ → (List ℕ → List ℕ) → List ℕ
e2e_frame dlc cnt data_id sig_writer =
    let buf = sig_writer (set (replicate dlc 0) 1 (cnt % 16)) in
    set buf 0 (crc8_j1850 (data_id % 256 ∷ drop 1 buf))
