-- ===== src/Drivers/Radio.antt =====
-- The radio nRF24L01+ of tools/nrf24l01.py, on the SPI line with a select that the driver or the kernel
-- moves. Its pin CE, which gates the radio and not the bus, is not modelled.
use ifs_hil.Prelude.{
  ℕ, ◌+◌, ◌*◌, ◌/◌, ◌%◌, ◌<◌, ◌≡◌, ◌⊎◌, inl, inr, Bool-cases, not, ◌&&◌, refl, sym, ap, ◌∙◌, Bool,
  true, false, List, [], ◌∷◌, if◌then◌else◌, ◌==◌, arith,
}
use ifs_hil.Prelude.Tests.{table, table-true}
use ifs_hil.Prelude.Bytes.{bit}
use ifs_hil.Prelude.Result.{Result, ok, err, index, ◌>>=◌}
use ifs_hil.Drivers.{Chip, Line, xfer2, select_low, select_high}
pub mod Readback

pub record FifoStatus : Type 0 where
  pub tx_reuse : Bool
  pub tx_full : Bool
  pub tx_empty : Bool
  pub rx_full : Bool
  pub rx_empty : Bool

-- except Exception: return False
abbrev pub or_false : Result Bool → Bool
or_false (ok b) = b
or_false (err e) = false

-- cfg | 0x02 and cfg & ~0x02
abbrev pub with_power : ℕ → ℕ
with_power cfg = cfg / 4 * 4 + 2 + cfg % 2

abbrev pub without_power : ℕ → ℕ
without_power cfg = cfg / 4 * 4 + cfg % 2

module _ {S : Type 0} (device : Chip S) (own_select : Bool) where
  unfoldable pub sel_xfer : List ℕ → Line S → List ℕ × Line S
  sel_xfer pkt l =
      let direct = xfer2 device pkt l in
      let r = xfer2 device pkt (select_low l) in
      if own_select then (r.0, select_high r.1) else direct

  unfoldable pub read_reg : ℕ → Line S → Result ℕ × Line S
  unfolding sel_xfer
  read_reg addr l = let r = sel_xfer (addr % 32 ∷ 0xFF ∷ []) l in (index r.0 1, r.1)

  unfoldable pub write_reg : ℕ → ℕ → Line S → Line S
  unfolding sel_xfer
  write_reg addr value l = (sel_xfer ((0x20 + addr % 32) ∷ value % 256 ∷ []) l).1

  unfoldable pub read_status : Line S → Result ℕ × Line S
  unfolding sel_xfer
  read_status l = let r = sel_xfer (0xFF ∷ []) l in (index r.0 0, r.1)

  unfoldable pub is_present : Line S → Bool × Line S
  is_present l =
      let r = read_reg 0x05 (write_reg 0x05 0x4C l) in
      (or_false (r.0 >>= λ readback. ok (readback == 0x4C)), r.1)

  abbrev pub write_config : (ℕ → ℕ) → Result ℕ × Line S → Result (Unit {0}) × Line S
  write_config f (ok cfg, l) = (ok tt, write_reg 0x00 (f cfg) l)
  write_config f (err e, l) = (err e, l)

  unfoldable pub power_up : Line S → Result (Unit {0}) × Line S
  power_up l = write_config with_power (read_reg 0x00 l)

  unfoldable pub power_down : Line S → Result (Unit {0}) × Line S
  power_down l = write_config without_power (read_reg 0x00 l)

  unfoldable pub read_config : Line S → Result ℕ × Line S
  read_config l = read_reg 0x00 l

  unfoldable pub set_channel : ℕ → Line S → Line S
  set_channel ch l = write_reg 0x05 (ch % 128) l

  unfoldable pub get_channel : Line S → Result ℕ × Line S
  get_channel l = let r = read_reg 0x05 l in (r.0 >>= λ v. ok (v % 128), r.1)

  unfoldable pub fifo_status : Line S → Result FifoStatus × Line S
  fifo_status l =
      let r = read_reg 0x17 l in
      (
        r.0 >>= λ raw. ok (record {
          tx_reuse = bit raw 6;
          tx_full = bit raw 5;
          tx_empty = bit raw 4;
          rx_full = bit raw 1;
          rx_empty = bit raw 0;
        }),
        r.1,
      )
