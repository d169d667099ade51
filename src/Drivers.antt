-- ===== src/Drivers.antt =====
-- The SPI line that the drivers of tools/ share: its mode, the select of the driver's chip, and a chip
-- that answers a frame. A driver whose select the kernel moves leaves both alone.
use ifs_hil.Prelude.{ℕ, Bool, true, false, List, [], ◌∷◌}
pub mod Dac
pub mod Adc
pub mod Can
pub mod Radio
pub mod Monitor

-- A chip of states S: what it answers to the bytes of a frame, and the state after it.
abbrev pub Chip : Type 0 → Type 0
Chip S = List ℕ → S → List ℕ × S

-- A frame as the chip met it: the mode of the line, and whether the driver held the select low.
pub record Framed : Type 0 where
  pub mode : ℕ
  pub selected : Bool
  pub bytes : List ℕ

-- The last frame stands first.
pub record Line (S : Type 0) : Type 0 where
  pub chip : S
  pub mode : ℕ
  pub cs_low : Bool
  pub frames : List Framed

module _ {S : Type 0} (device : Chip S) where
  -- spi.xfer2
  abbrev pub xfer2 : List ℕ → Line S → List ℕ × Line S
  xfer2 pkt l =
      let r = device pkt l.chip in
      (
        r.0,
        record l {
          chip = r.1;
          frames = record { mode = l.mode; selected = l.cs_low; bytes = pkt } ∷ l.frames;
        },
      )

abbrev pub select_low : {S : Type 0} → Line S → Line S
select_low l = record l { cs_low = true }

abbrev pub select_high : {S : Type 0} → Line S → Line S
select_high l = record l { cs_low = false }

abbrev pub set_line_mode : {S : Type 0} → ℕ → Line S → Line S
set_line_mode m l = record l { mode = m }
