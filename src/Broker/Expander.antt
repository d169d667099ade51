-- ===== src/Broker/Expander.antt =====
-- The expander's driver, tools/tca9555.py, on the registers of a chip that may not answer. A call that
-- raises is `none`. Reading an input register gives what the chip holds there.
use ifs_hil.Prelude.{
  ℕ, ◌<◌, ◌%◌, ◌≡◌, refl, sym, Bool, true, false, not, List, Option, none, some, if◌then◌else◌, set,
  get_elem?, length, ltb, arith, ◌==◌, get_elem?-set_self,
}
use ifs_hil.Prelude.Tests.{table, table-true}
use ifs_hil.Prelude.Bytes.{bit}
use ifs_hil.Broker.Fake.{with_pin}

-- The registers: input 0 and 1, output 0 and 1, polarity 0 and 1, configuration 0 and 1.
pub record Chip : Type 0 where
  pub acks : Bool
  pub regs : List ℕ

abbrev pub reg_output : ℕ → ℕ
reg_output port = if port == 0 then 0x02 else 0x03

abbrev pub reg_config : ℕ → ℕ
reg_config port = if port == 0 then 0x06 else 0x07

abbrev pub reg_input : ℕ → ℕ
reg_input port = if port == 0 then 0x00 else 0x01

abbrev pub read_reg : ℕ → Chip → Option ℕ
read_reg reg c = if c.acks then get_elem? c.regs reg else none

abbrev pub write_reg : ℕ → ℕ → Chip → Option Chip
write_reg reg value c =
    if c.acks then some (record c { regs = set c.regs reg (value % 256) }) else none

abbrev pub on_some : {A B : Type 0} → Option A → (A → Option B) → Option B
on_some none f = none
on_some (some a) f = f a

abbrev pub chip_set_direction : ℕ → ℕ → Chip → Option Chip
chip_set_direction port mask c = write_reg (reg_config port) mask c

abbrev pub chip_get_direction : ℕ → Chip → Option ℕ
chip_get_direction port c = read_reg (reg_config port) c

abbrev pub chip_set_all : ℕ → Chip → Option Chip
chip_set_all mask c = on_some (write_reg 0x06 mask c) (write_reg 0x07 mask)

abbrev pub chip_write_port : ℕ → ℕ → Chip → Option Chip
chip_write_port port value c = write_reg (reg_output port) value c

unfoldable pub chip_write_pin : ℕ → ℕ → Bool → Chip → Option Chip
chip_write_pin port pin state c =
    on_some (read_reg (reg_output port) c)
      (λ current. write_reg (reg_output port) (with_pin current pin state) c)

abbrev pub chip_write_all : ℕ → ℕ → Chip → Option Chip
chip_write_all v0 v1 c = on_some (write_reg 0x02 v0 c) (write_reg 0x03 v1)

abbrev pub chip_read_port : ℕ → Chip → Option ℕ
chip_read_port port c = read_reg (reg_input port) c

abbrev pub chip_read_pin : ℕ → ℕ → Chip → Option Bool
chip_read_pin port pin c = on_some (chip_read_port port c) (λ v. some (bit v pin))

abbrev pub chip_is_present : Chip → Bool
chip_is_present c = elim (read_reg 0x06 c) [ none ↦ false | some v ↦ true ]

abbrev same_flag : Bool → Bool → Bool
same_flag true b = b
same_flag false b = not b

same_flag-eq : (a b : Bool) → same_flag a b ≡ true → a ≡ b
same_flag-eq true b h = sym h
same_flag-eq false false h = refl
same_flag-eq false true h = cc

abbrev pin_after : ℕ → ℕ → ℕ → Bool → Bool
pin_after cur pin other state =
    same_flag (bit (with_pin cur pin state % 256) other)
      (if other == pin then state else bit cur other)

pin_table :
    (state : Bool)
    → table (λ cur. table (λ pin. table (λ other. pin_after cur pin other state) 8) 8) 256 ≡ true
unfolding table
pin_table true = refl
pin_table false = refl

byte_table :
    (state : Bool) → table (λ cur. table (λ pin. ltb (with_pin cur pin state) 256) 8) 256 ≡ true
unfolding table
byte_table true = refl
byte_table false = refl

-- Switching a pin of a byte gives a byte.
pub with_pin-lt : (cur pin : ℕ) (state : Bool) → cur < 256 → pin < 8 → with_pin cur pin state < 256
with_pin-lt cur pin state c p =
    let t = table-true _ 8 pin p (table-true _ 256 cur c (byte_table state)) in ground (arith, t)

pub with_pin-bit :
    (cur pin other : ℕ) (state : Bool)
    → cur < 256
    → pin < 8
    → other < 8
    → bit (with_pin cur pin state % 256) other ≡ (if other == pin then state else bit cur other)
with_pin-bit cur pin other state c p o =
    same_flag-eq _ _
      (table-true _ 8 other o (table-true _ 8 pin p (table-true _ 256 cur c (pin_table state))))

-- On a chip that answers and whose output register holds a byte, switching one of the eight pins changes
-- that pin of the register to the state asked for and no other pin of it.
chip_write_pin-bit :
    (port pin other cur : ℕ) (state : Bool) (regs : List ℕ)
    → get_elem? regs (reg_output port) ≡ some cur
    → cur < 256
    → pin < 8
    → other < 8
    → reg_output port < length regs
    → (v : ℕ) × (on_some
          (chip_write_pin port pin state (record { acks = true; regs = regs }))
          (read_reg (reg_output port))
        ≡ some v)
      × (bit v other ≡ (if other == pin then state else bit cur other))
unfolding chip_write_pin
chip_write_pin-bit port pin other cur state regs e c p o fits = (
  with_pin cur pin state % 256,
  rw e (get_elem?-set_self regs (reg_output port) (with_pin cur pin state % 256) fits),
  with_pin-bit cur pin other state c p o,
)
