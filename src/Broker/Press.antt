-- ===== src/Broker/Press.antt =====
-- `TcaPin` of tools/firmware_test/tca_pin.py: one output of an expander, which the broker switches by
-- the driver of tools/tca9555.py. The waits between the calls are not modelled.
use ifs_hil.Prelude.{
  ℕ, ◌<◌, ◌%◌, ◌≡◌, refl, sym, ap, subst, ◌∙◌, Bool, true, false, Option, some, if◌then◌else◌, set,
  get_elem?, length, ◌==◌, length-set, get_elem?-set_self, arith,
}
use ifs_hil.Prelude.Bytes.{bit}
use ifs_hil.Broker.Fake.{with_pin}
use ifs_hil.Broker.Expander.{
  Chip, reg_output, read_reg, on_some, chip_write_pin, with_pin-lt, with_pin-bit,
}

-- The chip that the address names is an argument of the calls; the label is for the log.
pub record TcaPin : Type 0 where
  pub port : ℕ
  pub pin : ℕ

unfoldable pub set_level : TcaPin → Bool → Chip → Option Chip
set_level p value c = chip_write_pin p.port p.pin value c

unfoldable pub assert_level : TcaPin → Chip → Option Chip
assert_level p c = set_level p true c

unfoldable pub deassert : TcaPin → Chip → Option Chip
deassert p c = set_level p false c

-- The chip after each of the calls.
unfoldable pub press : TcaPin → Chip → Option (Chip × Chip × Chip)
press p c = on_some (deassert p c) (λ idle.
    on_some (assert_level p idle)
      (λ held. on_some (deassert p held) (λ released. some (idle, held, released))))

-- The chip answers, and its output register of a port holds a byte.
pub record Drives (port : ℕ) (c : Chip) (level : ℕ) : Type 0 where
  pub answers : c.acks ≡ true
  pub register : get_elem? c.regs (reg_output port) ≡ some level
  pub byte : level < 256
  pub room : reg_output port < length c.regs

write_pin-Drives :
    (port pin cur : ℕ) (v : Bool) (c : Chip)
    → Drives port c cur
    → pin < 8
    → (c' : Chip) × (chip_write_pin port pin v c ≡ some c') × Drives port c' (with_pin cur pin v)
unfolding chip_write_pin
write_pin-Drives port pin cur v c d h =
    let small : with_pin cur pin v < 256 = with_pin-lt cur pin v d.byte h in
    let same : with_pin cur pin v % 256 ≡ with_pin cur pin v = omega (arith, small) in
    (
      record c { regs = set c.regs (reg_output port) (with_pin cur pin v % 256) },
      rw (d.answers, d.register) refl,
      record {
        answers = d.answers;
        register = get_elem?-set_self c.regs (reg_output port) _ d.room ∙ ap some same;
        byte = small;
        room =
            subst (λ n. reg_output port < n) (sym (length-set {0} c.regs (reg_output port) _))
              d.room;
      },
    )

-- In the output register of a port, one pin has a level and the others are as they were.
abbrev pub IsLevel : TcaPin → ℕ → Bool → Chip → Type 0
IsLevel p before level c =
    (after : ℕ) × (read_reg (reg_output p.port) c ≡ some after)
    × ((other : ℕ)
        → other < 8
        → bit after other ≡ (if other == p.pin then level else bit before other))

read-Drives :
    (port cur : ℕ) (c : Chip) → Drives port c cur → read_reg (reg_output port) c ≡ some cur
read-Drives port cur c d = rw (d.answers, d.register) refl

with_pin-whole :
    (cur pin other : ℕ) (v : Bool)
    → cur < 256
    → pin < 8
    → other < 8
    → bit (with_pin cur pin v) other ≡ (if other == pin then v else bit cur other)
with_pin-whole cur pin other v b p o =
    let small : with_pin cur pin v < 256 = with_pin-lt cur pin v b p in
    let same : with_pin cur pin v % 256 ≡ with_pin cur pin v = omega (arith, small) in
    ap (λ x. bit x other) (sym same) ∙ with_pin-bit cur pin other v b p o

overwritten : (b u v w : Bool) → (if b then u else (if b then v else w)) ≡ (if b then u else w)
overwritten true u v w = refl
overwritten false u v w = refl

-- Switching a pin again leaves the other pins as they were before.
IsLevel-again :
    (p : TcaPin) (before : ℕ) (v : Bool) (c : Chip)
    → IsLevel p before v c
    → (w : Bool) (cur : ℕ) → Drives p.port c cur
    → p.pin < 8
    → (c' : Chip) → Drives p.port c' (with_pin cur p.pin w)
    → IsLevel p before w c'
IsLevel-again p before v c (a, e, l) w cur d h c' d' =
    let both : some a ≡ some cur = sym e ∙ read-Drives p.port cur c d in
    let same : a ≡ cur = cc in
    (
      with_pin cur p.pin w,
      read-Drives p.port _ c' d',
      λ other o.
          with_pin-whole cur p.pin other w d.byte h o
          ∙ ap (λ b. if other == p.pin then w else b) (ap (λ x. bit x other) (sym same) ∙ l other o)
          ∙ overwritten (other == p.pin) w v (bit before other),
    )

-- On a chip that answers and whose output register holds a byte, a press of one of its eight pins returns;
-- the pin is low after the first call, high after the second and low after the third, whatever it was
-- before, and at each of these the other pins of the register are as they were before the press.
press-IsLevel :
    (p : TcaPin) (cur : ℕ) (c : Chip)
    → Drives p.port c cur
    → p.pin < 8
    → (s : Chip × Chip × Chip) × (press p c ≡ some s)
      × IsLevel p cur false s.0
      × IsLevel p cur true s.1
      × IsLevel p cur false s.2
unfolding press deassert assert_level set_level
press-IsLevel p cur c d h =
    let idle = write_pin-Drives p.port p.pin cur false c d h in
    let held = write_pin-Drives p.port p.pin (with_pin cur p.pin false) true idle.0 idle.2 h in
    let end =
      write_pin-Drives p.port p.pin (with_pin (with_pin cur p.pin false) p.pin true) false held.0
        held.2 h in
    let low : IsLevel p cur false idle.0 = (
      with_pin cur p.pin false,
      read-Drives p.port _ idle.0 idle.2,
      λ other o. with_pin-whole cur p.pin other false d.byte h o,
    ) in
    let high : IsLevel p cur true held.0 =
      IsLevel-again p cur false idle.0 low true _ idle.2 h held.0 held.2 in
    (
      (idle.0, held.0, end.0),
      rw (idle.1, held.1, end.1) refl,
      low,
      high,
      IsLevel-again p cur true held.0 high false _ held.2 h end.0 end.2,
    )
