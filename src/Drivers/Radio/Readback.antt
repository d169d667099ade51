-- ===== src/Drivers/Radio/Readback.antt =====
-- What the driver of tools/nrf24l01.py writes to its registers and reads back.
use ifs_hil.Prelude.{
  ℕ, ◌+◌, ◌%◌, ◌<◌, ◌≡◌, ◌⊎◌, inl, inr, Bool-cases, not, ◌&&◌, refl, sym, ap, ◌∙◌, Bool, true,
  false, [], ◌∷◌, if◌then◌else◌, ◌==◌, arith,
}
use ifs_hil.Prelude.Tests.{table, table-true}
use ifs_hil.Prelude.Bytes.{bit}
use ifs_hil.Prelude.Result.{Result, ok, ◌>>=◌}
use ifs_hil.Drivers.{Chip, Line}
use ifs_hil.Drivers.Radio.{
  or_false, with_power, without_power, sel_xfer, read_reg, write_reg, is_present, write_config,
  power_up, power_down, read_config, set_channel, get_channel,
}

-- What the data sheet says of the registers CONFIG and RF_CH, whose top bits are always 0, as `reg`
-- shows them.
pub record IsRadio {S : Type 0} (device : Chip S) (reg : S → ℕ → ℕ) : Type 0 where
  pub seven_bits : (a : ℕ) (s : S) → (a ≡ 0x00) ⊎ (a ≡ 0x05) → reg s a < 128
  pub answers :
      (a : ℕ) (s : S)
      → (a ≡ 0x00) ⊎ (a ≡ 0x05)
      → (x : ℕ) × ((device (a ∷ 0xFF ∷ []) s).0 ≡ x ∷ reg s a ∷ [])
  pub keeps :
      (a b : ℕ) (s : S)
      → (a ≡ 0x00) ⊎ (a ≡ 0x05)
      → (b ≡ 0x00) ⊎ (b ≡ 0x05)
      → reg (device (a ∷ 0xFF ∷ []) s).1 b ≡ reg s b
  pub writes :
      (a b v : ℕ) (s : S)
      → (a ≡ 0x00) ⊎ (a ≡ 0x05)
      → (b ≡ 0x00) ⊎ (b ≡ 0x05)
      → v < 128
      → reg (device ((0x20 + a) ∷ v ∷ []) s).1 b ≡ (if b == a then v else reg s b)

abbrev same_bit : Bool → Bool → Bool
same_bit true b = b
same_bit false b = not b

same_bit-eq : (a b : Bool) → same_bit a b ≡ true → a ≡ b
same_bit-eq true b h = sym h
same_bit-eq false false h = refl
same_bit-eq false true h = cc

power_table :
    table
      (λ cfg.
        table
          (λ k.
            same_bit (bit (with_power cfg) k) (if k == 1 then true else bit cfg k)
            && same_bit (bit (without_power cfg) k) (if k == 1 then false else bit cfg k))
          8)
      128
    ≡ true
unfolding table
power_table = refl

both : (a b : Bool) → (a && b) ≡ true → (a ≡ true) × (b ≡ true)
both true b h = (refl, h)
both false b h = cc

power-bit :
    (cfg k : ℕ)
    → cfg < 128
    → k < 8
    → (bit (with_power cfg) k ≡ (if k == 1 then true else bit cfg k))
      × (bit (without_power cfg) k ≡ (if k == 1 then false else bit cfg k))
power-bit cfg k c h =
    let t = both _ _ (table-true _ 8 k h (table-true _ 128 cfg c power_table)) in
    (same_bit-eq _ _ t.0, same_bit-eq _ _ t.1)

module _ {S : Type 0} {device : Chip S} {reg : S → ℕ → ℕ} (laws : IsRadio device reg)
    (own : Bool) where
  read-known :
      (a : ℕ) (l : Line S)
      → a < 32
      → (a ≡ 0x00) ⊎ (a ≡ 0x05)
      → ((read_reg device own a l).0 ≡ ok (reg l.chip a))
        × ((b : ℕ)
            → (b ≡ 0x00) ⊎ (b ≡ 0x05)
            → reg (read_reg device own a l).1.chip b ≡ reg l.chip b)
  unfolding read_reg sel_xfer
  read-known a l lt h =
      let same : a % 32 ≡ a = omega (arith, lt) in
      elim (Bool-cases own) [
        | inl e ↦
            rw (e, same) (rw ((laws.answers a l.chip h).1) refl, λ b k. laws.keeps a b l.chip h k)
        | inr e ↦
            rw (e, same) (rw ((laws.answers a l.chip h).1) refl, λ b k. laws.keeps a b l.chip h k)
      ]

  write-known :
      (a v b : ℕ) (l : Line S)
      → a < 32
      → (a ≡ 0x00) ⊎ (a ≡ 0x05)
      → (b ≡ 0x00) ⊎ (b ≡ 0x05)
      → v < 128
      → reg (write_reg device own a v l).chip b ≡ (if b == a then v else reg l.chip b)
  unfolding write_reg sel_xfer
  write-known a v b l lt h k small =
      let same : a % 32 ≡ a = omega (arith, lt) in
      let byte : v % 256 ≡ v = omega (arith, small) in
      elim (Bool-cases own) [
        | inl e ↦ rw (e, same, byte) (laws.writes a b v l.chip h k small)
        | inr e ↦ rw (e, same, byte) (laws.writes a b v l.chip h k small)
      ]

-- On a radio that behaves as its data sheet says, whichever way its select is moved: a channel that is set
-- is read back modulo 128; power_up and power_down set and clear bit 1 of CONFIG and leave its other
-- bits; is_present returns True, and leaves the radio on channel 0x4C.
pub radio_readback :
    {S : Type 0} (device : Chip S) (reg : S → ℕ → ℕ) (own : Bool) (ch : ℕ) (l : Line S)
    → IsRadio device reg
    → ((get_channel device own (set_channel device own ch l)).0 ≡ ok (ch % 128))
      × ((v : ℕ) × ((read_config device own (power_up device own l).1).0 ≡ ok v)
          × ((k : ℕ) → k < 8 → bit v k ≡ (if k == 1 then true else bit (reg l.chip 0) k)))
      × ((v : ℕ) × ((read_config device own (power_down device own l).1).0 ≡ ok v)
          × ((k : ℕ) → k < 8 → bit v k ≡ (if k == 1 then false else bit (reg l.chip 0) k)))
      × ((is_present device own l).0 ≡ true)
      × ((get_channel device own (is_present device own l).1).0 ≡ ok 0x4C)
unfolding get_channel set_channel power_up power_down read_config is_present
radio_readback device reg own ch l laws =
    let chan : ◌⊎◌ (◌≡◌ {A = ℕ} 5 0) (◌≡◌ {A = ℕ} 5 5) = inr refl in
    let conf : ◌⊎◌ (◌≡◌ {A = ℕ} 0 0) (◌≡◌ {A = ℕ} 0 5) = inl refl in
    let cfg : ℕ = reg l.chip 0 in
    let c : cfg < 128 = laws.seven_bits 0 l.chip conf in
    let first = read-known laws own 0 l (omega arith) conf in
    let l1 = (read_reg device own 0 l).1 in
    let up : Line _ = write_reg device own 0 (with_power cfg) l1 in
    let down : Line _ = write_reg device own 0 (without_power cfg) l1 in
    let set_up =
      write-known laws own 0 (with_power cfg) 0 l1 (omega arith) conf conf (omega (arith, c)) in
    let set_down =
      write-known laws own 0 (without_power cfg) 0 l1 (omega arith) conf conf (omega (arith, c)) in
    let probe : Line _ = write_reg device own 5 0x4C l in
    let probed = write-known laws own 5 0x4C 5 l (omega arith) chan chan (omega arith) in
    let seen = read-known laws own 5 probe (omega arith) chan in
    let after = read-known laws own 5 (read_reg device own 5 probe).1 (omega arith) chan in
    let chosen : Line _ = write_reg device own 5 (ch % 128) l in
    let heard = read-known laws own 5 chosen (omega arith) chan in
    let turned = write-known laws own 5 (ch % 128) 5 l (omega arith) chan chan (omega arith) in
    (
      ap (λ (x : Result ℕ). x >>= λ v. ok (v % 128)) (heard.0 ∙ ap ok turned) ∙ ap ok (omega arith),
      (
        with_power cfg,
        ap (λ r. (read_config device own (write_config device own with_power (r, l1)).1).0) first.0
            ∙ (read-known laws own 0 up (omega arith) conf).0
            ∙ ap ok set_up,
        λ k h. (power-bit cfg k c h).0,
      ),
      (
        without_power cfg,
        ap (λ r. (read_config device own (write_config device own without_power (r, l1)).1).0)
              first.0
            ∙ (read-known laws own 0 down (omega arith) conf).0
            ∙ ap ok set_down,
        λ k h. (power-bit cfg k c h).1,
      ),
      ap (λ (x : Result ℕ). or_false (x >>= λ v. ok (v == 0x4C))) (seen.0 ∙ ap ok probed),
      ap (λ (x : Result ℕ). x >>= λ v. ok (v % 128)) (after.0 ∙ ap ok (seen.1 5 chan ∙ probed)),
    )
