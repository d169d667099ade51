-- ===== src/Drivers/Dac/Readback.antt =====
-- What the driver of tools/dac80504.py writes to its chip and to the line, and reads back.
use ifs_hil.Prelude.{
  ℕ, zero, suc, ◌+◌, ◌*◌, ◌/◌, ◌%◌, ◌<◌, ◌≤◌, ◌≡◌, refl, sym, ◌∙◌, ap, Bool, true, false, List, [],
  ◌∷◌, ◌++◌, All, Bool-cases, inl, inr, arith,
}
use mathlib.Core.List.{append_assoc}
use ifs_hil.Prelude.Every.{All-append}
use ifs_hil.Prelude.Result.{ok, ◌>>=◌}
use ifs_hil.Drivers.{Chip, Framed, Line}
use ifs_hil.Drivers.Dac.{xfer, word_of, write_reg, read_reg, channel_reg, set_voltage, get_voltage}

-- What the data sheet says of the four output registers, as `reg` shows them: a write frame sets one of
-- them, a read frame and an empty one change none, and an empty frame after a read frame answers
-- with the register that was asked for.
pub record IsDac {S : Type 0} (device : Chip S) (reg : S → ℕ → ℕ) : Type 0 where
  pub writes :
      (a high low : ℕ) (s : S)
      → 8 ≤ a
      → a < 12
      → high < 256
      → low < 256
      → reg (device (a ∷ high ∷ low ∷ []) s).1 a ≡ high * 256 + low
  pub answers :
      (a : ℕ) (s : S)
      → 8 ≤ a
      → a < 12
      → (x : ℕ) × ((device (0 ∷ 0 ∷ 0 ∷ []) (device ((0x80 + a) ∷ 0 ∷ 0 ∷ []) s).1).0
          ≡ (x ∷ (reg s a / 256) ∷ (reg s a % 256) ∷ []))

-- The line after some transfers of a driver: in the mode it had, and, when the driver moves its select,
-- with the select released and every frame sent in mode 1 with the select held.
pub record IsClean {S : Type 0} (own_select : Bool) (l m : Line S) : Type 0 where
  pub same_mode : m.mode ≡ l.mode
  pub released : own_select ≡ true → m.cs_low ≡ false
  pub framed :
      (new : List Framed) × (m.frames ≡ new ++ l.frames)
      × (own_select ≡ true → All (λ (f : Framed). (f.mode ≡ 1) × (f.selected ≡ true)) new)

IsClean-trans :
    {S : Type 0} (own : Bool) (l m n : Line S) → IsClean own l m → IsClean own m n → IsClean own l n
IsClean-trans own l m n a b = record {
  same_mode = b.same_mode ∙ a.same_mode;
  released = b.released;
  framed = (
    b.framed.0 ++ a.framed.0,
    b.framed.1
        ∙ ap (λ fs. b.framed.0 ++ fs) a.framed.1
        ∙ sym (append_assoc b.framed.0 a.framed.0 l.frames),
    λ h. All-append _ b.framed.0 a.framed.0 (b.framed.2 h) (a.framed.2 h),
  );
}

module _ {S : Type 0} (device : Chip S) (own : Bool) where
  xfer-IsClean : (pkt : List ℕ) (l : Line S) → IsClean own l (xfer device own pkt l).1
  unfolding xfer
  xfer-IsClean pkt l = elim (Bool-cases own) [
    | inl e ↦ rw e (record {
      same_mode = refl;
      released = λ h. refl;
      framed = (_ ∷ [], refl, λ h. ((refl, refl), tt));
    })
    | inr e ↦
        rw e (record { same_mode = refl; released = λ h. cc; framed = (_ ∷ [], refl, λ h. cc) })
  ]

  write_reg-IsClean : (a d : ℕ) (l : Line S) → IsClean own l (write_reg device own a d l)
  unfolding write_reg
  write_reg-IsClean a d l = xfer-IsClean _ l

  read_reg-IsClean : (a : ℕ) (l : Line S) → IsClean own l (read_reg device own a l).1
  unfolding read_reg
  read_reg-IsClean a l = IsClean-trans own l _ _ (xfer-IsClean _ l) (xfer-IsClean _ _)

  -- The chip sees a frame alike in both paths.
  xfer-chip :
      (pkt : List ℕ) (l : Line S)
      → ((xfer device own pkt l).0 ≡ (device pkt l.chip).0)
        × ((xfer device own pkt l).1.chip ≡ (device pkt l.chip).1)
  unfolding xfer
  xfer-chip pkt l = elim (Bool-cases own) [ inl e ↦ rw e (refl, refl) | inr e ↦ rw e (refl, refl) ]

  write_reg-reg :
      (reg : S → ℕ → ℕ) (a d : ℕ) (l : Line S)
      → IsDac device reg
      → 8 ≤ a
      → a < 12
      → d < 65536
      → reg (write_reg device own a d l).chip a ≡ d
  unfolding write_reg
  write_reg-reg reg a d l laws low high fits =
      let at : a % 16 ≡ a = omega (arith, high) in
      let pkt = λ (b : ℕ). b ∷ (d / 256 % 256) ∷ (d % 256) ∷ [] in
      ap (λ b. reg (xfer device own (pkt b) l).1.chip a) at
      ∙ ap (λ c. reg c a) (xfer-chip (pkt a) l).1
      ∙ (laws.writes a (d / 256 % 256) (d % 256) l.chip low high (omega arith) (omega arith)
          ∙ omega (arith, fits))

  read_reg-reg :
      (reg : S → ℕ → ℕ) (a : ℕ) (l : Line S)
      → IsDac device reg
      → 8 ≤ a
      → a < 12
      → (read_reg device own a l).0 ≡ ok (reg l.chip a)
  unfolding read_reg
  read_reg-reg reg a l laws low high =
      let at : a % 16 ≡ a = omega (arith, high) in
      let ask = λ (b : ℕ). (0x80 + b) ∷ 0 ∷ 0 ∷ [] in
      let empty : List ℕ = 0 ∷ 0 ∷ 0 ∷ [] in
      let r = laws.answers a l.chip low high in
      let split : reg l.chip a / 256 * 256 + reg l.chip a % 256 ≡ reg l.chip a = omega arith in
      ap (λ b. word_of (xfer device own empty (xfer device own (ask b) l).1).0) at
      ∙ ap word_of (
          (xfer-chip empty (xfer device own (ask a) l).1).0
          ∙ ap (λ c. (device empty c).0) (xfer-chip (ask a) l).1
          ∙ r.1)
      ∙ ap ok split

-- The register of each of the four channels.
channel_reg-lt :
    (channel : ℕ) → channel < 4 → (a : ℕ) × (channel_reg channel ≡ ok a) × (8 ≤ a) × (a < 12)
channel_reg-lt zero h = (0x08, refl, omega arith, omega arith)
channel_reg-lt (suc zero) h = (0x09, refl, omega arith, omega arith)
channel_reg-lt (suc (suc zero)) h = (0x0A, refl, omega arith, omega arith)
channel_reg-lt (suc (suc (suc zero))) h = (0x0B, refl, omega arith, omega arith)
channel_reg-lt (suc (suc (suc (suc n)))) h = absurd (omega (arith, h))

-- What is set on one of the four channels is read back as the voltage of its code, whichever way the
-- select is moved. The line is left in the mode it had; when the driver moves the select, the select
-- is released, and every frame went out in mode 1 with the select held. This on a chip that behaves
-- as its data sheet says, for a code of 16 bits.
pub get_voltage-set_voltage :
    {S V : Type 0} (device : Chip S) (reg : S → ℕ → ℕ) (own : Bool) (code_of : V → ℕ)
    (volts_of : ℕ → V) (channel : ℕ) (volts : V) (l : Line S)
    → IsDac device reg
    → channel < 4
    → code_of volts < 65536
    → ((get_voltage device own code_of volts_of channel
          (set_voltage device own code_of volts_of channel volts l).1).0
        ≡ ok (volts_of (code_of volts)))
      × IsClean own l
          (get_voltage device own code_of volts_of channel
            (set_voltage device own code_of volts_of channel volts l).1).1
unfolding set_voltage get_voltage
get_voltage-set_voltage device reg own code_of volts_of channel volts l laws lt fits =
    let r = channel_reg-lt channel lt in
    let m = write_reg device own r.0 (code_of volts) l in
    let back =
      read_reg-reg device own reg r.0 m laws r.2 r.3
      ∙ ap ok (write_reg-reg device own reg r.0 (code_of volts) l laws r.2 r.3 fits) in
    rw (r.1) (
      ap (λ x. x >>= λ w. ok (volts_of w)) back,
      IsClean-trans own l m _ (write_reg-IsClean device own r.0 (code_of volts) l)
          (read_reg-IsClean device own r.0 m),
    )
