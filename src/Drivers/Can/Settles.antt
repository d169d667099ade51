-- ===== src/Drivers/Can/Settles.antt =====
-- What the data sheet of the MCP2515 says of the frames that tools/mcp2515.py sends, and what each access
-- of the driver therefore does.
use ifs_hil.Prelude.{
  ℕ, zero, suc, ◌+◌, ◌-◌, ◌*◌, ◌/◌, ◌%◌, ◌≤◌, ◌<◌, ◌≡◌, ◌≢◌, refl, sym, ap, ◌∙◌, Bool, true, false,
  [], ◌∷◌, if◌then◌else◌, ◌==◌, Bool-cases, inl, inr, arith, elem,
}
use ifs_hil.Prelude.Result.{ok}
use ifs_hil.Drivers.{Chip, Line}
use ifs_hil.Drivers.Can.{
  Act, ◌>>=◌, pure, poll, read_reg, transfer, mode_of, mode_config, mode_sleep, mode_loopback,
}

-- An access that has its effect at once.
pub record Settled {S : Type 0} (reg : S → ℕ → ℕ) (waiting : S → ℕ) (goal : ℕ → ℕ) (s : S)
    : Type 0 where
  pub rests : waiting s ≡ 0
  pub shows : (b : ℕ) → reg s b ≡ goal b

-- An access whose effect shows after some reads, `delay` at most, until which a test of a register fails.
pub record Pending {S : Type 0} (reg target : S → ℕ → ℕ) (waiting : S → ℕ) (test : ℕ → Bool) (a : ℕ)
    (s : S) : Type 0 where
  pub ends : test (target s a) ≡ true
  pub early : 0 < waiting s → test (reg s a) ≡ false

-- The registers, those that they become, and the reads until then, 0 for a chip at rest. The modes are
-- requested by CANCTRL and shown by CANSTAT; in loopback mode a frame that is sent is received.
pub record IsController {S : Type 0} (device : Chip S) (reg target : S → ℕ → ℕ) (waiting : S → ℕ)
    (delay : ℕ) : Type 0 where
  pub settled : (s : S) (a : ℕ) → waiting s ≡ 0 → reg s a ≡ target s a
  pub reads :
      (a : ℕ) (s : S) → (x : ℕ) × (y : ℕ) × ((device (3 ∷ a ∷ 0 ∷ []) s).0 ≡ x ∷ y ∷ reg s a ∷ [])
  pub passes :
      (a : ℕ) (s : S)
      → (waiting (device (3 ∷ a ∷ 0 ∷ []) s).1 ≡ waiting s - 1)
        × ((b : ℕ) → target (device (3 ∷ a ∷ 0 ∷ []) s).1 b ≡ target s b)
        × (0 < waiting s - 1 → (b : ℕ) → reg (device (3 ∷ a ∷ 0 ∷ []) s).1 b ≡ reg s b)
  pub resets :
      (s : S)
      → (waiting (device (0xC0 ∷ []) s).1 ≡ 0)
        × (mode_of (reg (device (0xC0 ∷ []) s).1 0x0E) ≡ mode_config)
  pub configures :
      (a v : ℕ) (s : S)
      → elem a (0x28 ∷ 0x29 ∷ 0x2A ∷ 0x60 ∷ []) ≡ true
      → v < 256
      → waiting s ≡ 0
      → mode_of (reg s 0x0E) ≡ mode_config
      → (waiting (device (2 ∷ a ∷ v ∷ []) s).1 ≡ 0)
        × (mode_of (reg (device (2 ∷ a ∷ v ∷ []) s).1 0x0E) ≡ mode_config)
        × (a ≡ 0x60 → reg (device (2 ∷ a ∷ v ∷ []) s).1 0x60 / 32 % 4 ≡ v / 32 % 4)
  pub loads :
      (a v : ℕ) (s : S)
      → 0x31 ≤ a
      → a ≤ 0x3D
      → v < 256
      → waiting s ≡ 0
      → Settled reg waiting (λ b. if b == a then v else reg s b) (device (2 ∷ a ∷ v ∷ []) s).1
  pub clears :
      (s : S)
      → waiting s ≡ 0
      → Settled reg waiting
          (λ b. if b == 0x2C then reg s b / 2 * 2 else reg s b)
          (device (5 ∷ 0x2C ∷ 1 ∷ 0 ∷ []) s).1
  pub requests :
      (m : ℕ) (s : S)
      → elem m (0x00 ∷ 0x20 ∷ 0x40 ∷ 0x60 ∷ 0x80 ∷ []) ≡ true
      → waiting s ≡ 0
      → mode_of (reg s 0x0E) ≢ mode_sleep
      → (waiting (device (5 ∷ 0x0F ∷ 0xE0 ∷ m ∷ []) s).1 ≤ delay)
        × Pending reg target waiting
            (λ v. mode_of v == m)
            0x0E
            (device (5 ∷ 0x0F ∷ 0xE0 ∷ m ∷ []) s).1
        × (target (device (5 ∷ 0x0F ∷ 0xE0 ∷ m ∷ []) s).1 0x60 ≡ reg s 0x60)
  pub sends :
      (s : S)
      → waiting s ≡ 0
      → mode_of (reg s 0x0E) ≡ mode_loopback
      → reg s 0x60 / 32 % 4 ≡ 3
      → reg s 0x32 / 8 % 2 ≡ 0
      → reg s 0x2C % 2 ≡ 0
      → (waiting (device (0x81 ∷ []) s).1 ≤ delay)
        × Pending reg target waiting (λ v. v % 2 == 1) 0x2C (device (0x81 ∷ []) s).1
        × (target (device (0x81 ∷ []) s).1 0x61 ≡ reg s 0x31)
        × (target (device (0x81 ∷ []) s).1 0x62 / 32 ≡ reg s 0x32 / 32)
        × (target (device (0x81 ∷ []) s).1 0x65 % 16 ≡ reg s 0x35 % 16)
        × ((i : ℕ)
            → i < reg s 0x35 % 16
            → i < 8
            → target (device (0x81 ∷ []) s).1 (0x66 + i) ≡ reg s (0x36 + i))

module _ {S : Type 0} where
  -- Code that returns on a line, with a postcondition on the result and on the chip after it.
  abbrev pub Does : {A : Type 0} → Act S A → Line S → (A → S → Type 0) → Type 0
  Does {A} m l P = (a : A) × (l' : Line S) × (m l ≡ (ok a, l')) × P a l'.chip

  pub bind-Does :
      {A B : Type 0} (m : Act S A) (f : A → Act S B) (l : Line S) (P : A → S → Type 0)
      (Q : B → S → Type 0)
      → Does m l P
      → ((a : A) (l' : Line S) → P a l'.chip → Does (f a) l' Q)
      → Does (m >>= f) l Q
  unfolding ◌>>=◌
  bind-Does m f l P Q (a, l', e, p) k = let r = k a l' p in (r.0, r.1, rw e r.2, r.3)

  pub pure-Does :
      {A : Type 0} (a : A) (l : Line S) (P : A → S → Type 0) → P a l.chip → Does (pure a) l P
  pure-Does a l P p = (a, l, refl, p)

module _ {S : Type 0} {device : Chip S} {reg target : S → ℕ → ℕ} {waiting : S → ℕ} {delay : ℕ}
    (laws : IsController device reg target waiting delay) where
  pub read-Does :
      (a : ℕ) (l : Line S) (P : ℕ → S → Type 0)
      → P (reg l.chip a) (device (3 ∷ a ∷ 0 ∷ []) l.chip).1
      → Does (read_reg device a) l P
  unfolding read_reg transfer ◌>>=◌
  read-Does a l P p =
      let r = laws.reads a l.chip in
      (reg l.chip a, (transfer device (3 ∷ a ∷ 0 ∷ []) l).1, rw (r.2) refl, p)

  -- A read of a chip at rest changes nothing.
  pub read-rests :
      (a : ℕ) (s : S) → waiting s ≡ 0 → Settled reg waiting (reg s) (device (3 ∷ a ∷ 0 ∷ []) s).1
  read-rests a s h =
      let p = laws.passes a s in
      let still : waiting (device (3 ∷ a ∷ 0 ∷ []) s).1 ≡ 0 = omega (arith, p.0, h) in
      record {
        rests = still;
        shows = λ b. laws.settled _ b still ∙ p.1 b ∙ sym (laws.settled s b h);
      }

  pub known-Does :
      (a : ℕ) (goal : ℕ → ℕ) (l : Line S)
      → Settled reg waiting goal l.chip
      → Does (read_reg device a) l (λ v s. (v ≡ goal a) × Settled reg waiting goal s)
  known-Does a goal l h =
      let still = read-rests a l.chip h.rests in
      read-Does a l _
        (h.shows a, record { rests = still.rests; shows = λ b. still.shows b ∙ h.shows b })

  -- With more turns than the reads that are left, a poll ends by its test.
  pub poll-Does :
      (test : ℕ → Bool) (a : ℕ) (check : Act S Bool) (goal : ℕ → ℕ)
      → ((l : Line S) (P : Bool → S → Type 0)
          → P (test (reg l.chip a)) (device (3 ∷ a ∷ 0 ∷ []) l.chip).1
          → Does check l P)
      → (turns : ℕ) (l : Line S) → waiting l.chip < turns
      → Pending reg target waiting test a l.chip
      → ((b : ℕ) → target l.chip b ≡ goal b)
      → Does (poll turns check) l (λ r s. (r ≡ true) × Settled reg waiting goal s)
  unfolding poll
  poll-Does test a check goal checks zero l lt p g = absurd (omega (arith, lt))
  poll-Does test a check goal checks (suc turns) l lt p g =
      let q = laws.passes a l.chip in
      elim (Bool-cases (waiting l.chip == 0)) [
        | inl e ↦
            let none_left : waiting l.chip ≡ 0 = ground (arith, e) in
            let now : test (reg l.chip a) ≡ true =
              ap test (laws.settled l.chip a none_left) ∙ p.ends in
            let still = read-rests a l.chip none_left in
            bind-Does check _ l (λ r s. (r ≡ true) × Settled reg waiting goal s) _
              (checks l _ (
                now,
                record {
                  rests = still.rests;
                  shows = λ b. still.shows b ∙ laws.settled l.chip b none_left ∙ g b;
                },
              ))
              (λ r l' h. rw (h.0) (true, l', refl, (refl, h.1)))
        | inr e ↦
            let more : 0 < waiting l.chip = ground (arith, e) in
            bind-Does check _ l
              (λ r s.
                (r ≡ false)
                × (waiting s < turns)
                × Pending reg target waiting test a s
                × ((b : ℕ) → target s b ≡ goal b))
              _
              (checks l _ (
                p.early more,
                omega (arith, q.0, lt, more),
                record {
                  ends = ap test (q.1 a) ∙ p.ends;
                  early = λ h.
                      let still : 0 < waiting l.chip - 1 = omega (arith, h, q.0) in
                      ap test (q.2 still a) ∙ p.early more;
                },
                λ b. q.1 b ∙ g b,
              ))
              (λ r l' h. rw (h.0) (poll-Does test a check goal checks turns l' h.1 h.2 h.3))
      ]
