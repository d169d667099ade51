-- ===== src/Drivers/Can/Buffer.antt =====
-- The transmit and receive buffers of the MCP2515 under the loops of tools/mcp2515.py.
use ifs_hil.Prelude.{
  ℕ, zero, suc, ◌+◌, ◌*◌, ◌/◌, ◌%◌, ◌≤◌, ◌<◌, ◌≡◌, ◌⊎◌, ==_iff, refl, sym, ap, subst, ◌∙◌, true,
  List, [], ◌∷◌, some, if◌then◌else◌, ◌==◌, inl, inr, arith, length, get_elem?,
}
use ifs_hil.Prelude.Bytes.{IsBytes}
use ifs_hil.Drivers.{Chip, Line}
use ifs_hil.Drivers.Can.{
  write_reg, bit_modify, mode_of, mode_loopback, load_bytes, same_bytes, load_frame,
}
use ifs_hil.Drivers.Can.Settles.{
  Settled, IsController, Does, bind-Does, pure-Does, read-Does, read-rests,
}
use ifs_hil.Drivers.Can.Setup.{IsOpen, write-Does, modify-Does}

pub get_elem?-lt : (xs : List ℕ) (j v : ℕ) → get_elem? xs j ≡ some v → j < length xs
get_elem?-lt [] j v e = cc
get_elem?-lt (x ∷ xs) zero v e = omega arith
get_elem?-lt (x ∷ xs) (suc j) v e = omega (arith, get_elem?-lt xs j v e)

-- The transmit buffer does not hold the flags.
pub off_flag : (j v : ℕ) → j < 8 → (if 0x36 + j == 0x2C then v / 2 * 2 else v) ≡ v
off_flag j v h = ground (arith, h)

further : (b i : ℕ) → (b < 0x36 + i) ⊎ (0x3D < b) → (b < 0x36 + suc i) ⊎ (0x3D < b)
further b i (inl h) = inl (omega (arith, h))
further b i (inr h) = inr h

elsewhere :
    (b i x y : ℕ) → i < 8 → (b < 0x36 + i) ⊎ (0x3D < b) → (if b == 0x36 + i then x else y) ≡ y
elsewhere b i x y lt (inl h) = ground (arith, h)
elsewhere b i x y lt (inr h) = ground (arith, h, lt)

module _ {S : Type 0} (reg : S → ℕ → ℕ) where
  -- The registers from i on hold the bytes.
  abbrev pub HasBytes : ℕ → List ℕ → S → Type 0
  HasBytes i bs s = (j v : ℕ) → get_elem? bs j ≡ some v → reg s (i + j) ≡ v

  HasBytes-cons :
      (i x : ℕ) (bs : List ℕ) (s : S) → reg s i ≡ x → HasBytes (suc i) bs s → HasBytes i (x ∷ bs) s
  HasBytes-cons i x bs s e h zero v f =
      let here : i + 0 ≡ i = omega arith in let same : x ≡ v = cc in ap (reg s) here ∙ e ∙ same
  HasBytes-cons i x bs s e h (suc j) v f =
      let there : i + suc j ≡ suc i + j = omega arith in ap (reg s) there ∙ h j v f

  -- Of two chips, the registers below i and above the transmit buffer are the same.
  abbrev Keeps : ℕ → S → S → Type 0
  Keeps i s s' = (b : ℕ) → (b < i) ⊎ (0x3D < b) → reg s' b ≡ reg s b

module _ {S : Type 0} {device : Chip S} {reg target : S → ℕ → ℕ} {waiting : S → ℕ} {delay : ℕ}
    (laws : IsController device reg target waiting delay) where
  pub load-Does :
      (a v : ℕ) (l : Line S)
      → 0x31 ≤ a
      → a ≤ 0x3D
      → v < 256
      → waiting l.chip ≡ 0
      → Does
          (write_reg device a v)
          l
          (λ r s. Settled reg waiting (λ b. if b == a then v else reg l.chip b) s)
  load-Does a v l low high h w = write-Does device a v l _ h (laws.loads a v l.chip low high h w)

  pub clear-Does :
      (l : Line S)
      → waiting l.chip ≡ 0
      → Does (bit_modify device 0x2C 0x01 0x00) l (λ r s.
        Settled reg waiting (λ b. if b == 0x2C then reg l.chip b / 2 * 2 else reg l.chip b) s)
  clear-Does l w =
      modify-Does device 0x2C 0x01 0x00 l _ (omega arith) (omega arith) (laws.clears l.chip w)

  load_bytes-Does :
      (i : ℕ) (bs : List ℕ) (l : Line S)
      → i + length bs ≤ 8
      → IsBytes bs
      → waiting l.chip ≡ 0
      → Does
          (load_bytes device i bs)
          l
          (λ r s. (waiting s ≡ 0) × HasBytes reg (0x36 + i) bs s × Keeps reg (0x36 + i) l.chip s)
  unfolding load_bytes
  load_bytes-Does i [] l lt h w = pure-Does tt l _ (w, (λ j v e. cc), λ b o. refl)
  load_bytes-Does i (x ∷ bs) l lt (h, hs) w =
      let q = laws.loads (0x36 + i) x l.chip (omega arith) (omega (arith, lt)) h w in
      bind-Does _ _ l
        (λ r s. Settled reg waiting (λ b. if b == 0x36 + i then x else reg l.chip b) s) _
        (write-Does device (0x36 + i) x l _ h q)
        (λ r l1 c.
          let next : 0x36 + suc i ≡ suc (0x36 + i) = omega arith in
          let done = load_bytes-Does (suc i) bs l1 (omega (arith, lt)) hs c.rests in
          (
            done.0,
            done.1,
            done.2,
            (
              done.3.0,
              HasBytes-cons reg (0x36 + i) x bs done.1.chip
                  (done.3.2 (0x36 + i) (inl (omega arith)) ∙ c.shows (0x36 + i) ∙ ground arith)
                  (subst (λ n. HasBytes reg n bs done.1.chip) next done.3.1),
              λ b o.
                  done.3.2 b (further b i o)
                  ∙ c.shows b
                  ∙ elsewhere b i x (reg l.chip b) (omega (arith, lt)) o,
            ),
          ))

  pub same_bytes-Does :
      (i : ℕ) (bs : List ℕ) (l : Line S)
      → waiting l.chip ≡ 0
      → HasBytes reg (0x66 + i) bs l.chip
      → Does (same_bytes device i bs) l (λ r s. (r ≡ true) × (waiting s ≡ 0))
  unfolding same_bytes
  same_bytes-Does i [] l w h = pure-Does true l _ (refl, w)
  same_bytes-Does i (x ∷ bs) l w h =
      let here : 0x66 + i + 0 ≡ 0x66 + i = omega arith in
      let still = read-rests laws (0x66 + i) l.chip w in
      bind-Does _ _ l (λ v s. (v == x ≡ true) × Settled reg waiting (reg l.chip) s) _
        (read-Does laws (0x66 + i) l _
          ((==_iff _ _).1 (ap (reg l.chip) (sym here) ∙ h 0 x refl), still))
        (λ v l1 c. rw (c.0) (
          same_bytes-Does (suc i) bs l1 c.1.rests (λ j v e.
            let there : 0x66 + suc i + j ≡ 0x66 + i + suc j = omega arith in
            c.1.shows _ ∙ ap (reg l.chip) there ∙ h (suc j) v e)))

  -- The transmit buffer holds a frame, on a chip in loopback mode.
  abbrev pub IsLoaded : ℕ → List ℕ → S → Type 0
  IsLoaded can_id payload s =
      IsOpen reg waiting mode_loopback s
      × (reg s 0x31 ≡ can_id / 8)
      × (reg s 0x32 ≡ can_id % 8 * 32)
      × (reg s 0x35 ≡ length payload)
      × HasBytes reg 0x36 payload s

  pub load_frame-Does :
      (can_id : ℕ) (payload : List ℕ) (l : Line S)
      → can_id < 2048
      → length payload ≤ 8
      → IsBytes payload
      → IsOpen reg waiting mode_loopback l.chip
      → Does (load_frame device can_id payload) l (λ r s. IsLoaded can_id payload s)
  unfolding load_frame
  load_frame-Does can_id payload l small fits bytes o =
      let high : can_id / 8 % 256 ≡ can_id / 8 = omega (arith, small) in
      let len : length payload % 16 ≡ length payload = omega (arith, fits) in
      bind-Does _ _ l _ _
        (load-Does 0x31 (can_id / 8 % 256) l (omega arith) (omega arith) (omega arith) o.rests)
        (λ r l1 a.
          bind-Does _ _ l1 _ _
            (load-Does 0x32 (can_id % 8 * 32) l1 (omega arith) (omega arith) (omega arith) a.rests)
            (λ r l2 b.
              bind-Does _ _ l2 _ _
                (load-Does 0x35 (length payload % 16) l2 (omega arith) (omega arith) (omega arith)
                  b.rests)
                (λ r l3 c.
                  let done = load_bytes-Does 0 payload l3 (omega (arith, fits)) bytes c.rests in
                  (
                    done.0,
                    done.1,
                    done.2,
                    (
                      record {
                        rests = done.3.0;
                        in_mode =
                            ap mode_of (
                              done.3.2 0x0E (inl (omega arith))
                              ∙ c.shows 0x0E
                              ∙ b.shows 0x0E
                              ∙ a.shows 0x0E)
                            ∙ o.in_mode;
                        accepts =
                            ap (λ v. v / 32 % 4)
                              (done.3.2 0x60 (inr (omega arith))
                                ∙ c.shows 0x60
                                ∙ b.shows 0x60
                                ∙ a.shows 0x60)
                            ∙ o.accepts;
                      },
                      done.3.2 0x31 (inl (omega arith))
                          ∙ c.shows 0x31
                          ∙ b.shows 0x31
                          ∙ a.shows 0x31
                          ∙ high,
                      done.3.2 0x32 (inl (omega arith)) ∙ c.shows 0x32 ∙ b.shows 0x32,
                      done.3.2 0x35 (inl (omega arith)) ∙ c.shows 0x35 ∙ len,
                      done.3.1,
                    ),
                  ))))
