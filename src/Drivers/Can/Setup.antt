-- ===== src/Drivers/Can/Setup.antt =====
-- The accesses of tools/mcp2515.py, and how it sets a chip up and enters loopback mode.
use ifs_hil.Prelude.{
  ℕ, ◌/◌, ◌%◌, ◌<◌, ◌≡◌, ◌≢◌, ==_iff, refl, sym, ap, subst, ◌∙◌, Bool, true, [], ◌∷◌, ◌==◌, arith,
  elem,
}
use ifs_hil.Prelude.Result.{Result, ok}
use ifs_hil.Drivers.{Chip, Line}
use ifs_hil.Drivers.Can.{
  Act, ◌>>=◌, pure, of_result, read_reg, write_reg, bit_modify, reset, request_send, get_mode,
  transfer, mode_of, mode_config, mode_sleep, mode_loopback, request_mode, set_mode, bitrate_config,
  configure_bitrate, init, flag_of,
}
use ifs_hil.Drivers.Can.Settles.{
  Pending, IsController, Does, bind-Does, pure-Does, read-Does, read-rests, poll-Does,
}

module _ {S : Type 0} (device : Chip S) where
  pub write-Does :
      (a v : ℕ) (l : Line S) (P : Unit {0} → S → Type 0)
      → v < 256
      → P tt (device (2 ∷ a ∷ v ∷ []) l.chip).1
      → Does (write_reg device a v) l P
  unfolding write_reg transfer ◌>>=◌
  write-Does a v l P h p =
      let same : v % 256 ≡ v = omega (arith, h) in
      (tt, _, refl, subst (λ (w : ℕ). P tt (device (2 ∷ a ∷ w ∷ []) l.chip).1) (sym same) p)

  pub modify-Does :
      (a mask v : ℕ) (l : Line S) (P : Unit {0} → S → Type 0)
      → mask < 256
      → v < 256
      → P tt (device (5 ∷ a ∷ mask ∷ v ∷ []) l.chip).1
      → Does (bit_modify device a mask v) l P
  unfolding bit_modify transfer ◌>>=◌
  modify-Does a mask v l P k h p =
      let same : v % 256 ≡ v = omega (arith, h) in
      let whole : mask % 256 ≡ mask = omega (arith, k) in
      (
        tt,
        _,
        refl,
        subst (λ (w : ℕ). P tt (device (5 ∷ a ∷ w ∷ (v % 256) ∷ []) l.chip).1) (sym whole)
            (subst (λ (w : ℕ). P tt (device (5 ∷ a ∷ mask ∷ w ∷ []) l.chip).1) (sym same) p),
      )

  reset-Does :
      (l : Line S) (P : Unit {0} → S → Type 0)
      → P tt (device (0xC0 ∷ []) l.chip).1
      → Does (reset device) l P
  unfolding reset transfer ◌>>=◌
  reset-Does l P p = (tt, _, refl, p)

  pub send-Does :
      (l : Line S) (P : Unit {0} → S → Type 0)
      → P tt (device (0x81 ∷ []) l.chip).1
      → Does (request_send device) l P
  unfolding request_send transfer ◌>>=◌
  send-Does l P p = (tt, _, refl, p)

-- At rest in a mode, and open to every identifier.
pub record IsOpen {S : Type 0} (reg : S → ℕ → ℕ) (waiting : S → ℕ) (mode : ℕ) (s : S) : Type 0 where
  pub rests : waiting s ≡ 0
  pub in_mode : mode_of (reg s 0x0E) ≡ mode
  pub accepts : reg s 0x60 / 32 % 4 ≡ 3

cnf_bytes :
    (bitrate : ℕ) (cnf : ℕ × ℕ × ℕ)
    → bitrate_config bitrate ≡ ok cnf
    → (cnf.0 < 256) × (cnf.1 < 256) × (cnf.2 < 256)
cnf_bytes bitrate cnf h = ground (arith, h)

module _ {S : Type 0} {device : Chip S} {reg target : S → ℕ → ℕ} {waiting : S → ℕ} {delay : ℕ}
    (laws : IsController device reg target waiting delay) where
  pub result-Does :
      {A B : Type 0} (r : Result A) (a : A) (f : A → Act S B) (l : Line S) (P : B → S → Type 0)
      → r ≡ ok a
      → Does (f a) l P
      → Does (of_result r >>= f) l P
  unfolding ◌>>=◌
  result-Does r a f l P e d = rw e d

  abbrev InConfig : S → Type 0
  InConfig s = (waiting s ≡ 0) × (mode_of (reg s 0x0E) ≡ mode_config)

  get_mode-Does :
      (l : Line S) (P : ℕ → S → Type 0)
      → P (mode_of (reg l.chip 0x0E)) (device (3 ∷ 0x0E ∷ 0 ∷ []) l.chip).1
      → Does (get_mode device) l P
  unfolding get_mode
  get_mode-Does l P p =
      bind-Does _ _ l (λ v s. P (mode_of v) s) P (read-Does laws 0x0E l _ p)
        (λ v l' h. pure-Does (mode_of v) l' P h)

  config-Does :
      (a v : ℕ) (l : Line S)
      → elem a (0x28 ∷ 0x29 ∷ 0x2A ∷ 0x60 ∷ []) ≡ true
      → v < 256
      → InConfig l.chip
      → Does
          (write_reg device a v)
          l
          (λ r s. InConfig s × (a ≡ 0x60 → reg s 0x60 / 32 % 4 ≡ v / 32 % 4))
  config-Does a v l e h c =
      let r = laws.configures a v l.chip e h c.0 c.1 in
      write-Does device a v l _ h ((r.0, r.1), r.2)

  configure-Does :
      (bitrate : ℕ) (cnf : ℕ × ℕ × ℕ) (l : Line S)
      → bitrate_config bitrate ≡ ok cnf
      → InConfig l.chip
      → Does (configure_bitrate device bitrate) l (λ r s. InConfig s)
  unfolding configure_bitrate
  configure-Does bitrate cnf l e c =
      let small = cnf_bytes bitrate cnf e in
      result-Does _ cnf _ l _ e (
        bind-Does _ _ l _ _ (config-Does 0x2A cnf.0 l refl small.0 c) (λ r l' h.
          bind-Does _ _ l' _ _ (config-Does 0x29 cnf.1 l' refl small.1 h.0) (λ r l'' k.
            let w = config-Does 0x28 cnf.2 l'' refl small.2 k.0 in (w.0, w.1, w.2, w.3.0))))

  -- With a supported bit rate the set-up succeeds and leaves the chip open to every identifier.
  pub init-Does :
      (bitrate : ℕ) (cnf : ℕ × ℕ × ℕ) (l : Line S)
      → bitrate_config bitrate ≡ ok cnf
      → Does (init device bitrate) l (λ r s. (r ≡ true) × IsOpen reg waiting mode_config s)
  unfolding init
  init-Does bitrate cnf l e =
      bind-Does _ _ l (λ r s. InConfig s) _ (reset-Does device l _ (laws.resets l.chip))
        (λ r l' c.
          bind-Does _ _ l' (λ m s. (m ≡ mode_config) × InConfig s) _
            (get_mode-Does l' _ (
              c.1,
              let still = read-rests laws 0x0E l'.chip c.0 in
                  (still.rests, ap mode_of (still.shows 0x0E) ∙ c.1),
            ))
            (λ m l2 d. rw (d.0) (
              bind-Does _ _ l2 _ _ (configure-Does bitrate cnf l2 e d.1) (λ r l3 f.
                bind-Does _ _ l3 _ _ (config-Does 0x60 0x60 l3 refl (omega arith) f) (λ r l4 g.
                  pure-Does true l4 _
                    (refl, record { rests = g.0.0; in_mode = g.0.1; accepts = g.1 refl }))))))

module _ {S : Type 0} {device : Chip S} {reg target : S → ℕ → ℕ} {waiting : S → ℕ} {delay : ℕ}
    (laws : IsController device reg target waiting delay) where
  pub mode_check :
      (mode : ℕ) (l : Line S) (P : Bool → S → Type 0)
      → P (mode_of (reg l.chip 0x0E) == mode) (device (3 ∷ 0x0E ∷ 0 ∷ []) l.chip).1
      → Does (get_mode device >>= λ m. pure (m == mode)) l P
  mode_check mode l P p =
      bind-Does _ _ l (λ m s. P (m == mode) s) P (get_mode-Does laws l _ p)
        (λ m l' h. pure-Does (m == mode) l' P h)

  pub flag_check :
      (l : Line S) (P : Bool → S → Type 0)
      → P (reg l.chip 0x2C % 2 == 1) (device (3 ∷ 0x2C ∷ 0 ∷ []) l.chip).1
      → Does (read_reg device 0x2C >>= λ v. pure (flag_of v)) l P
  flag_check l P p =
      bind-Does _ _ l (λ v s. P (v % 2 == 1) s) P (read-Does laws 0x2C l _ p)
        (λ v l' h. pure-Does (v % 2 == 1) l' P h)

  -- An awake chip enters loopback mode within the turns.
  pub set_mode-Does :
      (turns : ℕ) (l : Line S)
      → delay < turns
      → IsOpen reg waiting mode_config l.chip
      → Does
          (set_mode device turns mode_loopback)
          l
          (λ r s. (r ≡ true) × IsOpen reg waiting mode_loopback s)
  unfolding set_mode request_mode
  set_mode-Does turns l lt o =
      bind-Does _ _ l (λ m s. (m ≡ mode_config) × IsOpen reg waiting mode_config s) _
        (get_mode-Does laws l _ (
          o.in_mode,
          let still = read-rests laws 0x0E l.chip o.rests in
              record {
                rests = still.rests;
                in_mode = ap mode_of (still.shows 0x0E) ∙ o.in_mode;
                accepts = ap (λ v. v / 32 % 4) (still.shows 0x60) ∙ o.accepts;
              },
        ))
        (λ m l1 c.
          let awake : mode_of (reg l1.chip 0x0E) ≢ mode_sleep =
            λ e. absurd (omega (arith, e, c.1.in_mode)) in
          let q = laws.requests mode_loopback l1.chip refl c.1.rests awake in
          rw (c.0) (
            bind-Does _ _ l1
              (λ r s.
                (waiting s < turns)
                × Pending reg target waiting (λ v. mode_of v == mode_loopback) 0x0E s
                × (target s 0x60 / 32 % 4 ≡ 3))
              _
              (modify-Does device 0x0F 0xE0 mode_loopback l1 _ (omega arith) (omega arith)
                (omega (arith, q.0, lt), q.1, ap (λ v. v / 32 % 4) q.2 ∙ c.1.accepts))
              (λ r l2 p.
                let done =
                  poll-Does laws _ 0x0E _ (target l2.chip) (mode_check mode_loopback) turns l2 p.0
                    p.1 (λ b. refl) in
                (
                  done.0,
                  done.1,
                  done.2,
                  (
                    done.3.0,
                    record {
                      rests = done.3.1.rests;
                      in_mode = ap mode_of (done.3.1.shows 0x0E) ∙ (==_iff _ _).0 p.1.ends;
                      accepts = ap (λ v. v / 32 % 4) (done.3.1.shows 0x60) ∙ p.2;
                    },
                  ),
                ))))
