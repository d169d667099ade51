-- ===== src/Drivers/Can/Loopback.antt =====
-- The loopback test of tools/mcp2515.py on a chip that behaves as its data sheet says.
use ifs_hil.Prelude.{
  ℕ, ◌+◌, ◌*◌, ◌/◌, ◌%◌, ◌≤◌, ◌<◌, ◌≡◌, ==_iff, refl, ap, ◌∙◌, Bool, true, false, List, some,
  if◌then◌else◌, ◌==◌, arith, length, get_elem?,
}
use ifs_hil.Prelude.Result.{ok}
use ifs_hil.Prelude.Bytes.{IsBytes}
use ifs_hil.Drivers.{Chip, Line}
use ifs_hil.Drivers.Can.{
  Act, ◌>>=◌, ◌>>◌, pure, poll, read_reg, bit_modify, request_send, mode_of, mode_config,
  bitrate_config, init, flag_of, verify_frame, loopback_test,
}
use ifs_hil.Drivers.Can.Settles.{
  Settled, Pending, IsController, Does, bind-Does, pure-Does, poll-Does, known-Does,
}
use ifs_hil.Drivers.Can.Setup.{IsOpen, modify-Does, send-Does, flag_check, set_mode-Does, init-Does}
use ifs_hil.Drivers.Can.Buffer.{
  get_elem?-lt, off_flag, HasBytes, IsLoaded, clear-Does, same_bytes-Does, load_frame-Does,
}

module _ {S : Type 0} {device : Chip S} {reg target : S → ℕ → ℕ} {waiting : S → ℕ} {delay : ℕ}
    (laws : IsController device reg target waiting delay) where
  -- What a received frame shows.
  abbrev Holds : ℕ → List ℕ → S → Type 0
  Holds can_id payload s =
      (waiting s ≡ 0)
      × (reg s 0x61 * 8 + reg s 0x62 / 32 % 8 ≡ can_id)
      × (reg s 0x65 % 16 ≡ length payload % 16)
      × HasBytes reg 0x66 payload s

  verify_frame-Does :
      (can_id : ℕ) (payload : List ℕ) (l : Line S)
      → Holds can_id payload l.chip
      → Does (verify_frame device can_id payload) l (λ r s. r ≡ true)
  unfolding verify_frame
  verify_frame-Does can_id payload l (w, e, n, h) =
      let same_id : (reg l.chip 0x61 * 8 + reg l.chip 0x62 / 32 % 8 == can_id) ≡ true =
        (==_iff _ _).1 e in
      let same_length : (reg l.chip 0x65 % 16 == length payload % 16) ≡ true = (==_iff _ _).1 n in
      let rest : Settled reg waiting (reg l.chip) l.chip = record {
        rests = w;
        shows = λ b. refl;
      } in
      bind-Does _ _ l _ _ (known-Does laws 0x61 (reg l.chip) l rest) (λ high l1 a.
        bind-Does _ _ l1 _ _ (known-Does laws 0x62 (reg l.chip) l1 a.1) (λ low l2 b.
          rw (a.0, b.0, same_id)
            (bind-Does _ _ l2 _ _ (known-Does laws 0x65 (reg l.chip) l2 b.1) (λ dlc l3 c.
              rw (c.0, same_length)
                (bind-Does _ _ l3 _ _
                  (same_bytes-Does laws 0 payload l3 c.1.rests (λ j v f. c.1.shows _ ∙ h j v f))
                  (λ r l4 d. rw (d.0) (
                    bind-Does _ _ l4 (λ r s. Unit {0}) _
                      (modify-Does device 0x2C 0x01 0x00 l4 _ (omega arith) (omega arith) tt)
                      (λ r l5 f. pure-Does true l5 _ refl))))))))

  -- A loaded frame is sent, comes back and is found intact.
  abbrev exchange_of : ℕ → ℕ → List ℕ → Act S Bool
  exchange_of turns can_id payload =
      bit_modify device 0x2C 0x01 0x00
      >> (request_send device
          >> (poll turns (read_reg device 0x2C >>= λ v. pure (flag_of v)) >>= λ received.
              if received then verify_frame device can_id payload else pure false))

  exchange-Does :
      (turns can_id : ℕ) (payload : List ℕ) (l : Line S)
      → delay < turns
      → can_id < 2048
      → length payload ≤ 8
      → IsLoaded laws can_id payload l.chip
      → Does (exchange_of turns can_id payload) l (λ r s. r ≡ true)
  exchange-Does turns can_id payload l lt small fits (o, high, low, len, bytes) =
      bind-Does _ _ l _ _ (clear-Does laws l o.rests) (λ r l1 c.
        let mode = ap mode_of (c.shows 0x0E) ∙ o.in_mode in
        let any = ap (λ v. v / 32 % 4) (c.shows 0x60) ∙ o.accepts in
        let standard : reg l1.chip 0x32 / 8 % 2 ≡ 0 = omega (arith, c.shows 0x32 ∙ low) in
        let clear : reg l1.chip 0x2C % 2 ≡ 0 = omega (arith, c.shows 0x2C) in
        let q = laws.sends l1.chip c.rests mode any standard clear in
        let n : reg l1.chip 0x35 ≡ length payload = c.shows 0x35 ∙ len in
        bind-Does _ _ l1
          (λ r s.
            (waiting s < turns)
            × Pending reg target waiting (λ v. v % 2 == 1) 0x2C s
            × (target s 0x61 * 8 + target s 0x62 / 32 % 8 ≡ can_id)
            × (target s 0x65 % 16 ≡ length payload % 16)
            × ((j v : ℕ) → get_elem? payload j ≡ some v → target s (0x66 + j) ≡ v))
          _
          (send-Does device l1 _ (
            omega (arith, q.0, lt),
            q.1,
            omega (arith, q.2, q.3, c.shows 0x31 ∙ high, c.shows 0x32 ∙ low, small),
            q.4 ∙ ap (λ v. v % 16) n,
            λ j v e.
                let inside : j < length payload = get_elem?-lt payload j v e in
                q.5 j (omega (arith, n, inside, fits)) (omega (arith, inside, fits))
                ∙ c.shows (0x36 + j)
                ∙ off_flag j (reg l.chip (0x36 + j)) (omega (arith, inside, fits))
                ∙ bytes j v e,
          ))
          (λ r l2 p.
            bind-Does _ _ l2 _ _
              (poll-Does laws _ 0x2C _ (target l2.chip) (flag_check laws) turns l2 p.0 p.1
                (λ b. refl))
              (λ received l3 d. rw (d.0) (
                verify_frame-Does can_id payload l3 (
                  d.1.rests,
                  omega (arith, d.1.shows 0x61, d.1.shows 0x62, p.2),
                  ap (λ v. v % 16) (d.1.shows 0x65) ∙ p.3,
                  λ j v e. d.1.shows (0x66 + j) ∙ p.4 j v e,
                )))))

  loopback-Does :
      (mode_turns rx_turns can_id : ℕ) (payload : List ℕ) (l : Line S)
      → delay < mode_turns
      → delay < rx_turns
      → can_id < 2048
      → length payload ≤ 8
      → IsBytes payload
      → IsOpen reg waiting mode_config l.chip
      → Does (loopback_test device mode_turns rx_turns can_id payload) l (λ r s. r ≡ true)
  unfolding loopback_test
  loopback-Does mode_turns rx_turns can_id payload l m r small fits bytes o =
      bind-Does _ _ l _ _ (set_mode-Does laws mode_turns l m o) (λ entered l1 a. rw (a.0) (
        bind-Does _ _ l1 _ _ (load_frame-Does laws can_id payload l1 small fits bytes a.1)
          (λ u l2 b. exchange-Does rx_turns can_id payload l2 r small fits b)))

-- On a chip that behaves as its data sheet says, whose changes show within the turns of the two waits, a
-- set-up at a supported bit rate returns True, and the loopback test after it returns True for every
-- identifier of eleven bits and every payload of up to eight bytes.
pub loopback_test-passes :
    {S : Type 0} (device : Chip S) (reg target : S → ℕ → ℕ) (waiting : S → ℕ) (delay : ℕ)
    → IsController device reg target waiting delay
    → (bitrate mode_turns rx_turns can_id : ℕ) (cnf : ℕ × ℕ × ℕ) (payload : List ℕ) (l : Line S)
    → bitrate_config bitrate ≡ ok cnf
    → delay < mode_turns
    → delay < rx_turns
    → can_id < 2048
    → length payload ≤ 8
    → IsBytes payload
    → ((init device bitrate l).0 ≡ ok true)
      × ((loopback_test device mode_turns rx_turns can_id payload (init device bitrate l).1).0
          ≡ ok true)
loopback_test-passes device reg target waiting delay laws bitrate mode_turns rx_turns can_id cnf
      payload l e m r small fits bytes =
    let ready = init-Does laws bitrate cnf l e in
    let test =
      loopback-Does laws mode_turns rx_turns can_id payload ready.1 m r small fits bytes
        ready.3.1 in
    (
      ap (λ x. x.0) ready.2 ∙ ap ok ready.3.0,
      ap (λ x. (loopback_test device mode_turns rx_turns can_id payload x.1).0) ready.2
          ∙ ap (λ x. x.0) test.2
          ∙ ap ok test.3,
    )
