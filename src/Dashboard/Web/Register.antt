-- ===== src/Dashboard/Web/Register.antt =====
-- The register that drives the carrier relays, under the calls that dashboard/app.py makes to the
-- in-memory backend of the broker.
use ifs_hil.Prelude.{
  ◌<◌, ap, ℕ, ◌%◌, ◌≡◌, ◌≢◌, refl, sym, subst, ◌∙◌, Bool, ◌==◌, Bool-cases, inl, inr, arith,
}
use ifs_hil.Prelude.Result.{Result, Result-cases, ok, err, index, ◌>>=◌}
use ifs_hil.Broker.Fake.{
  Fake, tca_addrs, psu_status, Tca, Reply, Ports, find_tca, replace, at_key, insert, with_pin,
  change_tca, tick, tca_set_direction, tca_write_pin, tca_write_port, psu_power, dac_set_voltage,
  can_set_mode,
}
use ifs_hil.Broker.Fake
use ifs_hil.Broker.Readback.{at_key-insert, find_tca-replace, find_tca-addr, find_tca-others}

-- The output register of the relays.
abbrev pub coils : {V : Type 0} → Fake V → Result ℕ
coils f = find_tca 0x20 f.tca >>= λ t. at_key 0 t.outputs

module _ {V : Type 0} where
  pub coils-set_direction :
      (addr port mask : ℕ) (f : Fake V) → coils (tca_set_direction addr port mask f).1 ≡ coils f
  unfolding tca_set_direction
  coils-set_direction addr port mask f = elim (Result-cases (find_tca addr f.tca)) [
    | inl (t, e) ↦
        let t' : Tca = record t { directions = insert port (mask % 256) t.directions } in
        elim (Bool-cases (addr == 0x20)) [
          | inl same ↦
              let at : addr ≡ 0x20 = ground (arith, same) in
              let e' : find_tca 0x20 f.tca ≡ ok t = subst (λ a. find_tca a f.tca ≡ ok t) at e in
              rw (e, find_tca-replace 0x20 t t' f.tca e' (find_tca-addr 0x20 t f.tca e'), e') refl
          | inr other ↦
              rw
                (
                  e,
                  find_tca-others 0x20 t' f.tca
                      (λ h. ground (arith, h, other, find_tca-addr addr t f.tca e)),
                )
                refl
        ]
    | inr (x, e) ↦ rw e refl
  ]

  pub set_direction-returns :
      (mask o : ℕ) (f : Fake V) → coils f ≡ ok o → (tca_set_direction 0x20 0 mask f).0 ≡ ok tt
  unfolding tca_set_direction
  set_direction-returns mask o f h = elim (Result-cases (find_tca 0x20 f.tca)) [
    | inl p ↦ rw (p.1) refl
    | inr p ↦ let no : err p.0 ≡ ok o = sym (rw (p.1) refl) ∙ h in cc
  ]

  pub coils-write_port :
      (value o : ℕ) (f : Fake V)
      → coils f ≡ ok o
      → value < 256
      → coils (tca_write_port 0x20 0 value f).1 ≡ ok value
  unfolding tca_write_port
  coils-write_port value o f h lt =
      let same : value % 256 ≡ value = omega (arith, lt) in
      elim (Result-cases (find_tca 0x20 f.tca)) [
        | inl (t, e) ↦
            let t' : Tca = record t { outputs = insert 0 (value % 256) t.outputs } in
            rw (e, find_tca-replace 0x20 t t' f.tca e (find_tca-addr 0x20 t f.tca e))
              (at_key-insert 0 (value % 256) t.outputs ∙ ap ok same)
        | inr (x, e) ↦ let no : err x ≡ ok o = sym (rw e refl) ∙ h in cc
      ]

  pub coils-write_pin :
      (pin o : ℕ) (v : Bool) (f : Fake V)
      → coils f ≡ ok o
      → ((tca_write_pin 0x20 0 pin v f).0 ≡ ok tt)
        × (coils (tca_write_pin 0x20 0 pin v f).1 ≡ ok (with_pin o pin v))
  unfolding tca_write_pin
  coils-write_pin pin o v f h = elim (Result-cases (find_tca 0x20 f.tca)) [
    | inl (t, e) ↦
        let p : at_key 0 t.outputs ≡ ok o = sym (rw e refl) ∙ h in
        let t' : Tca = record t { outputs = insert 0 (with_pin o pin v) t.outputs } in
        rw (e, p, find_tca-replace 0x20 t t' f.tca e (find_tca-addr 0x20 t f.tca e))
          (refl, at_key-insert 0 (with_pin o pin v) t.outputs)
    | inr p ↦ let no : err p.0 ≡ ok o = sym (rw (p.1) refl) ∙ h in cc
  ]

  pub coils-write_pin_other :
      (addr port pin : ℕ) (v : Bool) (f : Fake V)
      → addr ≢ 0x20
      → coils (tca_write_pin addr port pin v f).1 ≡ coils f
  unfolding tca_write_pin
  coils-write_pin_other addr port pin v f ne = elim (Result-cases (find_tca addr f.tca)) [
    | inl (t, e) ↦ elim (Result-cases (at_key port t.outputs)) [
      | inl (cur, p) ↦
          rw
            (
              e,
              p,
              find_tca-others 0x20
                  (record t { outputs = insert port (with_pin cur pin v) t.outputs }) f.tca
                  (λ h. ne (sym (find_tca-addr addr t f.tca e) ∙ h)),
            )
            refl
      | inr (x, p) ↦ rw (e, p) refl
    ]
    | inr (x, e) ↦ rw e refl
  ]

  pub coils-dac_set_voltage :
      (idx ch : ℕ) (v : V) (f : Fake V) → coils (dac_set_voltage idx ch v f).1 ≡ coils f
  unfolding dac_set_voltage
  coils-dac_set_voltage idx ch v f = elim (Result-cases (index f.dac idx)) [
    | inl (row, e) ↦ elim (Result-cases (index row ch)) [
      | inl p ↦ rw (e, p.1) refl
      | inr p ↦ rw (e, p.1) refl
    ]
    | inr p ↦ rw (p.1) refl
  ]

  pub coils-can_set_mode :
      (idx mode : ℕ) (f : Fake V) → coils (Fake.can_set_mode idx mode f).1 ≡ coils f
  unfolding Fake.can_set_mode
  coils-can_set_mode idx mode f = elim (Result-cases (index f.can idx)) [
    | inl p ↦ rw (p.1) refl
    | inr p ↦ rw (p.1) refl
  ]
