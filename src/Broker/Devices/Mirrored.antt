-- ===== src/Broker/Devices/Mirrored.antt =====
-- Sequences of calls of the expanders' methods on `HardwareManager`, broker/bus.py, and on
-- `FakeHardwareManager`, broker/fake_bus.py.
use ifs_hil.Prelude.{
  ℕ, zero, suc, ◌<◌, ◌≡◌, refl, ap, subst, ◌∙◌, List, [], ◌∷◌, All, inl, inr, arith,
}
use ifs_hil.Prelude.Result.{Result}
use ifs_hil.Broker.Expander.{Chip, chip_get_direction}
use ifs_hil.Broker.Fake.{Fake, Tca, at_key, find_tca, replace, change_tca}
use ifs_hil.Broker.Fake
use ifs_hil.Broker.Devices
use ifs_hil.Broker.Devices.{Devices, find_chip, set_chip, tell_tca, or_raise, written}
use ifs_hil.Broker.Devices.Shown.{
  Shows, Mirrors, find-Mirrors, set-Mirrors, TcaCall, set_direction, set_all_inputs,
  set_all_outputs, write_port, write_all, write_pin, addr_of, IsLegal, on_chip, on_tca,
  on_chip-Shows,
}

module _ {W : Type 0} where
  abbrev pub call_real : TcaCall → Devices W → Result (Unit {0}) × Devices W
  call_real (set_direction addr port mask) = Devices.tca_set_direction addr port mask
  call_real (set_all_inputs addr) = Devices.tca_set_all_inputs addr
  call_real (set_all_outputs addr) = Devices.tca_set_all_outputs addr
  call_real (write_port addr port value) = Devices.tca_write_port addr port value
  call_real (write_all addr p0 p1) = Devices.tca_write_all addr p0 p1
  call_real (write_pin addr port pin v) = Devices.tca_write_pin addr port pin v

  -- The replies to some calls, an exception ending its call alone, and the manager after them.
  abbrev pub run_real : List TcaCall → Devices W → List (Result (Unit {0})) × Devices W
  run_real [] d = ([], d)
  run_real (k ∷ ks) d =
      let r = call_real k d in let rest = run_real ks r.1 in (r.0 ∷ rest.0, rest.1)

  call_real-tells :
      (k : TcaCall) (d : Devices W) → call_real k d ≡ tell_tca (addr_of k) (on_chip k) d
  unfolding Devices.tca_set_direction Devices.tca_set_all_inputs Devices.tca_set_all_outputs
      Devices.tca_write_port Devices.tca_write_all Devices.tca_write_pin
  call_real-tells (set_direction addr port mask) d = refl
  call_real-tells (set_all_inputs addr) d = refl
  call_real-tells (set_all_outputs addr) d = refl
  call_real-tells (write_port addr port value) d = refl
  call_real-tells (write_all addr p0 p1) d = refl
  call_real-tells (write_pin addr port pin v) d = refl

module _ {V : Type 0} where
  abbrev pub call_fake : TcaCall → Fake V → Result (Unit {0}) × Fake V
  call_fake (set_direction addr port mask) = Fake.tca_set_direction addr port mask
  call_fake (set_all_inputs addr) = Fake.tca_set_all addr 0xFF
  call_fake (set_all_outputs addr) = Fake.tca_set_all addr 0x00
  call_fake (write_port addr port value) = Fake.tca_write_port addr port value
  call_fake (write_all addr p0 p1) = Fake.tca_write_all addr p0 p1
  call_fake (write_pin addr port pin v) = Fake.tca_write_pin addr port pin v

  abbrev pub run_fake : List TcaCall → Fake V → List (Result (Unit {0})) × Fake V
  run_fake [] f = ([], f)
  run_fake (k ∷ ks) f =
      let r = call_fake k f in let rest = run_fake ks r.1 in (r.0 ∷ rest.0, rest.1)

  call_fake-tells : (k : TcaCall) (f : Fake V) → call_fake k f ≡ change_tca (addr_of k) (on_tca k) f
  unfolding Fake.tca_set_direction Fake.tca_set_all Fake.tca_write_port Fake.tca_write_all
      Fake.tca_write_pin
  call_fake-tells (set_direction addr port mask) f = refl
  call_fake-tells (set_all_inputs addr) f = refl
  call_fake-tells (set_all_outputs addr) f = refl
  call_fake-tells (write_port addr port value) f = refl
  call_fake-tells (write_all addr p0 p1) f = refl
  call_fake-tells (write_pin addr port pin v) f = refl

shown_direction :
    (port : ℕ) (c : Chip) (t : Tca)
    → port < 2
    → Shows c t
    → or_raise (chip_get_direction port c) ≡ at_key port t.directions
shown_direction zero c t l s = rw (s.acks, s.rest.4, s.directions) refl
shown_direction (suc zero) c t l s = rw (s.acks, s.rest.4, s.directions) refl
shown_direction (suc (suc n)) c t l s = absurd (omega (arith, l))

-- The two managers hold the same outputs and directions, and count alike.
pub record Agrees {W V : Type 0} (d : Devices W) (f : Fake V) : Type 0 where
  pub mirrors : Mirrors d.tcas f.tca
  pub counts : d.op_count ≡ f.op_count

module _ {W V : Type 0} where
  tells-Agrees :
      (k : TcaCall) (d : Devices W) (f : Fake V)
      → IsLegal k
      → Agrees d f
      → ((tell_tca (addr_of k) (on_chip k) d).0 ≡ (change_tca (addr_of k) (on_tca k) f).0)
        × Agrees (tell_tca (addr_of k) (on_chip k) d).1 (change_tca (addr_of k) (on_tca k) f).1
  tells-Agrees k d f l a = elim (find-Mirrors (addr_of k) d.tcas f.tca a.mirrors) [
    | inl (e, g) ↦ rw (e, g) (refl, record { mirrors = a.mirrors; counts = ap suc a.counts })
    | inr (c, t, e, g, s, h) ↦
        let r = on_chip-Shows k c t l s in
        rw (e, g, r.2, r.3)
          (
            refl,
            record {
              mirrors =
                  subst (λ n. Mirrors (set_chip n r.0 d.tcas) (replace r.1 f.tca)) (r.5 ∙ h)
                    (set-Mirrors r.0 r.1 d.tcas f.tca a.mirrors r.4);
              counts = ap suc a.counts;
            },
          )
  ]

  call-Agrees :
      (k : TcaCall) (d : Devices W) (f : Fake V)
      → IsLegal k
      → Agrees d f
      → ((call_real k d).0 ≡ (call_fake k f).0) × Agrees (call_real k d).1 (call_fake k f).1
  call-Agrees k d f l a = rw (call_real-tells k d, call_fake-tells k f) (tells-Agrees k d f l a)

  get_direction-Agrees :
      (addr port : ℕ) (d : Devices W) (f : Fake V)
      → port < 2
      → Agrees d f
      → (Devices.tca_get_direction addr port d).0 ≡ (Fake.tca_get_direction addr port f).0
  unfolding Devices.tca_get_direction Fake.tca_get_direction
  get_direction-Agrees addr port d f l a = elim (find-Mirrors addr d.tcas f.tca a.mirrors) [
    | inl (e, g) ↦ rw (e, g) refl
    | inr (c, t, e, g, s, h) ↦ rw (e, g) (shown_direction port c t l s)
  ]

  run_Agrees :
      (ks : List TcaCall) (d : Devices W) (f : Fake V)
      → All IsLegal ks
      → Agrees d f
      → ((run_real ks d).0 ≡ (run_fake ks f).0) × Agrees (run_real ks d).1 (run_fake ks f).1
  run_Agrees [] d f l a = (refl, a)
  run_Agrees (k ∷ ks) d f (l, ls) a =
      let step = call-Agrees k d f l a in
      let rest = run_Agrees ks (call_real k d).1 (call_fake k f).1 ls step.1 in
      (λ i. step.0 i ∷ rest.0 i, rest.1)

  -- From managers whose expanders hold the same, any sequence of calls that write an expander, at any address,
  -- with port 0 or 1 and pin 0 to 7, has the same replies from both, KeyError at an unknown address
  -- included, and leaves both with the same outputs and directions and the same count of operations,
  -- so that both then tell the same direction of a port.
  pub run-Agrees :
      (ks : List TcaCall) (addr port : ℕ) (d : Devices W) (f : Fake V)
      → All IsLegal ks
      → port < 2
      → Agrees d f
      → ((run_real ks d).0 ≡ (run_fake ks f).0)
        × Agrees (run_real ks d).1 (run_fake ks f).1
        × ((Devices.tca_get_direction addr port (run_real ks d).1).0
            ≡ (Fake.tca_get_direction addr port (run_fake ks f).1).0)
  run-Agrees ks addr port d f l p a =
      let r = run_Agrees ks d f l a in (r.0, r.1, get_direction-Agrees addr port _ _ p r.1)
