-- ===== src/Dashboard/Web/Relays.antt =====
-- What dashboard/app.py shows for the carriers, against the relays that the expander drives.
use ifs_hil.Prelude.{
  subst, ℕ, zero, suc, ◌-◌, ◌%◌, ◌<◌, ◌≡◌, ◌≢◌, refl, sym, ap, ◌∙◌, Bool, true, false, ◌&&◌, List,
  [], ◌∷◌, Option, none, some, if◌then◌else◌, length, get_elem?, set, replicate, leb, ltb, ◌==◌,
  Bool-cases, Option-cases, elem, inl, inr, All, length-set, arith,
}
use ifs_hil.Prelude.Bytes.{bit}
use ifs_hil.Prelude.Text.{Text}
use ifs_hil.Prelude.Result.{Result, ok, err, runtime_error}
use ifs_hil.Broker.Fake.{
  Fake, tca_addrs, psu_status, Tca, Reply, Ports, find_tca, replace, at_key, insert, with_pin,
  change_tca, tick, tca_set_direction, tca_write_pin, tca_write_port, psu_power, dac_set_voltage,
  can_set_mode,
}
use ifs_hil.Broker.Fake
use ifs_hil.Broker.Expander.{with_pin-lt, with_pin-bit}
use ifs_hil.Dashboard.Web.{
  attempt, and_on, powered, sent, with_broker, psu_power_endpoint, dac_set, can_mode_endpoint,
  tca_write_pin_endpoint, mode_byte, new_app, App, Request, carrier, supply, dac, tca_pin, can_mode,
  serve, serve_each, init_relays, carrier_power,
}
use ifs_hil.Dashboard.Web.Register.{
  coils, coils-set_direction, coils-write_port, coils-write_pin, coils-write_pin_other,
  coils-dac_set_voltage, coils-can_set_mode,
}

get_elem?-set_flag :
    (bs : List Bool) (i j : ℕ) (v : Bool)
    → i < length bs
    → get_elem? (set bs i v) j ≡ (if j == i then some v else get_elem? bs j)
get_elem?-set_flag [] i j v h = absurd (omega (arith, h))
get_elem?-set_flag (b ∷ bs) zero zero v h = refl
get_elem?-set_flag (b ∷ bs) zero (suc j) v h = ground arith
get_elem?-set_flag (b ∷ bs) (suc i) zero v h = ground arith
get_elem?-set_flag (b ∷ bs) (suc i) (suc j) v h =
    ground (arith, get_elem?-set_flag bs i j v (omega (arith, h)))

-- The dashboard shows of each carrier what its relay's bit in the output register is.
pub record IsShown {V : Type 0} (a : App V) : Type 0 where
  pub register : ℕ
  pub held : coils a.broker ≡ ok register
  pub byte : register < 256
  pub slots : length a.relays ≡ 4
  pub shows : (i : ℕ) → i < 4 → get_elem? a.relays i ≡ some (bit register i)

-- Requests that leave the four relays to the carrier requests: not an output of the expander of the
-- relays, and not the supply switched off.
abbrev pub IsHarmless : {V : Type 0} → Request V → Type 0
IsHarmless (carrier slot on) = Unit
IsHarmless (supply on) = on ≡ true
IsHarmless (dac idx ch v) = Unit
IsHarmless (tca_pin addr port pin v) = addr ≢ 0x20
IsHarmless (can_mode idx mode) = Unit

pick_some : (b v w : Bool) → (if b then some v else some w) ≡ some (if b then v else w)
pick_some true v w = refl
pick_some false v w = refl

mod_small : (n : ℕ) → n < 256 → n % 256 ≡ n
mod_small n h = omega (arith, h)

off_at : (i : ℕ) → i < 4 → get_elem? (replicate 4 false) i ≡ some (bit 0 i)
off_at zero h = refl
off_at (suc zero) h = refl
off_at (suc (suc zero)) h = refl
off_at (suc (suc (suc zero))) h = refl
off_at (suc (suc (suc (suc i)))) h = absurd (omega (arith, h))

module _ {V : Type 0} where
  -- What the dashboard shows rests on the relays and on the register alone.
  IsShown-same :
      (a b : App V) → b.relays ≡ a.relays → coils b.broker ≡ coils a.broker → IsShown a → IsShown b
  IsShown-same a b r c k = record {
    register = k.register;
    held = c ∙ k.held;
    byte = k.byte;
    slots = ap length r ∙ k.slots;
    shows = λ i lt. ap (λ rs. get_elem? rs i) r ∙ k.shows i lt;
  }

  IsShown-set :
      (a : App V) (f : Fake V) (pin : ℕ) (v : Bool) (k : IsShown a)
      → pin < 4
      → coils f ≡ ok (with_pin k.register pin v)
      → IsShown (record (with_broker f a) { relays = set a.relays pin v })
  IsShown-set a f pin v k lt c =
      let o : ℕ = k.register in
      let small : with_pin o pin v < 256 = with_pin-lt o pin v k.byte (omega (arith, lt)) in
      record {
        register = with_pin o pin v;
        held = c;
        byte = small;
        slots = length-set a.relays pin v ∙ k.slots;
        shows = λ i h.
            get_elem?-set_flag a.relays pin i v (omega (arith, lt, k.slots))
            ∙ ap (λ t. if i == pin then some v else t) (k.shows i h)
            ∙ pick_some (i == pin) v (bit o i)
            ∙ ap some (
                sym (with_pin-bit o pin i v k.byte (omega (arith, lt)) (omega (arith, h)))
                ∙ ap (λ t. bit t i) (mod_small (with_pin o pin v) small));
      }

  -- A call that leaves the register alone, followed by what keeps the relays shown.
  attempt-IsShown :
      {A : Type 0} (r : Reply V A) (a : App V) (k : A → App V → ℕ × App V)
      → IsShown a
      → coils r.1 ≡ coils a.broker
      → ((x : A) → r.0 ≡ ok x → (b : App V) → IsShown b → IsShown (k x b).1)
      → IsShown (attempt r a k).1
  attempt-IsShown (ok x, f) a k s c h = h x refl _ (IsShown-same a _ refl c s)
  attempt-IsShown (err e, f) a k s c h = IsShown-same a _ refl c s

  coils-sent :
      {A : Type 0} (call : Fake V → Reply V A) (a : App V)
      → coils (call a.broker).1 ≡ coils a.broker
      → coils (sent call a).1 ≡ coils a.broker
  coils-sent call a h = elim (Bool-cases (a.reached a.calls)) [ inl e ↦ rw e h | inr e ↦ rw e refl ]

  written-IsShown :
      (pin : ℕ) (v : Bool) (b : App V)
      → pin < 4
      → IsShown b
      → IsShown
          (attempt
            (sent (tca_write_pin 0x20 0 pin v) b)
            b
            (λ u c. (200, record c { relays = set c.relays pin v }))).1
  written-IsShown pin v b lt k = elim (Bool-cases (b.reached b.calls)) [
    | inl e ↦
        let w = coils-write_pin pin k.register v b.broker k.held in
        rw (e, w.0) (IsShown-set b _ pin v k lt w.1)
    | inr e ↦ rw e (IsShown-same b (with_broker b.broker b) refl refl k)
  ]

  carrier_power-IsShown :
      (slot : ℕ) (on : Bool) (a : App V) → IsShown a → IsShown (carrier_power slot on a).1
  unfolding carrier_power
  carrier_power-IsShown slot on a k = elim (Bool-cases (leb 1 slot && leb slot 4)) [
    | inl e ↦ rw e (
        attempt-IsShown (sent (tca_set_direction 0x20 0 0) a) a _ k
          (coils-sent (tca_set_direction 0x20 0 0) a (coils-set_direction 0x20 0 0 a.broker))
          (λ x h b s. written-IsShown (slot - 1) on b (ground (arith, e)) s))
    | inr e ↦ rw e k
  ]

  powered-IsShown : (r : Bool × Bool) (b : App V) → IsShown b → IsShown (powered true r b).1
  powered-IsShown (on, true) b k = IsShown-same b (record b { psu_on = true }) refl refl k
  powered-IsShown (on, false) b k = k

  psu_power_endpoint-IsShown : (a : App V) → IsShown a → IsShown (psu_power_endpoint true a).1
  unfolding psu_power_endpoint psu_power psu_status
  psu_power_endpoint-IsShown a k =
      attempt-IsShown (sent (psu_power true) a) a _ k (coils-sent (psu_power true) a refl)
        (λ r h b s. powered-IsShown r b s)

  dac_set-IsShown :
      (idx ch : ℕ) (v : Option V) (a : App V) → IsShown a → IsShown (dac_set idx ch v a).1
  unfolding dac_set
  dac_set-IsShown idx ch none a k = elim (Bool-cases (ltb idx 4 && leb ch 3)) [
    | inl e ↦ rw e k
    | inr e ↦ rw e k
  ]
  dac_set-IsShown idx ch (some v) a k = elim (Bool-cases (ltb idx 4 && leb ch 3)) [
    | inl e ↦ rw e (
        attempt-IsShown (sent (dac_set_voltage idx ch v) a) a _ k
          (coils-sent (dac_set_voltage idx ch v) a (coils-dac_set_voltage idx ch v a.broker))
          (λ x h b s. s))
    | inr e ↦ rw e k
  ]

  can_mode_endpoint-IsShown :
      (idx : ℕ) (mode : Text) (a : App V) → IsShown a → IsShown (can_mode_endpoint idx mode a).1
  unfolding can_mode_endpoint
  can_mode_endpoint-IsShown idx mode a k = elim (Bool-cases (ltb idx 3)) [
    | inl e ↦ elim (Option-cases (mode_byte mode)) [
      | inl n ↦ rw (e, n) k
      | inr (byte, n) ↦
          rw (e, n)
            (attempt-IsShown (sent (Fake.can_set_mode idx byte) a) a _ k
              (coils-sent (Fake.can_set_mode idx byte) a (coils-can_set_mode idx byte a.broker))
              (λ x h b s. s))
    ]
    | inr e ↦ rw e k
  ]

  tca_write_pin_endpoint-IsShown :
      (addr port pin : ℕ) (v : Bool) (a : App V)
      → addr ≢ 0x20
      → IsShown a
      → IsShown (tca_write_pin_endpoint addr port pin v a).1
  unfolding tca_write_pin_endpoint
  tca_write_pin_endpoint-IsShown addr port pin v a ne k =
      elim (Bool-cases (elem addr tca_addrs && (leb port 1 && leb pin 7))) [
        | inl e ↦ rw e (
            attempt-IsShown (sent (tca_set_direction addr port 0) a) a _ k
              (coils-sent (tca_set_direction addr port 0) a
                (coils-set_direction addr port 0 a.broker))
              (λ x h b s.
                attempt-IsShown (sent (tca_write_pin addr port pin v) b) b _ s
                  (coils-sent (tca_write_pin addr port pin v) b
                    (coils-write_pin_other addr port pin v b.broker ne))
                  (λ y g c t. t)))
        | inr e ↦ rw e k
      ]

  serve-IsShown : (r : Request V) (a : App V) → IsHarmless r → IsShown a → IsShown (serve r a).1
  unfolding serve
  serve-IsShown (carrier slot on) a h k = carrier_power-IsShown slot on a k
  serve-IsShown (supply true) a h k = psu_power_endpoint-IsShown a k
  serve-IsShown (supply false) a h k = cc
  serve-IsShown (dac idx ch v) a h k = dac_set-IsShown idx ch v a k
  serve-IsShown (tca_pin addr port pin v) a h k =
      tca_write_pin_endpoint-IsShown addr port pin v a h k
  serve-IsShown (can_mode idx mode) a h k = can_mode_endpoint-IsShown idx mode a k

  serve_each-IsShown :
      (rs : List (Request V)) (a : App V)
      → All IsHarmless rs
      → IsShown a
      → IsShown (serve_each rs a)
  unfolding serve_each
  serve_each-IsShown [] a h k = k
  serve_each-IsShown (r ∷ rs) a (h, hs) k = serve_each-IsShown rs _ hs (serve-IsShown r a h k)

  sent-ok :
      {A : Type 0} (call : Fake V → Reply V A) (a : App V) (x : A)
      → (sent call a).0 ≡ ok x
      → (sent call a).1 ≡ (call a.broker).1
  sent-ok {A} call a x h = elim (Bool-cases (a.reached a.calls)) [
    | inl e ↦ rw e refl
    | inr e ↦ absurd (refused (ap (λ b. chosen b) e))
  ]
    where
      chosen : Bool → Result A
      chosen true = (call a.broker).0
      chosen false = err runtime_error

      picked :
          (b : Bool)
          → (if◌then◌else◌ {A = Reply V A} b (call a.broker) (err runtime_error, a.broker)).0
            ≡ chosen b
      picked true = refl
      picked false = refl

      refused : chosen (a.reached a.calls) ≡ err runtime_error → ⊥
      refused q =
          let no : err runtime_error ≡ ok x = sym q ∙ sym (picked (a.reached a.calls)) ∙ h in cc no

  and_on-ok :
      {A : Type 0} (r : Reply V A) (a : App V) (k : App V → Result (Unit {0}) × App V)
      (u : Unit {0})
      → (and_on r a k).0 ≡ ok u
      → (x : A) × (r.0 ≡ ok x) × (and_on r a k ≡ k (with_broker r.1 a))
  and_on-ok (ok x, f) a k u h = (x, refl, refl)
  and_on-ok (err e, f) a k u h = absurd (cc h)

  at_rest : (a : App V) → a.relays ≡ replicate 4 false → coils a.broker ≡ ok 0 → IsShown a
  at_rest a r c = record {
    register = 0;
    held = c;
    byte = omega arith;
    slots = ap length r;
    shows = λ i lt. ap (λ rs. get_elem? rs i) r ∙ off_at i lt;
  }

  init_relays-IsShown :
      (reached : ℕ → Bool) (f : Fake V) (o : ℕ)
      → coils f ≡ ok o
      → (init_relays (new_app reached f)).0 ≡ ok tt
      → IsShown (init_relays (new_app reached f)).1
  unfolding init_relays new_app
  init_relays-IsShown reached f o c h =
      let a = new_app reached f in
      let set_up = sent (tca_set_direction 0x20 0 0) a in
      let b = with_broker set_up.1 a in
      let wrote = sent (tca_write_port 0x20 0 0) b in
      let p = and_on-ok set_up a _ tt h in
      let q = and_on-ok wrote b (λ c. (ok tt, c)) tt (sym (ap (λ r. r.0) p.2) ∙ h) in
      let held = coils-sent (tca_set_direction 0x20 0 0) a (coils-set_direction 0x20 0 0 f) ∙ c in
      let rest = coils-write_port 0 o b.broker held (omega arith) in
      let both : init_relays a ≡ (ok tt, with_broker wrote.1 b) = p.2 ∙ q.2 in
      subst (λ r. IsShown r.1) (sym both)
        (at_rest (with_broker wrote.1 b) refl
          (ap coils (sent-ok (tca_write_port 0x20 0 0) b q.0 q.1) ∙ rest))

  -- From a start of the dashboard that succeeds over the in-memory backend, whatever the relays were, any requests keep
  -- what it shows of each carrier equal to the bit of the carrier's relay in the output register, those included that
  -- are refused and those of which any call does not reach the broker; except a request that switches the supply off, or
  -- that writes a pin of the expander of the relays directly.
  pub serve_each-Shows :
      (reached : ℕ → Bool) (f : Fake V) (o : ℕ) (rs : List (Request V))
      → coils f ≡ ok o
      → (init_relays (new_app reached f)).0 ≡ ok tt
      → All IsHarmless rs
      → IsShown (serve_each rs (init_relays (new_app reached f)).1)
  serve_each-Shows reached f o rs c e h =
      serve_each-IsShown rs _ h (init_relays-IsShown reached f o c e)

  -- Switching the supply off shows every carrier as off and leaves the register of the relays.
  psu_power_endpoint-coils :
      (a : App V)
      → a.reached a.calls ≡ true
      → ((psu_power_endpoint false a).1.relays ≡ replicate 4 false)
        × (coils (psu_power_endpoint false a).1.broker ≡ coils a.broker)
  unfolding psu_power_endpoint psu_power psu_status
  psu_power_endpoint-coils a h = rw h (refl, refl)
