-- ===== src/Broker/Fake.antt =====
-- `FakeHardwareManager` of broker/fake_bus.py. Each operation counts itself first, then may raise. The
-- values of the DACs are of any type with a zero, Python's floats in the source. Negative indices,
-- which Python counts from the end, are not modelled.
use ifs_hil.Prelude.{
  ℕ, suc, ◌-◌, ◌%◌, ◌^◌, Bool, true, false, ◌&&◌, List, [], ◌∷◌, ◌++◌, if◌then◌else◌, replicate,
  set, elem, keep, leb, ltb, ◌==◌, bit_or,
}
use ifs_hil.Prelude.Bytes.{bit}
use ifs_hil.Prelude.Result.{Result, ok, err, key_error, index, ◌>>=◌}

-- A dictionary from ports to values.
abbrev pub Ports : Type 0
Ports = List (ℕ × ℕ)

abbrev pub at_key : ℕ → Ports → Result ℕ
at_key k [] = err key_error
at_key k (p ∷ ps) = if p.0 == k then ok p.1 else at_key k ps

-- `ports[k] = v`
abbrev pub insert : ℕ → ℕ → Ports → Ports
insert k v [] = (k, v) ∷ []
insert k v (p ∷ ps) = if p.0 == k then (k, v) ∷ ps else p ∷ insert k v ps

-- `{0: a, 1: b}`
abbrev pub two : ℕ → ℕ → Ports
two a b = (0, a) ∷ (1, b) ∷ []

-- An expander: its output ports and its direction registers.
pub record Tca : Type 0 where
  pub addr : ℕ
  pub outputs : Ports
  pub directions : Ports

pub record Can : Type 0 where
  pub mode : ℕ
  pub tec : ℕ
  pub rec : ℕ

pub record Fake (V : Type 0) : Type 0 where
  pub op_count : ℕ
  pub adc : List (List ℕ)
  pub dac : List (List V)
  pub can : List Can
  pub tca : List Tca
  pub psu_on : Bool
  pub pwr_ok : Bool

abbrev pub ina_addrs : List ℕ
ina_addrs = 0x40 ∷ 0x41 ∷ 0x44 ∷ 0x45 ∷ []

abbrev pub tca_addrs : List ℕ
tca_addrs = 0x20 ∷ 0x21 ∷ 0x22 ∷ []

abbrev new_tca : ℕ → Tca
new_tca a = record { addr = a; outputs = two 0 0; directions = two 0xFF 0xFF }

-- What a method returns, and the manager it leaves.
abbrev pub Reply : Type 0 → Type 0 → Type 0
Reply V A = Result A × Fake V

module _ {V : Type 0} where
  abbrev pub tick : Fake V → Fake V
  tick f = record f { op_count = suc f.op_count }

  -- A read, which only counts.
  abbrev ask : {A : Type 0} → (Fake V → Result A) → Fake V → Reply V A
  ask read f = (read (tick f), tick f)

  abbrev settle : Fake V → Result (Fake V) → Reply V (Unit {0})
  settle f (ok f') = (ok tt, f')
  settle f (err e) = (err e, f)

  -- A write, which counts even if it raises.
  abbrev act : (Fake V → Result (Fake V)) → Fake V → Reply V (Unit {0})
  act write f = settle (tick f) (write (tick f))

abbrev put : {A : Type 0} → List A → ℕ → A → Result (List A)
put xs i v = index xs i >>= λ _. ok (set xs i v)

abbrev check_ina : ℕ → Result (Unit {0})
check_ina addr = if elem addr ina_addrs then ok tt else err key_error

abbrev pub find_tca : ℕ → List Tca → Result Tca
find_tca addr [] = err key_error
find_tca addr (t ∷ ts) = if t.addr == addr then ok t else find_tca addr ts

abbrev pub replace : Tca → List Tca → List Tca
replace t [] = []
replace t (u ∷ us) = if u.addr == t.addr then t ∷ us else u ∷ replace t us

-- `cur | mask`, and `cur & ~mask` for the mask of one bit.
abbrev pub with_pin : ℕ → ℕ → Bool → ℕ
with_pin cur pin true = bit_or cur (2 ^ pin)
with_pin cur pin false = if bit cur pin then cur - 2 ^ pin else cur

module _ {V : Type 0} (zero_v : V) where
  unfoldable pub init : Fake V
  init = record {
    op_count = 0;
    adc = replicate 3 (replicate 8 0);
    dac = replicate 4 (replicate 4 zero_v);
    can = replicate 3 (record { mode = 0x80; tec = 0; rec = 0 });
    tca = new_tca 0x20 ∷ new_tca 0x21 ∷ new_tca 0x22 ∷ [];
    psu_on = false;
    pwr_ok = false;
  }

  -- `dac_reset` and `dac_zero_all`.
  unfoldable pub dac_reset : ℕ → Fake V → Reply V (Unit {0})
  dac_reset idx = act (λ f. put f.dac idx (replicate 4 zero_v) >>= λ d. ok (record f { dac = d }))

module _ {V : Type 0} where
  unfoldable pub adc_read : ℕ → ℕ → Fake V → Reply V ℕ
  adc_read idx channel = ask (λ f. index f.adc idx >>= λ row. index row channel)

  unfoldable pub adc_read_all : ℕ → Fake V → Reply V (List ℕ)
  adc_read_all idx = ask (λ f. index f.adc idx)

  unfoldable pub dac_set_voltage : ℕ → ℕ → V → Fake V → Reply V (Unit {0})
  dac_set_voltage idx channel volts = act (λ f. index f.dac idx >>= λ row.
      put row channel volts >>= λ row'. ok (record f { dac = set f.dac idx row' }))

  unfoldable pub dac_get_voltage : ℕ → ℕ → Fake V → Reply V V
  dac_get_voltage idx channel = ask (λ f. index f.dac idx >>= λ row. index row channel)

  unfoldable pub can_set_mode : ℕ → ℕ → Fake V → Reply V (Unit {0})
  can_set_mode idx mode = act (λ f.
      index f.can idx >>= λ c. ok (record f { can = set f.can idx (record c { mode = mode }) }))

  unfoldable pub can_status : ℕ → Fake V → Reply V Can
  can_status idx = ask (λ f. index f.can idx)

  unfoldable pub can_reset : ℕ → Fake V → Reply V (Unit {0})
  can_reset idx = act (λ f.
      put f.can idx (record { mode = 0x80; tec = 0; rec = 0 }) >>= λ c. ok (record f { can = c }))

  unfoldable pub can_init : ℕ → Fake V → Reply V (Unit {0})
  can_init idx = can_set_mode idx 0x80

  -- `ina_is_present`, and the fixed readings, in units of a thousandth.
  unfoldable pub ina_is_present : ℕ → Fake V → Reply V Bool
  ina_is_present addr = ask (λ f. check_ina addr >>= λ _. ok true)

  unfoldable pub ina_current : ℕ → Fake V → Reply V ℕ
  ina_current addr = ask (λ f. check_ina addr >>= λ _. ok 500)

  abbrev pub change_tca : ℕ → (Tca → Result Tca) → Fake V → Reply V (Unit {0})
  change_tca addr change = act (λ f.
      find_tca addr f.tca >>= λ t. change t >>= λ t'. ok (record f { tca = replace t' f.tca }))

  unfoldable pub tca_is_present : ℕ → Fake V → Reply V Bool
  tca_is_present addr = ask (λ f. find_tca addr f.tca >>= λ _. ok true)

  unfoldable pub tca_read_port : ℕ → ℕ → Fake V → Reply V ℕ
  tca_read_port addr port = ask (λ f. find_tca addr f.tca >>= λ t. at_key port t.outputs)

  unfoldable pub tca_set_direction : ℕ → ℕ → ℕ → Fake V → Reply V (Unit {0})
  tca_set_direction addr port mask =
      change_tca addr (λ t. ok (record t { directions = insert port (mask % 256) t.directions }))

  unfoldable pub tca_get_direction : ℕ → ℕ → Fake V → Reply V ℕ
  tca_get_direction addr port = ask (λ f. find_tca addr f.tca >>= λ t. at_key port t.directions)

  -- `tca_set_all_inputs` and `tca_set_all_outputs`.
  unfoldable pub tca_set_all : ℕ → ℕ → Fake V → Reply V (Unit {0})
  tca_set_all addr mask = change_tca addr (λ t. ok (record t { directions = two mask mask }))

  unfoldable pub tca_write_port : ℕ → ℕ → ℕ → Fake V → Reply V (Unit {0})
  tca_write_port addr port value =
      change_tca addr (λ t. ok (record t { outputs = insert port (value % 256) t.outputs }))

  unfoldable pub tca_write_all : ℕ → ℕ → ℕ → Fake V → Reply V (Unit {0})
  tca_write_all addr p0 p1 =
      change_tca addr (λ t. ok (record t { outputs = two (p0 % 256) (p1 % 256) }))

  unfoldable pub tca_write_pin : ℕ → ℕ → ℕ → Bool → Fake V → Reply V (Unit {0})
  tca_write_pin addr port pin value = change_tca addr (λ t. at_key port t.outputs >>= λ cur.
      ok (record t { outputs = insert port (with_pin cur pin value) t.outputs }))

  -- The addresses in sorted order.
  unfoldable pub i2c_scan : ℕ → ℕ → Fake V → Reply V (List ℕ)
  i2c_scan start stop =
      ask (λ f. ok (keep (λ a. leb start a && ltb a stop) (tca_addrs ++ ina_addrs)))

  -- `psu_status` does not count.
  unfoldable pub psu_status : Fake V → Reply V (Bool × Bool)
  psu_status f = (ok (f.psu_on, f.pwr_ok), f)

  unfoldable pub psu_power : Bool → Fake V → Reply V (Bool × Bool)
  psu_power on f = psu_status (record (tick f) { psu_on = on; pwr_ok = on })
