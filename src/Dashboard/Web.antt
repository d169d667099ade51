-- ===== src/Dashboard/Web.antt =====
-- The requests of dashboard/app.py that switch something, with the in-memory backend of the broker behind
-- the clients. The body of a request is given by what is read from it. A response is its status code.
use ifs_hil.Prelude.{
  ℕ, zero, suc, ◌-◌, Bool, true, false, not, ◌&&◌, List, [], ◌∷◌, Option, none, some, if◌then◌else◌,
  replicate, set, elem, leb, ltb, ◌==◌,
}
use ifs_hil.Prelude.Text.{Text, lit, same}
use ifs_hil.Prelude.Result.{Result, ok, err, runtime_error}
use ifs_hil.Broker.Fake
use ifs_hil.Broker.Fake.{
  Fake, Reply, tca_addrs, tca_set_direction, tca_write_port, tca_write_pin, psu_power,
  dac_set_voltage, can_set_mode,
}
pub mod Register
pub mod Relays

-- `_relay_state`, by slots from the first one, `_psu_on`, and the broker, with the number of calls made of it and
-- which of them reach it. A call that does not raises and changes nothing.
pub record App (V : Type 0) : Type 0 where
  pub relays : List Bool
  pub psu_on : Bool
  pub broker : Fake V
  pub calls : ℕ
  pub reached : ℕ → Bool

pub data Request (V : Type 0) : Type 0 where
  carrier : (slot : ℕ) (on : Bool) → Request V
  supply : (on : Bool) → Request V
  dac : (idx channel : ℕ) (voltage : Option V) → Request V
  tca_pin : (addr port pin : ℕ) (value : Bool) → Request V
  can_mode : (idx : ℕ) (mode : Text) → Request V

-- The slots have the relays K1 to K4, pins 0 to 3 of port 0 at 0x20.
abbrev pub relay_addr : ℕ
relay_addr = 0x20

abbrev pub relay_port : ℕ
relay_port = 0

abbrev pub mode_byte : Text → Option ℕ
mode_byte mode =
    if same mode (lit "normal")
    then some 0x00
    else if same mode (lit "sleep")
    then some 0x20
    else if same mode (lit "loopback")
    then some 0x40
    else if same mode (lit "listenonly")
    then some 0x60
    else if same mode (lit "config")
    then some 0x80
    else none

-- What the module starts with, before the broker's state of the supply is read.
unfoldable pub new_app : {V : Type 0} → (ℕ → Bool) → Fake V → App V
new_app reached broker = record {
  relays = replicate 4 false;
  psu_on = false;
  broker = broker;
  calls = 0;
  reached = reached;
}

module _ {V : Type 0} where
  abbrev pub with_broker : Fake V → App V → App V
  with_broker f a = record a { broker = f; calls = suc a.calls }

  -- A call through the client; one that does not reach the broker raises.
  abbrev pub sent : {A : Type 0} → (Fake V → Reply V A) → App V → Reply V A
  sent call a = if a.reached a.calls then call a.broker else (err runtime_error, a.broker)

  -- A call of the broker: what follows if it returns, and 500 if it raises.
  abbrev pub attempt : {A : Type 0} → Reply V A → App V → (A → App V → ℕ × App V) → ℕ × App V
  attempt (ok x, f) a k = k x (with_broker f a)
  attempt (err e, f) a k = (500, with_broker f a)

  abbrev pub switch_pin : ℕ → ℕ → ℕ → Bool → App V → (App V → App V) → ℕ × App V
  switch_pin addr port pin value a done =
      attempt (sent (tca_set_direction addr port 0x00) a) a
        (λ u b. attempt (sent (tca_write_pin addr port pin value) b) b (λ v c. (200, done c)))

  unfoldable pub carrier_power : ℕ → Bool → App V → ℕ × App V
  carrier_power slot on a =
      if leb 1 slot && leb slot 4
      then switch_pin relay_addr relay_port (slot - 1) on a
          (λ c. record c { relays = set c.relays (slot - 1) on })
      else (400, a)

  abbrev pub powered : Bool → Bool × Bool → App V → ℕ × App V
  powered true r a = if r.1 then (200, record a { psu_on = true }) else (500, a)
  powered false r a = (200, record a { psu_on = false; relays = replicate 4 false })

  unfoldable pub psu_power_endpoint : Bool → App V → ℕ × App V
  psu_power_endpoint on a = attempt (sent (psu_power on) a) a (powered on)

  abbrev set_channel : ℕ → ℕ → Option V → App V → ℕ × App V
  set_channel idx ch none a = (400, a)
  set_channel idx ch (some v) a = attempt (sent (dac_set_voltage idx ch v) a) a (λ u b. (200, b))

  unfoldable pub dac_set : ℕ → ℕ → Option V → App V → ℕ × App V
  dac_set idx ch voltage a =
      if ltb idx 4 && leb ch 3 then set_channel idx ch voltage a else (400, a)

  unfoldable pub tca_write_pin_endpoint : ℕ → ℕ → ℕ → Bool → App V → ℕ × App V
  tca_write_pin_endpoint addr port pin value a =
      if elem addr tca_addrs && (leb port 1 && leb pin 7)
      then switch_pin addr port pin value a (λ c. c)
      else (400, a)

  abbrev set_mode : ℕ → Option ℕ → App V → ℕ × App V
  set_mode idx none a = (400, a)
  set_mode idx (some byte) a = attempt (sent (can_set_mode idx byte) a) a (λ u b. (200, b))

  unfoldable pub can_mode_endpoint : ℕ → Text → App V → ℕ × App V
  unfolding same
  can_mode_endpoint idx mode a = if ltb idx 3 then set_mode idx (mode_byte mode) a else (400, a)

  abbrev pub and_on :
      {A : Type 0}
      → Reply V A
      → App V
      → (App V → Result (Unit {0}) × App V)
      → Result (Unit {0}) × App V
  and_on (ok x, f) a k = k (with_broker f a)
  and_on (err e, f) a k = (err e, with_broker f a)

  -- `_init_relays`
  unfoldable pub init_relays : App V → Result (Unit {0}) × App V
  init_relays a =
      and_on (sent (tca_set_direction relay_addr relay_port 0x00) a) a
        (λ b. and_on (sent (tca_write_port relay_addr relay_port 0x00) b) b (λ c. (ok tt, c)))

  unfoldable pub serve : Request V → App V → ℕ × App V
  unfolding carrier_power psu_power_endpoint dac_set tca_write_pin_endpoint can_mode_endpoint
  serve (carrier slot on) a = carrier_power slot on a
  serve (supply on) a = psu_power_endpoint on a
  serve (dac idx ch v) a = dac_set idx ch v a
  serve (tca_pin addr port pin v) a = tca_write_pin_endpoint addr port pin v a
  serve (can_mode idx mode) a = can_mode_endpoint idx mode a

  unfoldable pub serve_each : List (Request V) → App V → App V
  serve_each [] a = a
  serve_each (r ∷ rs) a = serve_each rs (serve r a).1
