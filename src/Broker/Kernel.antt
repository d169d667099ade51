-- ===== src/Broker/Kernel.antt =====
-- The CAN methods of `HardwareManager`, broker/bus.py, which stand on the links of the kernel. The kernel
-- and python-can are an interface: what `ip link` and a socket do to a state W of the host.
use ifs_hil.Prelude.{
  ℕ, suc, Bool, true, false, ◌&&◌, List, [], ◌∷◌, Option, none, some, ◌==◌, if◌then◌else◌,
  replicate, set,
}
use ifs_hil.Prelude.Text.{same}
use ifs_hil.Prelude.Result.{Result, ok, err, index, ◌>>=◌}
pub mod Modes
pub mod Agrees

-- What `ip -s -d -j link show` tells of a link. A counter is `none` where the key is missing or what
-- holds it is not an object.
pub record Shown : Type 0 where
  pub is_down : Bool
  pub tx_errors : Option ℕ
  pub rx_errors : Option ℕ

-- A frame as python-can gives it: its identifier and its bytes.
abbrev pub Message : Type 0
Message = ℕ × List ℕ

-- `ip_up` takes the bitrate and whether the link loops back. `exchange` sends a frame in a bus that it
-- opens if there is none yet, and gives what is received before the timeout.
pub record Host (W : Type 0) : Type 0 where
  pub show : ℕ → W → Result Shown
  pub ip_down : ℕ → W → W
  pub ip_up : ℕ → ℕ → Bool → W → Result (Unit {0}) × W
  pub open_bus : ℕ → W → Result (Unit {0})
  pub exchange : ℕ → Message → W → Result (Option Message) × W

pub record Manager (W : Type 0) : Type 0 where
  pub host : W
  pub op_count : ℕ
  pub bitrate : ℕ
  pub mode_bytes : List ℕ
  pub bus_open : List Bool

abbrev pub mode_config : ℕ
mode_config = 0x80

abbrev pub mode_normal : ℕ
mode_normal = 0x00

abbrev pub mode_loopback : ℕ
mode_loopback = 0x40

-- `__init__`: the links are taken as they are.
unfoldable pub new_manager : {W : Type 0} → W → ℕ → Manager W
new_manager w bitrate = record {
  host = w;
  op_count = 0;
  bitrate = bitrate;
  mode_bytes = replicate 3 mode_config;
  bus_open = replicate 3 false;
}

abbrev pub Io : Type 0 → Type 0 → Type 0
Io W A = Manager W → Result A × Manager W

module _ {W : Type 0} where
  abbrev pub then_do : {A B : Type 0} → Result A × Manager W → (A → Io W B) → Result B × Manager W
  then_do (ok a, m) k = k a m
  then_do (err e, m) k = (err e, m)

  abbrev pub counted : Manager W → Manager W
  counted m = record m { op_count = suc m.op_count }

  -- `_bus_close`; an exception of the shutdown is dropped.
  abbrev pub bus_close : ℕ → Io W (Unit {0})
  bus_close idx m =
      (index m.bus_open idx >>= λ b. ok tt, record m { bus_open = set m.bus_open idx false })

  abbrev pub set_byte : ℕ → ℕ → Manager W → Manager W
  set_byte idx mode m = record m { mode_bytes = set m.mode_bytes idx mode }

module _ {W : Type 0} (h : Host W) where
  abbrev pub link_down : ℕ → Manager W → Manager W
  link_down idx m = record m { host = h.ip_down idx m.host }

  abbrev pub link_up : ℕ → Bool → Io W (Unit {0})
  link_up idx loopback m =
      let r = h.ip_up idx m.bitrate loopback m.host in (r.0, record m { host = r.1 })

  -- The bus is closed and the link is down, with the mode byte of CONFIG.
  abbrev pub to_config : {A : Type 0} → ℕ → A → Io W A
  to_config idx a m =
      then_do (bus_close idx m) (λ u n. (ok a, set_byte idx mode_config (link_down idx n)))

  abbrev pub to_up : {A : Type 0} → ℕ → Bool → A → Io W A
  to_up idx loopback a m = then_do (bus_close idx m) (λ u n.
      then_do (link_up idx loopback (link_down idx n))
        (λ v o. (ok a, set_byte idx (if loopback then mode_loopback else mode_normal) o)))

  unfoldable pub can_set_mode : ℕ → ℕ → Io W Bool
  can_set_mode idx mode m =
      if mode == mode_config
      then to_config idx true (counted m)
      else to_up idx (mode == mode_loopback) true (counted m)

  unfoldable pub can_reset : ℕ → Io W (Unit {0})
  can_reset idx m = to_config idx tt (counted m)

  unfoldable pub can_init : ℕ → ℕ → Io W Bool
  can_init idx bitrate m = to_config idx true (record (counted m) { bitrate = bitrate })

  abbrev shown_mode : Result Shown → Result ℕ → Result ℕ
  shown_mode (err e) byte = ok mode_config
  shown_mode (ok s) byte = if s.is_down then ok mode_config else byte

  unfoldable pub can_get_mode : ℕ → Manager W → Result ℕ
  can_get_mode idx m = shown_mode (h.show idx m.host) (index m.mode_bytes idx)

  abbrev or_zero : Option ℕ → ℕ
  or_zero none = 0
  or_zero (some n) = n

  abbrev counters : Result Shown → ℕ × ℕ
  counters (err e) = (0, 0)
  counters (ok s) = (or_zero s.tx_errors, or_zero s.rx_errors)

  unfoldable pub can_read_error_counters : ℕ → Manager W → ℕ × ℕ
  can_read_error_counters idx m = counters (h.show idx m.host)

  unfoldable pub can_status : ℕ → Manager W → Result (ℕ × ℕ × ℕ)
  unfolding can_get_mode can_read_error_counters
  can_status idx m =
      can_get_mode idx m >>= λ mode. let c = can_read_error_counters idx m in ok (mode, c.0, c.1)

  abbrev level : Result Shown → ℕ
  level (err e) = 1
  level (ok s) = if s.is_down then 0 else 1

  unfoldable pub can_int_level : ℕ → Manager W → ℕ
  can_int_level idx m = level (h.show idx m.host)

  -- `_ensure_bus`
  abbrev ensure_bus : ℕ → Io W (Unit {0})
  ensure_bus idx m =
      then_do (index m.bus_open idx >>= λ b. if b then ok tt else h.open_bus idx m.host, m)
        (λ u n. (ok tt, record n { bus_open = set n.bus_open idx true }))

  abbrev send_receive : ℕ → Message → Io W (Option Message)
  send_receive idx msg m = let r = h.exchange idx msg m.host in (r.0, record m { host = r.1 })

  abbrev echoed : Message → Option Message → Bool
  echoed msg none = false
  echoed msg (some rx) = rx.0 == msg.0 && same rx.1 msg.1

  -- The second argument of `can_loopback_test` is what base64 decodes to.
  unfoldable pub can_loopback_test : ℕ → ℕ → Result (List ℕ) → Io W Bool
  unfolding same
  can_loopback_test idx can_id (err e) m = (err e, m)
  can_loopback_test idx can_id (ok bytes) m = then_do (to_up idx true tt (counted m)) (λ u n.
      then_do (ensure_bus idx n) (λ v o.
        then_do (send_receive idx (can_id, bytes) o) (λ rx p. (ok (echoed (can_id, bytes) rx), p))))
