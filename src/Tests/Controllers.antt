-- ===== src/Tests/Controllers.antt =====
-- Simulated chips under their drivers: an MCP2515 whose changes show after two reads, an nRF24L01+ and an
-- INA226; tools/mcp2515.py, nrf24l01.py and ina226.py.
use ifs_hil.Prelude.{
  ℕ, ◌+◌, ◌-◌, ◌*◌, ◌/◌, ◌%◌, ◌<◌, ◌≡◌, ◌⊎◌, refl, Bool, true, false, ◌&&◌, [], ◌∷◌, if◌then◌else◌,
  leb, ◌==◌, inl, inr, arith, elem,
}
use ifs_hil.Prelude.Result.{ok, err, os_error}
use ifs_hil.Drivers.{Chip, Line}
use ifs_hil.Drivers.Can.{
  configure_bitrate, set_mode, request_mode, get_mode, read_reg, write_reg, bit_modify, reset,
  request_send, transfer, poll, load_frame, load_bytes, same_bytes, verify_frame, ◌>>=◌, mode_of,
  mode_config, init, loopback_test,
}
use ifs_hil.Prelude.Bytes.{bit}
use ifs_hil.Prelude.Int.{ℤ, pos, negsuc}
use ifs_hil.Drivers.Radio
use ifs_hil.Drivers.Radio.Readback.{IsRadio, radio_readback}
use ifs_hil.Drivers.Monitor
use ifs_hil.Drivers.Monitor.{I2c, Snapshot}
use ifs_hil.Drivers.Monitor.Measures.{IsMonitor, IsAbsent, snapshot-measures}
use ifs_hil.Drivers.Can.Settles.{IsController}
use ifs_hil.Drivers.Can.Loopback.{loopback_test-passes}

record Sim : Type 0 where
  old : ℕ → ℕ
  new : ℕ → ℕ
  waiting : ℕ

abbrev shown : Sim → ℕ → ℕ
shown s a = if s.waiting == 0 then s.new a else s.old a

abbrev at_once : (ℕ → ℕ) → Sim
at_once f = record { old = f; new = f; waiting = 0 }

abbrev later : Sim → ℕ → (ℕ → ℕ) → Sim
later s n f = record { old = shown s; new = f; waiting = n }

abbrev received : (ℕ → ℕ) → ℕ → ℕ
received f b =
    if b == 0x2C then f b / 2 * 2 + 1 else if leb 0x61 b && leb b 0x6D then f (b - 0x30) else f b

abbrev sim : Chip Sim
sim (c ∷ []) s =
    if c == 0xC0
    then ([], at_once (λ b. if b == 0x0E then 0x80 else 0))
    else ([], later s 2 (received (shown s)))
sim (c ∷ a ∷ v ∷ []) s =
    if c == 3
    then (0 ∷ 0 ∷ shown s a ∷ [], record s { waiting = s.waiting - 1 })
    else ([], at_once (λ b. if b == a then v else shown s b))
sim (c ∷ a ∷ mask ∷ v ∷ []) s =
    if a == 0x0F
    then (
      [],
      later s (if mode_of (shown s 0x0E) == v then 0 else 2)
          (λ b. if b == 0x0E then v else shown s b),
    )
    else ([], at_once (λ b. if b == 0x2C then shown s b / 2 * 2 else shown s b))
sim pkt s = ([], s)

abbrev goes_to : Sim → ℕ → ℕ
goes_to s = s.new

abbrev left : Sim → ℕ
left s = s.waiting

sim-configures :
    (a v : ℕ) (s : Sim)
    → elem a (0x28 ∷ 0x29 ∷ 0x2A ∷ 0x60 ∷ []) ≡ true
    → mode_of (shown s 0x0E) ≡ mode_config
    → mode_of (if 0x0E == a then v else shown s 0x0E) ≡ mode_config
sim-configures a v s e c = ground (arith, e, c)

sim-ends : (m : ℕ) → elem m (0x00 ∷ 0x20 ∷ 0x40 ∷ 0x60 ∷ 0x80 ∷ []) ≡ true → (mode_of m == m) ≡ true
sim-ends m h = ground (arith, h)

sim-early :
    (b : Bool) (m new old : ℕ)
    → (mode_of old == m) ≡ b
    → 0 < (if b then 0 else 2)
    → (mode_of (if (if b then 0 else 2) == 0 then new else old) == m) ≡ false
sim-early true m new old e h = absurd (omega (arith, h))
sim-early false m new old e h = e

sim-received : (f : ℕ → ℕ) (i : ℕ) → i < 8 → received f (0x66 + i) ≡ f (0x36 + i)
sim-received f i h =
    let there : 0x66 + i - 0x30 ≡ 0x36 + i = omega arith in ground (arith, h, there)

sim-IsController : IsController sim shown goes_to left 2
sim-IsController = record {
  settled = λ s a w. ground (arith, w);
  reads = λ a s. (0, 0, refl);
  passes = λ a s. (refl, λ b. refl, λ h b. ground (arith, h));
  resets = λ s. (refl, refl);
  configures = λ a v s e h w c. (refl, sim-configures a v s e c, λ f. ground (arith, f));
  loads = λ a v s low high h w. record { rests = refl; shows = λ b. refl };
  clears = λ s w. record { rests = refl; shows = λ b. refl };
  requests = λ m s e w awake. (
    ground arith,
    record {
      ends = sim-ends m e;
      early = sim-early (mode_of (shown s 0x0E) == m) m m (shown s 0x0E) refl;
    },
    refl,
  );
  sends = λ s w m any std clear. (
    omega arith,
    record { ends = ground arith; early = λ h. ground (arith, clear) },
    refl,
    refl,
    refl,
    λ i lt small. sim-received (shown s) i small,
  );
}

abbrev line : Line Sim
line = record { chip = at_once (λ b. 0); mode = 0; cs_low = false; frames = [] }

loopback_test-passes_example :
    ((init sim 500_000 line).0 ≡ ok true)
    × ((loopback_test sim 3 5 0x123 (0xDE ∷ 0xAD ∷ 0xBE ∷ 0xEF ∷ []) (init sim 500_000 line).1).0
        ≡ ok true)
loopback_test-passes_example =
    loopback_test-passes sim shown goes_to left 2 sim-IsController 500_000 3 5 0x123
      (0x00, 0xF0, 0x86) (0xDE ∷ 0xAD ∷ 0xBE ∷ 0xEF ∷ []) line refl (omega arith) (omega arith)
      (omega arith) (omega arith) (omega arith)

-- With two turns the chip is not in loopback mode yet.
too_soon : (loopback_test sim 2 5 0x123 (7 ∷ []) (init sim 500_000 line).1).0 ≡ ok false
unfolding loopback_test init set_mode request_mode configure_bitrate get_mode read_reg write_reg
    bit_modify reset transfer poll ◌>>=◌
too_soon = refl

-- An identifier of more than eleven bits is cut when it is sent, and does not come back.
too_wide : (loopback_test sim 3 5 0x923 (7 ∷ []) (init sim 500_000 line).1).0 ≡ ok false
unfolding loopback_test init set_mode request_mode configure_bitrate get_mode read_reg write_reg
    bit_modify reset request_send transfer poll load_frame load_bytes same_bytes verify_frame ◌>>=◌
too_wide = refl

-- CONFIG and RF_CH of a radio.
abbrev Pair : Type 0
Pair = ℕ × ℕ

abbrev radio_reg : Pair → ℕ → ℕ
radio_reg (cfg, ch) a = if a == 0 then cfg % 128 else ch % 128

abbrev radio : Chip Pair
radio (c ∷ v ∷ []) (cfg, ch) =
    if leb 0x20 c
    then ([], (if c == 0x20 then v else cfg, if c == 0x25 then v else ch))
    else (0x0E ∷ radio_reg (cfg, ch) c ∷ [], (cfg, ch))
radio pkt s = ([], s)

radio-answers :
    (a : ℕ) (s : Pair)
    → (a ≡ 0x00) ⊎ (a ≡ 0x05)
    → (x : ℕ) × ((radio (a ∷ 0xFF ∷ []) s).0 ≡ x ∷ radio_reg s a ∷ [])
radio-answers a s (inl e) = (0x0E, rw e refl)
radio-answers a s (inr e) = (0x0E, rw e refl)

radio-keeps :
    (a b : ℕ) (s : Pair)
    → (a ≡ 0x00) ⊎ (a ≡ 0x05)
    → radio_reg (radio (a ∷ 0xFF ∷ []) s).1 b ≡ radio_reg s b
radio-keeps a b s (inl e) = rw e refl
radio-keeps a b s (inr e) = rw e refl

radio-writes :
    (a b v : ℕ) (s : Pair)
    → (a ≡ 0x00) ⊎ (a ≡ 0x05)
    → (b ≡ 0x00) ⊎ (b ≡ 0x05)
    → v < 128
    → radio_reg (radio ((0x20 + a) ∷ v ∷ []) s).1 b ≡ (if b == a then v else radio_reg s b)
radio-writes a b v s (inl e) (inl f) lt = rw (e, f) (omega (arith, lt))
radio-writes a b v s (inl e) (inr f) lt = rw (e, f) refl
radio-writes a b v s (inr e) (inl f) lt = rw (e, f) refl
radio-writes a b v s (inr e) (inr f) lt = rw (e, f) (omega (arith, lt))

radio-IsRadio : IsRadio radio radio_reg
radio-IsRadio = record {
  seven_bits = λ a s h. ground arith;
  answers = radio-answers;
  keeps = λ a b s h k. radio-keeps a b s h;
  writes = radio-writes;
}

abbrev radio_line : Line Pair
radio_line = record { chip = (0x08, 2); mode = 0; cs_low = false; frames = [] }

radio_readback_example :
    ((Radio.get_channel radio true (Radio.set_channel radio true 200 radio_line)).0 ≡ ok 72)
    × ((v : ℕ) × ((Radio.read_config radio true (Radio.power_up radio true radio_line).1).0 ≡ ok v)
        × ((k : ℕ) → k < 8 → bit v k ≡ (if k == 1 then true else bit 0x08 k)))
    × ((v : ℕ) × ((Radio.read_config radio true (Radio.power_down radio true radio_line).1).0
          ≡ ok v)
        × ((k : ℕ) → k < 8 → bit v k ≡ (if k == 1 then false else bit 0x08 k)))
    × ((Radio.is_present radio true radio_line).0 ≡ true)
    × ((Radio.get_channel radio true (Radio.is_present radio true radio_line).1).0 ≡ ok 0x4C)
radio_readback_example = radio_readback radio radio_reg true 200 radio_line radio-IsRadio

-- The registers of a monitor, which a write does not change; the current is negative.
abbrev monitor_reg : Unit {0} → ℕ → ℕ
monitor_reg s a =
    if a == 0x01
    then 400
    else if a == 0x02
    then 9600
    else if a == 0x03
    then 80
    else if a == 0x04
    then 65436
    else if a == 0xFE
    then 0x5449
    else 0x2260

abbrev monitor : I2c (Unit {0})
monitor = record {
  read_block = λ a s. (ok (monitor_reg s a / 256, monitor_reg s a % 256), s);
  write_block = λ a bs s. (ok tt, s);
}

abbrev nothing : I2c (Unit {0})
nothing = record {
  read_block = λ a s. (err os_error, s);
  write_block = λ a bs s. (err os_error, s);
}

monitor-IsMonitor : IsMonitor monitor monitor_reg
monitor-IsMonitor = record {
  width = λ a s. ground arith;
  answers = λ a s. refl;
  keeps = λ a b s. refl;
}

nothing-IsAbsent : IsAbsent nothing
nothing-IsAbsent = record { unread = λ a s. refl; unwritten = λ a bs s. refl }

abbrev whole : ℤ → ℤ
whole z = z

snapshot-measures_example :
    ((Monitor.is_present monitor tt).0 ≡ ok true)
    × ((Monitor.snapshot monitor whole whole whole pos tt).0
        ≡ ok (record {
          bus_voltage = pos 9600;
          shunt_voltage = pos 400;
          current = negsuc 99;
          power = pos 80;
        }))
    × ((Monitor.init nothing 5592 tt).0 ≡ ok tt)
    × ((Monitor.is_present nothing tt).0 ≡ ok false)
    × ((Monitor.snapshot nothing whole whole whole pos tt).0 ≡ err os_error)
snapshot-measures_example =
    snapshot-measures monitor nothing monitor_reg whole whole whole pos 5592 (pos 400) (negsuc 99)
      tt monitor-IsMonitor nothing-IsAbsent (omega arith) (omega arith) refl refl
