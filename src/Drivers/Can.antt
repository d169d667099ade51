-- ===== src/Drivers/Can.antt =====
-- The CAN controller MCP2515 of tools/mcp2515.py. A wait up to a deadline is a number of turns.
use ifs_hil.Prelude.{
  ℕ, zero, suc, ◌+◌, ◌*◌, ◌/◌, ◌%◌, Bool, true, false, List, [], ◌∷◌, if◌then◌else◌, length, ◌==◌,
  not,
}
use ifs_hil.Prelude.Result.{Result, ok, err, value_error, index}
use ifs_hil.Drivers.{Chip, Line, xfer2, select_low, select_high}
pub mod Settles
pub mod Setup
pub mod Buffer
pub mod Loopback

-- Code that uses the line and may raise.
abbrev pub Act : Type 0 → Type 0 → Type 0
Act S A = Line S → Result A × Line S

abbrev pub and_then : {S A B : Type 0} → Result A → Line S → (A → Act S B) → Result B × Line S
and_then (ok a) l f = f a l
and_then (err e) l f = (err e, l)

infixl 5 ◌>>=◌ ◌>>◌
unfoldable pub ◌>>=◌ : {S A B : Type 0} → Act S A → (A → Act S B) → Act S B
◌>>=◌ m f l = let r = m l in and_then r.0 r.1 f

abbrev pub ◌>>◌ : {S B : Type 0} → Act S (Unit {0}) → Act S B → Act S B
m >> k = m >>= λ _. k

abbrev pub pure : {S A : Type 0} → A → Act S A
pure a l = (ok a, l)

abbrev pub of_result : {S A : Type 0} → Result A → Act S A
of_result r l = (r, l)

-- while time is left: if check: return True
unfoldable pub poll : {S : Type 0} → ℕ → Act S Bool → Act S Bool
poll zero check = pure false
poll (suc turns) check = check >>= λ b. let rest = poll turns check in if b then pure true else rest

abbrev pub mode_sleep : ℕ
mode_sleep = 0x20

abbrev pub mode_loopback : ℕ
mode_loopback = 0x40

abbrev pub mode_config : ℕ
mode_config = 0x80

-- v & 0xE0
abbrev pub mode_of : ℕ → ℕ
mode_of v = v / 32 % 8 * 32

-- CNF1, CNF2, CNF3
abbrev pub bitrate_config : ℕ → Result (ℕ × ℕ × ℕ)
bitrate_config bitrate =
    if bitrate == 125_000
    then ok (0x03, 0xF0, 0x86)
    else if bitrate == 250_000
    then ok (0x01, 0xF0, 0x86)
    else if bitrate == 500_000
    then ok (0x00, 0xF0, 0x86)
    else if bitrate == 1_000_000
    then ok (0x00, 0xD0, 0x82)
    else err value_error

-- v & 0x01
abbrev pub flag_of : ℕ → Bool
flag_of v = v % 2 == 1

module _ {S : Type 0} (device : Chip S) where
  unfoldable pub transfer : List ℕ → Act S (List ℕ)
  transfer pkt l = let r = xfer2 device pkt (select_low l) in (ok r.0, select_high r.1)

  unfoldable pub read_reg : ℕ → Act S ℕ
  unfolding transfer
  read_reg addr = transfer (0x03 ∷ addr ∷ 0x00 ∷ []) >>= λ resp. of_result (index resp 2)

  unfoldable pub write_reg : ℕ → ℕ → Act S (Unit {0})
  unfolding transfer
  write_reg addr v = transfer (0x02 ∷ addr ∷ v % 256 ∷ []) >>= λ _. pure tt

  unfoldable pub bit_modify : ℕ → ℕ → ℕ → Act S (Unit {0})
  unfolding transfer
  bit_modify addr mask v = transfer (0x05 ∷ addr ∷ mask % 256 ∷ v % 256 ∷ []) >>= λ _. pure tt

  unfoldable pub reset : Act S (Unit {0})
  unfolding transfer
  reset = transfer (0xC0 ∷ []) >>= λ _. pure tt

  -- The transmit buffer 0 is requested to send.
  unfoldable pub request_send : Act S (Unit {0})
  unfolding transfer
  request_send = transfer (0x81 ∷ []) >>= λ _. pure tt

  unfoldable pub get_mode : Act S ℕ
  get_mode = read_reg 0x0E >>= λ v. pure (mode_of v)

  unfoldable pub request_mode : ℕ → ℕ → Act S Bool
  request_mode turns mode =
      bit_modify 0x0F 0xE0 mode >> poll turns (get_mode >>= λ m. pure (m == mode))

  unfoldable pub set_mode : ℕ → ℕ → Act S Bool
  set_mode turns mode = get_mode >>= λ m.
      let awake = if mode == mode_config then pure true else request_mode turns mode in
      if m == mode_sleep then (reset >> awake) else request_mode turns mode

  unfoldable pub configure_bitrate : ℕ → Act S (Unit {0})
  configure_bitrate bitrate = of_result (bitrate_config bitrate) >>= λ cnf.
      write_reg 0x2A cnf.0 >> (write_reg 0x29 cnf.1 >> write_reg 0x28 cnf.2)

  unfoldable pub init : ℕ → Act S Bool
  init bitrate =
      reset
      >> (get_mode >>= λ m.
          if m == mode_config
          then (configure_bitrate bitrate >> (write_reg 0x60 0x60 >> pure true))
          else pure false)

  unfoldable pub read_error_counters : Act S (ℕ × ℕ)
  read_error_counters = read_reg 0x1C >>= λ tec. read_reg 0x1D >>= λ rec. pure (tec, rec)

  unfoldable pub load_bytes : ℕ → List ℕ → Act S (Unit {0})
  load_bytes i [] = pure tt
  load_bytes i (b ∷ bs) = write_reg (0x36 + i) b >> load_bytes (suc i) bs

  unfoldable pub same_bytes : ℕ → List ℕ → Act S Bool
  same_bytes i [] = pure true
  same_bytes i (b ∷ bs) = read_reg (0x66 + i) >>= λ v.
      let rest = same_bytes (suc i) bs in if v == b then rest else pure false

  unfoldable pub load_frame : ℕ → List ℕ → Act S (Unit {0})
  load_frame can_id payload =
      write_reg 0x31 (can_id / 8 % 256)
      >> (write_reg 0x32 (can_id % 8 * 32)
          >> (write_reg 0x35 (length payload % 16) >> load_bytes 0 payload))

  -- The identifier, the length and the bytes that were received.
  unfoldable pub verify_frame : ℕ → List ℕ → Act S Bool
  verify_frame can_id payload = read_reg 0x61 >>= λ high. read_reg 0x62 >>= λ low.
      let rest = read_reg 0x65 >>= λ dlc.
      let bytes = same_bytes 0 payload >>= λ same.
      if same then (bit_modify 0x2C 0x01 0x00 >> pure true) else pure false in
      if dlc % 16 == length payload % 16 then bytes else pure false in
      if high * 8 + low / 32 % 8 == can_id then rest else pure false

  unfoldable pub loopback_test : ℕ → ℕ → ℕ → List ℕ → Act S Bool
  loopback_test mode_turns rx_turns can_id payload =
      set_mode mode_turns mode_loopback >>= λ entered.
      let sent =
        load_frame can_id payload
        >> (bit_modify 0x2C 0x01 0x00
            >> (request_send
                >> (poll rx_turns (read_reg 0x2C >>= λ v. pure (flag_of v)) >>= λ received.
                    if received then verify_frame can_id payload else pure false))) in
      if entered then sent else pure false
