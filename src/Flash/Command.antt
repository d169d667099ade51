-- ===== src/Flash/Command.antt =====
-- tools/flash.py: the frames of the protocol, waiting for an answer, and one function for each
-- bootloader command.
use ifs_hil.Prelude.{
  ℕ, zero, suc, ◌%◌, ◌^◌, ◌-◌, Bool, true, false, ◌&&◌, List, [], ◌∷◌, ◌++◌, Option, none, some,
  ◌==◌, ltb, leb, if◌then◌else◌, length, take, drop, replicate, slice,
}
use ifs_hil.Prelude.Bytes.{to_le, from_le}
use ifs_hil.Prelude.Result.{ok, err, overflow_error}
use ifs_hil.Flash.Bus.{Frame, Rx, frame, quiet, Exec, ◌>>=◌, ◌>>◌, pure, lift, send, ◌&&then◌}

abbrev pub can_boot_rx_id : ℕ
can_boot_rx_id = 0x21

abbrev pub can_boot_tx_id : ℕ
can_boot_tx_id = 0x22

abbrev pub app_ctrl_rx_id : ℕ
app_ctrl_rx_id = 0x31

abbrev pub app_ctrl_tx_id : ℕ
app_ctrl_tx_id = 0x32

-- `_send_boot`: a frame to the bootloader.
abbrev pub boot : List ℕ → Frame
boot bytes = record { id = can_boot_rx_id; payload = bytes }

-- `[cmd] + [0] * 7`
abbrev pub command : ℕ → Frame
command cmd = boot (cmd ∷ replicate 7 0)

-- The status byte of an acknowledgement of `cmd`, if the frame is one.
abbrev pub ack_status : ℕ → Frame → List ℕ → Option ℕ
ack_status cmd f [] = none
ack_status cmd f (c ∷ []) = none
ack_status cmd f (c ∷ s ∷ rest) =
    if f.id == can_boot_tx_id then (if c == cmd then some s else none) else none

-- The loop of `_wait_ack`, on the answers that are still to come.
unfoldable pub wait_ack : ℕ → List Rx → Option ℕ × List Rx
wait_ack cmd [] = (none, [])
wait_ack cmd (quiet ∷ rest) = (none, rest)
wait_ack cmd (frame f ∷ rest) = elim (ack_status cmd f f.payload) [
  | none ↦ wait_ack cmd rest
  | some s ↦ (some s, rest)
]

unfoldable pub wait : ℕ → Exec (Option ℕ)
wait cmd b = let (status, rest) = wait_ack cmd b.rx in (ok status, record b { rx = rest })

-- `_simple_cmd`, and every command that sends a frame and waits for its acknowledgement.
unfoldable pub exchange : Frame → ℕ → Exec (Option ℕ)
exchange f cmd = do send f; wait cmd

abbrev pub is_zero : Option ℕ → Bool
is_zero none = false
is_zero (some s) = s == 0

abbrev pub is_some : Option ℕ → Bool
is_some none = false
is_some (some s) = true

unfoldable pub bl_ping : Exec Bool
bl_ping = do status ← exchange (command 0x01) 0x01; pure (is_some status)

pub record Info : Type 0 where
  pub status : Option ℕ
  pub size : ℕ
  pub version : ℕ

-- What `bl_get_info` reads from an answer whose status byte is `s`.
abbrev pub read_info : ℕ → List ℕ → Info
read_info s bytes =
    if s == 0 && leb 6 (length bytes)
    then record {
      status = some s;
      size = from_le (slice 2 6 bytes);
      version = if leb 8 (length bytes) then from_le (slice 6 8 bytes) else 0;
    }
    else record { status = some s; size = 0; version = 0 }

abbrev no_info : Info
no_info = record { status = none; size = 0; version = 0 }

unfoldable pub wait_info : List Rx → Info × List Rx
wait_info [] = (no_info, [])
wait_info (quiet ∷ rest) = (no_info, rest)
wait_info (frame f ∷ rest) = elim (ack_status 0x40 f f.payload) [
  | none ↦ wait_info rest
  | some s ↦ (read_info s f.payload, rest)
]

unfoldable pub bl_get_info : Exec Info
bl_get_info = do
  send (command 0x40)
  λ b. let (info, rest) = wait_info b.rx in (ok info, record b { rx = rest })

unfoldable pub bl_erase : Exec Bool
bl_erase = do status ← exchange (command 0x10) 0x10; pure (is_zero status)

-- `[cmd] + list(value.to_bytes(4, "little")) + [0, 0, 0]`
abbrev pub metadata : ℕ → ℕ → Frame
metadata cmd value = boot (cmd ∷ to_le 4 value ++ 0 ∷ 0 ∷ 0 ∷ [])

-- One turn of the loop of `bl_set_metadata`; `to_bytes` raises on a value past 32 bits.
unfoldable pub set_value : ℕ → ℕ → Exec Bool
set_value cmd value = do
  lift (if ltb value (2 ^ 32) then ok tt else err overflow_error)
  status ← exchange (metadata cmd value) cmd
  pure (is_zero status)

-- `zlib.crc32` is the standard library's: a parameter.
module _ (crc32 : List ℕ → ℕ) where
  unfoldable pub bl_set_metadata : List ℕ → ℕ → Exec Bool
  bl_set_metadata fw version =
      set_value 0x30 (length fw)
      &&then set_value 0x31 (crc32 fw % 2 ^ 32)
      &&then set_value 0x32 version

-- Seven bytes of the image, the last frame padded with 0xFF.
abbrev pub chunk : List ℕ → List ℕ
chunk fw = let c = take 7 fw in c ++ replicate (7 - length c) 0xFF

abbrev pub data_frame : List ℕ → Frame
data_frame fw = boot (0x20 ∷ chunk fw)

-- The loop of `bl_write_data` over the bytes not yet sent, on fuel.
unfoldable pub write_loop : ℕ → List ℕ → Exec Bool
write_loop fuel [] = pure true
write_loop zero (x ∷ fw) = pure false
write_loop (suc fuel) (x ∷ fw) =
    let rest = write_loop fuel (drop 7 (x ∷ fw)) in
    (do status ← exchange (data_frame (x ∷ fw)) 0x20; pure (is_zero status)) &&then rest

-- Each turn takes at least one byte, so as much fuel as bytes is enough.
unfoldable pub bl_write_data : List ℕ → Exec Bool
unfolding write_loop
bl_write_data fw = write_loop (length fw) fw

unfoldable pub bl_write_finish : Exec Bool
bl_write_finish = do status ← exchange (command 0x21) 0x21; pure (is_zero status)

-- No answer to a jump counts as success: the board may have reset already.
abbrev pub jumped : Option ℕ → Bool
jumped none = true
jumped (some s) = s == 0

unfoldable pub bl_jump : Exec Bool
bl_jump = do status ← exchange (command 0x02) 0x02; pure (jumped status)
