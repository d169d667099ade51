-- ===== src/Flash/Session.antt =====
-- tools/flash.py: entering the bootloader, and `flash` itself.
use ifs_hil.Prelude.{
  ℕ, zero, suc, Bool, true, false, not, ◌&&◌, List, [], ◌∷◌, Option, none, some, ◌==◌,
  if◌then◌else◌, replicate,
}
use ifs_hil.Prelude.Result.{ok}
use ifs_hil.Flash.Bus.{Frame, Rx, frame, quiet, Exec, ◌>>=◌, ◌>>◌, pure, send, ◌&&then◌}
use ifs_hil.Flash.Command.{
  app_ctrl_rx_id, app_ctrl_tx_id, bl_ping, Info, bl_get_info, bl_erase, bl_set_metadata,
  bl_write_data, bl_write_finish, bl_jump, is_zero,
}

-- An acknowledgement of the application, which ends the wait early.
abbrev app_ack : Frame → List ℕ → Bool
app_ack f [] = false
app_ack f (c ∷ []) = false
app_ack f (c ∷ s ∷ rest) = f.id == app_ctrl_tx_id && c == 0x01

unfoldable pub wait_app : List Rx → List Rx
wait_app [] = []
wait_app (quiet ∷ rest) = rest
wait_app (frame f ∷ rest) = elim (app_ack f f.payload) [ true ↦ rest | false ↦ wait_app rest ]

abbrev pub enter_frame : Frame
enter_frame = record { id = app_ctrl_rx_id; payload = 0x01 ∷ replicate 7 0 }

-- The polling loop, for as many turns as the clock allows.
unfoldable pub poll : ℕ → Exec Bool
poll zero = pure false
poll (suc turns) = let rest = poll turns in bl_ping >>= λ up. if up then pure true else rest

unfoldable pub bl_remote_enter : ℕ → Exec Bool
unfolding wait_app poll
bl_remote_enter turns = do
  send enter_frame
  λ b. (ok tt, record b { rx = wait_app b.rx })
  poll turns

-- Step 1 of `flash`.
unfoldable pub reach_bootloader : ℕ → Exec Bool
reach_bootloader turns = bl_ping >>= λ up. if up then pure true else bl_remote_enter turns

abbrev pub installed : ℕ → Info → Bool
installed version info = is_zero info.status && not (info.version == 0) && info.version == version

-- Step 2: whether the version on the board makes the rest unnecessary.
unfoldable pub already_installed : Bool → ℕ → Exec Bool
already_installed true version = pure false
already_installed false version = do info ← bl_get_info; pure (installed version info)

-- Step 7.
unfoldable pub verify_installed : Exec Bool
verify_installed = do info ← bl_get_info; pure (is_zero info.status)

module _ (crc32 : List ℕ → ℕ) where
  -- Steps 3 to 8, each of which ends the session if it fails.
  unfoldable pub program : List ℕ → ℕ → Exec Bool
  program fw version =
      bl_erase
      &&then bl_set_metadata crc32 fw version
      &&then bl_write_data fw
      &&then bl_write_finish
      &&then verify_installed
      &&then bl_jump

  unfoldable pub flash_image : List ℕ → ℕ → Bool → ℕ → Exec Bool
  flash_image fw version force turns =
      reach_bootloader turns
      &&then (already_installed force version >>= λ skip.
          if skip then pure true else program fw version)

  -- `none` is a path that is no file. No bus is opened for it, nor for an empty image.
  unfoldable pub flash : Option (List ℕ) → ℕ → Bool → ℕ → Exec Bool
  flash none version force turns = pure false
  flash (some []) version force turns = pure false
  flash (some (x ∷ fw)) version force turns = flash_image (x ∷ fw) version force turns
