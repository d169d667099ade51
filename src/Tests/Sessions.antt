-- ===== src/Tests/Sessions.antt =====
-- Sessions of tools/flash.py at concrete images and answers.
use ifs_hil.Prelude.{ℕ, ◌+◌, ◌/◌, ◌≡◌, refl, true, List, [], ◌∷◌, ◌++◌, some, length, All, arith}
use ifs_hil.Prelude.Result.{ok}
use ifs_hil.Flash.Bus.{Frame, Rx, frame, Bus, send}
use ifs_hil.Flash.Command.{
  can_boot_tx_id, bl_ping, exchange, wait, wait_ack, bl_erase, bl_set_metadata, set_value,
  bl_write_data, write_loop, bl_write_finish, bl_get_info, wait_info, bl_jump,
}
use ifs_hil.Flash.Session.{
  program, flash, flash_image, reach_bootloader, already_installed, verify_installed,
}
use ifs_hil.Flash.Order.{Outcome, session_script, data_script, program-Follows}
use ifs_hil.Flash.Payload.{IsData, received, padding, image_frames}
use ifs_hil.Flash.Live.{now, noise, done, next, program-Succeeds}
use ifs_hil.Flash.Entry.{Hello, flash_forced}

abbrev no_crc : List ℕ → ℕ
no_crc bytes = 7

abbrev image : List ℕ
image = 1 ∷ 2 ∷ 3 ∷ []

abbrev answer : ℕ → Rx
answer cmd = frame (record { id = can_boot_tx_id; payload = cmd ∷ 0 ∷ [] })

abbrev stray : Rx
stray = frame (record { id = 0x100; payload = 0x10 ∷ 0 ∷ [] })

abbrev ping_answer : Rx
ping_answer = frame (record { id = can_boot_tx_id; payload = 0x01 ∷ 0 ∷ [] })

abbrev peer : List Rx
peer =
    stray
    ∷ answer 0x10
    ∷ answer 0x30
    ∷ answer 0x31
    ∷ answer 0x32
    ∷ answer 0x20
    ∷ answer 0x21
    ∷ answer 0x40
    ∷ answer 0x02
    ∷ []

abbrev bus : Bus
bus = record { sent = []; rx = peer }

abbrev board : Bus
board = record { sent = []; rx = ping_answer ∷ peer }

program-Succeeds_example :
    ((program no_crc image 5 bus).0 ≡ ok true) × ((program no_crc image 5 bus).1.rx ≡ [])
program-Succeeds_example = program-Succeeds no_crc image 5 bus [] (omega arith) (omega arith) (
    next (noise (record { id = 0x100; payload = 0x10 ∷ 0 ∷ [] }) refl (now [])) (
      next (now []) (
        next (now [])
          (next (now []) (next (now []) (next (now []) (next (now []) (next (now []) done))))))))

program-Follows_example : Outcome bus (session_script no_crc image 5) (program no_crc image 5 bus)
program-Follows_example = program-Follows no_crc image 5 bus

image_frames_example :
    All IsData (data_script (length image) image)
    × (length (data_script (length image) image) ≡ (length image + 6) / 7)
    × (received (data_script (length image) image) ≡ image ++ padding (length image))
image_frames_example = image_frames image

flash_forced_example :
    (hello : List Frame) × Hello hello
    × ((flash no_crc (some image) 5 true 10 board).1.sent
        ≡ [] ++ hello ++ session_script no_crc image 5)
unfolding flash flash_image reach_bootloader already_installed bl_ping exchange wait wait_ack send
    program bl_erase bl_set_metadata set_value bl_write_data write_loop bl_write_finish
    verify_installed bl_get_info wait_info bl_jump
flash_forced_example = flash_forced no_crc 1 (2 ∷ 3 ∷ []) 5 10 board refl
