-- ===== src/Flash/Entry.antt =====
-- How a session begins: reaching the bootloader, and the shortcut for a version already installed.
use ifs_hil.Prelude.{
  ℕ, zero, suc, ◌+◌, ◌*◌, ◌≤◌, ◌<◌, ◌≡◌, refl, sym, ap, ◌∙◌, inl, inr, Bool, true, false, List, [],
  ◌∷◌, ◌++◌, some, arith, replicate, if◌then◌else◌, Bool-cases,
}
use mathlib.Core.List.{append_assoc, append-nil}
use ifs_hil.Prelude.Result.{ok}
use ifs_hil.Flash.Bus.{Frame, Rx, frame, Bus, Exec, pure, send}
use ifs_hil.Flash.Command.{
  command, can_boot_tx_id, wait_ack, wait, exchange, bl_ping, wait_info, bl_get_info,
}
use ifs_hil.Flash.Session.{
  enter_frame, poll, bl_remote_enter, reach_bootloader, already_installed, program, flash_image,
  flash,
}
use ifs_hil.Flash.Order.{session_script, program-Follows}

-- A ping leaves a verdict, and one more frame on the bus.
ping_lem :
    (b : Bus)
    → (good : Bool) × (b' : Bus) × (bl_ping b ≡ (ok good, b'))
      × (b'.sent ≡ b.sent ++ command 0x01 ∷ [])
unfolding bl_ping exchange wait send
ping_lem b = (_, _, refl, refl)

-- What is sent before the session: one ping, or a ping, the request to the application, and pings.
pub data Hello : List Frame → Type 0 where
  direct : Hello (command 0x01 ∷ [])
  asked : (pings : ℕ) → Hello (command 0x01 ∷ enter_frame ∷ replicate pings (command 0x01))

poll_lem :
    (turns : ℕ) (b : Bus)
    → (good : Bool) × (b' : Bus) × (pings : ℕ) × (poll turns b ≡ (ok good, b'))
      × (b'.sent ≡ b.sent ++ replicate pings (command 0x01))
      × (pings ≤ turns)
unfolding poll
poll_lem zero b = (false, b, 0, refl, sym (append-nil b.sent), omega arith)
poll_lem (suc turns) b =
    let (up, b1, e1, s1) = ping_lem b in
    elim (Bool-cases up) [
      | inl yes_up ↦ (true, b1, 1, rw e1 (rw yes_up), s1, omega arith)
      | inr no_up ↦
          let (good, b2, pings, e2, s2, le) = poll_lem turns b1 in
          (
            good,
            b2,
            suc pings,
            rw e1 (rw no_up e2),
            s2
                ∙ ap (λ l. l ++ replicate pings (command 0x01)) s1
                ∙ append_assoc b.sent (command 0x01 ∷ []) (replicate pings (command 0x01)),
            omega arith,
          )
    ]

reach_lem :
    (turns : ℕ) (b : Bus)
    → (good : Bool) × (b' : Bus) × (hello : List Frame) × (reach_bootloader turns b ≡ (ok good, b'))
      × Hello hello
      × (b'.sent ≡ b.sent ++ hello)
unfolding reach_bootloader bl_remote_enter send
reach_lem turns b =
    let (up, b1, e1, s1) = ping_lem b in
    elim (Bool-cases up) [
      | inl yes_up ↦ (true, b1, command 0x01 ∷ [], rw e1 (rw yes_up), direct, s1)
      | inr no_up ↦
          let b2 : Bus = record {
            sent = b1.sent ++ enter_frame ∷ [];
            rx = ifs_hil.Flash.Session.wait_app b1.rx;
          } in
          let (good, b3, pings, e3, s3, _) = poll_lem turns b2 in
          (
            good,
            b3,
            command 0x01 ∷ enter_frame ∷ replicate pings (command 0x01),
            rw e1 (rw no_up e3),
            asked pings,
            s3
                ∙ ap (λ l. (l ++ enter_frame ∷ []) ++ replicate pings (command 0x01)) s1
                ∙ append_assoc _ (enter_frame ∷ []) (replicate pings (command 0x01))
                ∙ append_assoc b.sent (command 0x01 ∷ [])
                    (enter_frame ∷ replicate pings (command 0x01)),
          )
    ]

module _ (crc32 : List ℕ → ℕ) where
  after_hello : List ℕ → ℕ → Bool → Exec Bool
  after_hello fw version up = if up then program crc32 fw version else pure false

  go :
      (fw : List ℕ) (version : ℕ) (up : Bool) (b : Bus)
      → (after_hello fw version up b).0 ≡ ok true
      → (after_hello fw version up b).1.sent ≡ b.sent ++ session_script crc32 fw version
  unfolding after_hello
  go fw version false b h = cc
  go fw version true b h = elim (program-Follows crc32 fw version b) [
    | inl (good, all) ↦ all
    | inr (bad, start, rest, whole, part) ↦ absurd (bad h)
  ]

  -- A forced flash that returns True has sent, after saying hello to the bootloader, every frame of
  -- the session in its order, and nothing else.
  pub flash_forced :
      (x : ℕ) (fw : List ℕ) (version turns : ℕ) (b : Bus)
      → (flash crc32 (some (x ∷ fw)) version true turns b).0 ≡ ok true
      → (hello : List Frame) × Hello hello
        × ((flash crc32 (some (x ∷ fw)) version true turns b).1.sent
            ≡ b.sent ++ hello ++ session_script crc32 (x ∷ fw) version)
  unfolding flash flash_image already_installed after_hello
  flash_forced x fw version turns b h =
      let (good, b', hello, e, is_hello, s) = reach_lem turns b in
      let after = go (x ∷ fw) version good b' (rw e at h) in
      (hello, is_hello, rw e (after ∙ ap (λ l. l ++ session_script crc32 (x ∷ fw) version) s))

  -- An unforced flash of a version that the board reports as installed and valid returns True and
  -- sends no erase and no data: one ping and one query are all.
  pub flash_skips :
      (x : ℕ) (fw : List ℕ) (lo hi s0 s1 s2 s3 ping_status turns : ℕ) (sent : List Frame)
      (rx : List Rx)
      → 0 < lo + 256 * hi
      → flash crc32 (some (x ∷ fw)) (lo + 256 * hi) false turns (record {
        sent = sent;
        rx =
            frame (record { id = can_boot_tx_id; payload = 0x01 ∷ ping_status ∷ [] })
            ∷ frame (record {
              id = can_boot_tx_id;
              payload = 0x40 ∷ 0 ∷ s0 ∷ s1 ∷ s2 ∷ s3 ∷ lo ∷ hi ∷ [];
            })
            ∷ rx;
      })
        ≡ (ok true, record { sent = (sent ++ command 0x01 ∷ []) ++ command 0x40 ∷ []; rx = rx })
  unfolding flash flash_image already_installed reach_bootloader bl_ping exchange wait send wait_ack
      bl_get_info wait_info
  flash_skips x fw lo hi s0 s1 s2 s3 p turns sent rx h = ground arith
