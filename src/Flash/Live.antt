-- ===== src/Flash/Live.antt =====
-- A peer that answers every command lets the session succeed, whatever other traffic the bus has.
use ifs_hil.Prelude.{
  ℕ, zero, suc, ◌+◌, ◌/◌, ◌≤◌, ◌<◌, ◌^◌, ◌≡◌, refl, sym, ap, subst, Bool, true, false, List, [],
  ◌∷◌, ◌++◌, Option, none, some, arith, length, length-drop, replicate, drop, ltb, if◌then◌else◌,
}
use ifs_hil.Prelude.Result.{Result, ok, err}
use ifs_hil.Flash.Bus.{Frame, Rx, frame, quiet, Bus, Exec, ◌>>=◌, pure, send, ◌&&then◌}
use ifs_hil.Flash.Bus
use ifs_hil.Flash.Command.{
  can_boot_tx_id, ack_status, metadata, data_frame, wait_ack, wait, exchange, is_zero, jumped,
  wait_info, bl_get_info, bl_erase, set_value, bl_set_metadata, write_loop, bl_write_data,
  bl_write_finish, bl_jump,
}
use ifs_hil.Flash.Session.{verify_installed, program}

-- From `l` the next answer to `cmd` is a good one, after frames that are no answer to it; `r` is
-- what follows.
pub data Replies (cmd : ℕ) : List Rx → List Rx → Type 0 where
  now :
      {r : List Rx} (more : List ℕ)
      → Replies cmd (frame (record { id = can_boot_tx_id; payload = cmd ∷ 0 ∷ more }) ∷ r) r
  noise :
      {l r : List Rx} (f : Frame)
      → ack_status cmd f f.payload ≡ none
      → Replies cmd l r
      → Replies cmd (frame f ∷ l) r

-- The commands are answered in turn.
pub data Obeys : List ℕ → List Rx → List Rx → Type 0 where
  done : {l : List Rx} → Obeys [] l l
  next :
      {cmd : ℕ} {cmds : List ℕ} {l m r : List Rx}
      → Replies cmd l m
      → Obeys cmds m r
      → Obeys (cmd ∷ cmds) l r

wait_ack-Replies : {cmd : ℕ} {l r : List Rx} → Replies cmd l r → wait_ack cmd l ≡ (some 0, r)
unfolding wait_ack
wait_ack-Replies {cmd} (now more) = ground arith
wait_ack-Replies {cmd} (noise f quiet_to replies) = ground (arith, wait_ack-Replies replies)

wait_info-Replies :
    {l r : List Rx}
    → Replies 0x40 l r
    → (is_zero (wait_info l).0.status ≡ true) × ((wait_info l).1 ≡ r)
unfolding wait_info
wait_info-Replies (now more) = (ground arith, refl)
wait_info-Replies (noise f quiet_to replies) = ground (arith, wait_info-Replies replies)

single : {cmd : ℕ} {l r : List Rx} → Obeys (cmd ∷ []) l r → Replies cmd l r
single (next replies done) = replies

split :
    (xs ys : List ℕ) {l r : List Rx}
    → Obeys (xs ++ ys) l r
    → (m : List Rx) × Obeys xs l m × Obeys ys m r
split [] ys {l} o = (l, done, o)
split (x ∷ xs) ys (next replies o) =
    let (m, left, right) = split xs ys o in (m, next replies left, right)

pub record Succeeds (m : Exec Bool) (cmds : List ℕ) : Type 0 where
  pub at : (b : Bus) (r : List Rx) → Obeys cmds b.rx r → ((m b).0 ≡ ok true) × ((m b).1.rx ≡ r)

Succeeds-then :
    (m k : Exec Bool) (xs ys : List ℕ)
    → Succeeds m xs
    → Succeeds k ys
    → Succeeds (m &&then k) (xs ++ ys)
Succeeds-then m k xs ys sm sk = record {
  at = λ b r o.
      let (mid, left, right) = split xs ys o in
      let (good, at_mid) = sm.at b mid left in
      go r (m b).0 (m b).1 good (subst (λ l. Obeys ys l r) (sym at_mid) right);
}
  where
    go :
        (r : List Rx) (out : Result Bool) (b' : Bus)
        → out ≡ ok true
        → Obeys ys b'.rx r
        → ((Bus.continue out (λ good. if good then k else pure false) b').0 ≡ ok true)
          × ((Bus.continue out (λ good. if good then k else pure false) b').1.rx ≡ r)
    go r (ok true) b' e o = sk.at b' r o
    go r (ok false) b' e o = cc
    go r (err x) b' e o = cc

-- An exchange whose verdict accepts the status 0.
exchange-Succeeds :
    (f : Frame) (cmd : ℕ) (verdict : Option ℕ → Bool)
    → verdict (some 0) ≡ true
    → Succeeds (exchange f cmd >>= λ status. pure (verdict status)) (cmd ∷ [])
unfolding exchange wait send
exchange-Succeeds f cmd verdict accepts = record {
  at = λ b r o. rw (wait_ack-Replies (single o)) (ap ok accepts, refl);
}

verify-Succeeds : Succeeds verify_installed (0x40 ∷ [])
unfolding verify_installed bl_get_info send
verify-Succeeds = record {
  at = λ b r o. let (good, rest) = wait_info-Replies (single o) in (ap ok good, rest);
}

set_value-Succeeds : (cmd value : ℕ) → value < 2 ^ 32 → Succeeds (set_value cmd value) (cmd ∷ [])
unfolding set_value
set_value-Succeeds cmd value h =
    let fits : ltb value (2 ^ 32) ≡ true = ground arith in
    rw fits (exchange-Succeeds (metadata cmd value) cmd is_zero refl)

ended : {l r : List Rx} → Obeys [] l r → l ≡ r
ended done = refl

-- One WRITE_DATA for each seven bytes.
abbrev pub writes : ℕ → List ℕ
writes n = replicate ((n + 6) / 7) 0x20

writes-suc : (fw : List ℕ) → writes (suc (length fw)) ≡ 0x20 ∷ writes (length (drop 6 fw))
writes-suc fw =
    let n : (suc (length fw) + 6) / 7 ≡ suc ((length (drop 6 fw) + 6) / 7) =
      omega (arith, length-drop 6 fw) in
    rw n

write_loop-Succeeds :
    (fuel : ℕ) (fw : List ℕ) → length fw ≤ fuel → Succeeds (write_loop fuel fw) (writes (length fw))
unfolding write_loop
write_loop-Succeeds zero [] h = record { at = λ b r o. (refl, ended o) }
write_loop-Succeeds (suc fuel) [] h = record { at = λ b r o. (refl, ended o) }
write_loop-Succeeds zero (x ∷ fw) h = absurd (omega arith)
write_loop-Succeeds (suc fuel) (x ∷ fw) h = rw (writes-suc fw) (
    Succeeds-then _ _ (0x20 ∷ []) _ (exchange-Succeeds (data_frame (x ∷ fw)) 0x20 is_zero refl)
      (write_loop-Succeeds fuel (drop 6 fw) (omega (arith, length-drop 6 fw))))

module _ (crc32 : List ℕ → ℕ) (fw : List ℕ) (version : ℕ) where
  abbrev pub session_commands : List ℕ
  session_commands = 0x10 ∷ 0x30 ∷ 0x31 ∷ 0x32 ∷ (writes (length fw) ++ 0x21 ∷ 0x40 ∷ 0x02 ∷ [])

  program-Succeeds_all :
      length fw < 2 ^ 32 → version < 2 ^ 32 → Succeeds (program crc32 fw version) session_commands
  unfolding program bl_set_metadata bl_write_data bl_erase bl_write_finish bl_jump
  program-Succeeds_all fits_size fits_version =
      Succeeds-then _ _ (0x10 ∷ []) _ (exchange-Succeeds _ _ is_zero refl) (
        Succeeds-then _ _ (0x30 ∷ 0x31 ∷ 0x32 ∷ []) _
          (Succeeds-then _ _ (0x30 ∷ []) _ (set_value-Succeeds _ _ fits_size) (
            Succeeds-then _ _ (0x31 ∷ []) _ (set_value-Succeeds _ _ (omega arith))
              (set_value-Succeeds _ _ fits_version)))
          (Succeeds-then _ _ (writes (length fw)) _
            (write_loop-Succeeds (length fw) fw (omega arith))
            (Succeeds-then _ _ (0x21 ∷ []) _ (exchange-Succeeds _ _ is_zero refl) (
              Succeeds-then _ _ (0x40 ∷ []) _ verify-Succeeds
                (exchange-Succeeds _ _ jumped refl)))))

  -- If the image and the version fit their fields and each command of the session is answered with
  -- status 0, whatever unrelated frames the bus carries between the answers, then from the erase on
  -- `flash` returns True and takes nothing from the bus beyond those answers.
  pub program-Succeeds :
      (b : Bus) (r : List Rx)
      → length fw < 2 ^ 32
      → version < 2 ^ 32
      → Obeys session_commands b.rx r
      → ((program crc32 fw version b).0 ≡ ok true) × ((program crc32 fw version b).1.rx ≡ r)
  program-Succeeds b r fits_size fits_version obeys =
      (program-Succeeds_all fits_size fits_version).at b r obeys
