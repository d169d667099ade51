-- ===== src/Flash/Order.antt =====
-- What a session sends, on every outcome: the frames of a script in order, and no frame after the
-- first failure.
use ifs_hil.Prelude.{
  ℕ, zero, suc, ◌≤◌, ◌≡◌, ◌≢◌, refl, sym, ap, ◌∙◌, ◌⊎◌, inl, inr, Bool, true, false, List, [], ◌∷◌,
  ◌++◌, Option, arith, length, drop, ◌%◌, ◌^◌, if◌then◌else◌, Bool-cases, ltb, length-drop,
}
use mathlib.Core.List.{append_assoc, append-nil}
use ifs_hil.Prelude.Result.{Result, ok, err}
use ifs_hil.Flash.Bus.{Frame, Rx, Bus, Exec, ◌>>=◌, pure, send, ◌&&then◌}
use ifs_hil.Flash.Command.{
  command, metadata, data_frame, exchange, wait, bl_get_info, bl_erase, set_value, bl_set_metadata,
  write_loop, bl_write_data, bl_write_finish, bl_jump,
}
use ifs_hil.Flash.Session.{verify_installed, program}

-- The run has succeeded and sent all of `script`, or has not and sent a beginning of it.
abbrev pub Outcome : Bus → List Frame → Result Bool × Bus → Type 0
Outcome b script out =
    ((out.0 ≡ ok true) × (out.1.sent ≡ b.sent ++ script))
    ⊎ ((out.0 ≢ ok true)
        × (start : List Frame) × (rest : List Frame) × (script ≡ start ++ rest)
        × (out.1.sent ≡ b.sent ++ start))

pub record Follows (m : Exec Bool) (script : List Frame) : Type 0 where
  pub at : (b : Bus) → Outcome b script (m b)

-- A run that sends its one frame whatever the result.
abbrev Sends : Exec Bool → Frame → Type 0
Sends m f = (b : Bus) → (m b).1.sent ≡ b.sent ++ f ∷ []

Result-cases : (r : Result Bool) → (r ≡ ok true) ⊎ (r ≢ ok true)
Result-cases (ok true) = inl refl
Result-cases (ok false) = inr (λ e. cc)
Result-cases (err x) = inr (λ e. cc)

Follows-Sends : (m : Exec Bool) (f : Frame) → Sends m f → Follows m (f ∷ [])
Follows-Sends m f s = record {
  at = λ b. elim (Result-cases (m b).0) [
    | inl e ↦ inl (e, s b)
    | inr n ↦ inr (n, f ∷ [], [], refl, s b)
  ];
}

module _ (k : Exec Bool) (s t : List Frame) (b : Bus) (follows : Follows k t) where
  Outcome-next :
      (b' : Bus) → b'.sent ≡ b.sent ++ s → Outcome b' t (k b') → Outcome b (s ++ t) (k b')
  Outcome-next b' e (inl (good, all)) =
      inl (good, all ∙ ap (λ l. l ++ t) e ∙ append_assoc b.sent s t)
  Outcome-next b' e (inr (bad, start, rest, split, part)) = inr (
    bad,
    s ++ start,
    rest,
    ap (λ l. s ++ l) split ∙ sym (append_assoc s start rest),
    part ∙ ap (λ l. l ++ start) e ∙ append_assoc b.sent s start,
  )

  Outcome-then :
      (r : Result Bool) (b' : Bus)
      → Outcome b s (r, b')
      → Outcome b
          (s ++ t)
          (ifs_hil.Flash.Bus.continue r (λ good. if good then k else pure false) b')
  Outcome-then (ok true) b' (inl (good, all)) = Outcome-next b' all (follows.at b')
  Outcome-then (ok true) b' (inr (bad, start, rest, split, part)) = absurd (bad refl)
  Outcome-then (ok false) b' (inl (good, all)) = absurd (cc)
  Outcome-then (ok false) b' (inr (bad, start, rest, split, part)) =
      inr ((λ e. cc), start, rest ++ t, ap (λ l. l ++ t) split ∙ append_assoc start rest t, part)
  Outcome-then (err x) b' (inl (good, all)) = absurd (cc)
  Outcome-then (err x) b' (inr (bad, start, rest, split, part)) =
      inr ((λ e. cc), start, rest ++ t, ap (λ l. l ++ t) split ∙ append_assoc start rest t, part)

Follows-then :
    (m k : Exec Bool) (s t : List Frame) → Follows m s → Follows k t → Follows (m &&then k) (s ++ t)
Follows-then m k s t fm fk = record {
  at = λ b. let (r, b') = m b in Outcome-then k s t b fk r b' (fm.at b);
}

exchange-sent : (f : Frame) (cmd : ℕ) (b : Bus) → (exchange f cmd b).1.sent ≡ b.sent ++ f ∷ []
unfolding exchange wait send
exchange-sent f cmd b = refl

-- What a caller makes of the status leaves the bus alone.
exchange-Sends :
    (f : Frame) (cmd : ℕ) (verdict : Option ℕ → Bool)
    → Sends (exchange f cmd >>= λ status. pure (verdict status)) f
exchange-Sends f cmd verdict b =
    go (exchange f cmd b).0 (exchange f cmd b).1 (exchange-sent f cmd b)
  where
    go :
        (r : Result (Option ℕ)) (b' : Bus)
        → b'.sent ≡ b.sent ++ f ∷ []
        → (ifs_hil.Flash.Bus.continue r (λ status. pure (verdict status)) b').1.sent
          ≡ b.sent ++ f ∷ []
    go (ok status) b' e = e
    go (err x) b' e = e

Follows-erase : Follows bl_erase (command 0x10 ∷ [])
unfolding bl_erase
Follows-erase = Follows-Sends _ _ (exchange-Sends _ _ _)

Follows-finish : Follows bl_write_finish (command 0x21 ∷ [])
unfolding bl_write_finish
Follows-finish = Follows-Sends _ _ (exchange-Sends _ _ _)

Follows-jump : Follows bl_jump (command 0x02 ∷ [])
unfolding bl_jump
Follows-jump = Follows-Sends _ _ (exchange-Sends _ _ _)

Follows-verify : Follows verify_installed (command 0x40 ∷ [])
unfolding verify_installed bl_get_info send
Follows-verify = Follows-Sends _ _ (λ b. refl)

-- A value that four bytes do not hold raises before its frame is sent.
Follows-set_value : (cmd value : ℕ) → Follows (set_value cmd value) (metadata cmd value ∷ [])
unfolding set_value
Follows-set_value cmd value = elim (Bool-cases (ltb value (2 ^ 32))) [
  | inl e ↦ rw e (Follows-Sends _ _ (exchange-Sends _ _ _))
  | inr e ↦ rw e (record {
    at = λ b. inr ((λ x. cc), [], metadata cmd value ∷ [], refl, sym (append-nil b.sent));
  })
]

-- The frames that carry the image.
unfoldable pub data_script : ℕ → List ℕ → List Frame
data_script fuel [] = []
data_script zero (x ∷ fw) = []
data_script (suc fuel) (x ∷ fw) = data_frame (x ∷ fw) ∷ data_script fuel (drop 7 (x ∷ fw))

Follows-write_loop :
    (fuel : ℕ) (fw : List ℕ) → length fw ≤ fuel → Follows (write_loop fuel fw) (data_script fuel fw)
unfolding write_loop data_script
Follows-write_loop zero [] h = record { at = λ b. inl (refl, sym (append-nil b.sent)) }
Follows-write_loop (suc fuel) [] h = record { at = λ b. inl (refl, sym (append-nil b.sent)) }
Follows-write_loop zero (x ∷ fw) h = absurd (omega arith)
Follows-write_loop (suc fuel) (x ∷ fw) h =
    Follows-then _ _ _ _ (Follows-Sends _ _ (exchange-Sends _ _ _))
      (Follows-write_loop fuel (drop 6 fw) (omega (arith, length-drop 6 fw)))

module _ (crc32 : List ℕ → ℕ) (fw : List ℕ) (version : ℕ) where
  -- The whole session after the bootloader is reached: erase, size, checksum, version, image,
  -- finish, query, jump.
  abbrev pub session_script : List Frame
  session_script =
      command 0x10
      ∷ metadata 0x30 (length fw)
      ∷ metadata 0x31 (crc32 fw % 2 ^ 32)
      ∷ metadata 0x32 version
      ∷ (data_script (length fw) fw ++ command 0x21 ∷ command 0x40 ∷ command 0x02 ∷ [])

  program-Follows_all : Follows (program crc32 fw version) session_script
  unfolding program bl_set_metadata bl_write_data
  program-Follows_all = Follows-then _ _ (command 0x10 ∷ []) _ Follows-erase (
      Follows-then _ _
        (metadata 0x30 (length fw) ∷ metadata 0x31 (crc32 fw % 2 ^ 32) ∷ metadata 0x32 version ∷ [])
        _
        (Follows-then _ _ (metadata 0x30 (length fw) ∷ []) _ (Follows-set_value 0x30 (length fw)) (
          Follows-then _ _ (metadata 0x31 (crc32 fw % 2 ^ 32) ∷ []) _
            (Follows-set_value 0x31 (crc32 fw % 2 ^ 32)) (Follows-set_value 0x32 version)))
        (Follows-then _ _ (data_script (length fw) fw) _
          (Follows-write_loop (length fw) fw (omega arith))
          (Follows-then _ _ (command 0x21 ∷ []) _ Follows-finish
            (Follows-then _ _ (command 0x40 ∷ []) _ Follows-verify Follows-jump))))

  -- On every outcome, with every peer, the session sends its frames in the order of the script and
  -- stops at the first step that fails; it returns True only after sending all of them.
  pub program-Follows : (b : Bus) → Outcome b session_script (program crc32 fw version b)
  program-Follows b = program-Follows_all.at b
