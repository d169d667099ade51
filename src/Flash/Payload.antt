-- ===== src/Flash/Payload.antt =====
-- The data frames of a session carry the image.
use ifs_hil.Prelude.{
  ℕ, zero, suc, ◌+◌, ◌-◌, ◌/◌, ◌%◌, ◌≤◌, ◌≡◌, refl, ap, List, [], ◌∷◌, ◌++◌, arith, length, take,
  drop, replicate, length-append, length-replicate, length-take, length-drop, All,
}
use ifs_hil.Flash.Bus.{Frame}
use ifs_hil.Flash.Command.{chunk, can_boot_rx_id}
use ifs_hil.Flash.Order.{data_script}

-- What a peer that strips the command byte of each frame has received.
abbrev pub after_command : List ℕ → List ℕ
after_command [] = []
after_command (c ∷ bytes) = bytes

abbrev pub received : List Frame → List ℕ
received [] = []
received (f ∷ fs) = after_command f.payload ++ received fs

-- A frame of eight bytes to the bootloader, with the command WRITE_DATA first.
abbrev pub IsData : Frame → Type 0
IsData f = (f.id ≡ can_boot_rx_id) × (length f.payload ≡ 8) × (take 1 f.payload ≡ 0x20 ∷ [])

length-chunk : (fw : List ℕ) → length (chunk fw) ≡ 7
length-chunk fw =
    let pad : ℕ = 7 - length (take 7 fw) in
    omega (
      arith,
      length-append {0} (take 7 fw) (replicate pad 0xFF),
      length-replicate {0} {A = ℕ} pad 0xFF,
      length-take {0} 7 fw,
    )

-- The 0xFF bytes that fill the last frame of an image of n bytes.
abbrev pub padding : ℕ → List ℕ
padding n = replicate ((7 - n % 7) % 7) 0xFF

received_nil : (fuel : ℕ) → received (data_script fuel []) ≡ []
unfolding data_script
received_nil zero = refl
received_nil (suc fuel) = refl

-- A peer that keeps the bytes of the data frames has the image, and after it only the padding.
pub received-data_script :
    (fuel : ℕ) (fw : List ℕ)
    → length fw ≤ fuel
    → received (data_script fuel fw) ≡ fw ++ padding (length fw)
unfolding data_script
received-data_script zero [] h = refl
received-data_script (suc fuel) [] h = refl
received-data_script zero (x ∷ fw) h = absurd (omega arith)
received-data_script (suc fuel) (a ∷ []) h = ap (λ l. chunk (a ∷ []) ++ l) (received_nil fuel)
received-data_script (suc fuel) (a ∷ b ∷ []) h =
    ap (λ l. chunk (a ∷ b ∷ []) ++ l) (received_nil fuel)
received-data_script (suc fuel) (a ∷ b ∷ c ∷ []) h =
    ap (λ l. chunk (a ∷ b ∷ c ∷ []) ++ l) (received_nil fuel)
received-data_script (suc fuel) (a ∷ b ∷ c ∷ d ∷ []) h =
    ap (λ l. chunk (a ∷ b ∷ c ∷ d ∷ []) ++ l) (received_nil fuel)
received-data_script (suc fuel) (a ∷ b ∷ c ∷ d ∷ e ∷ []) h =
    ap (λ l. chunk (a ∷ b ∷ c ∷ d ∷ e ∷ []) ++ l) (received_nil fuel)
received-data_script (suc fuel) (a ∷ b ∷ c ∷ d ∷ e ∷ f ∷ []) h =
    ap (λ l. chunk (a ∷ b ∷ c ∷ d ∷ e ∷ f ∷ []) ++ l) (received_nil fuel)
received-data_script (suc fuel) (a ∷ b ∷ c ∷ d ∷ e ∷ f ∷ g ∷ fw) h =
    let same : (7 - suc (suc (suc (suc (suc (suc (suc (length fw))))))) % 7) % 7
        ≡ (7 - length fw % 7) % 7 =
      omega arith in
    rw same (ap (λ l. a ∷ b ∷ c ∷ d ∷ e ∷ f ∷ g ∷ l) (received-data_script fuel fw (omega arith)))

-- Every data frame is a full frame to the bootloader, and there are as few as seven bytes a frame
-- allow: a seventh of the length, rounded up.
All-data_script : (fuel : ℕ) (fw : List ℕ) → All IsData (data_script fuel fw)
unfolding data_script
All-data_script zero [] = tt
All-data_script (suc fuel) [] = tt
All-data_script zero (x ∷ fw) = tt
All-data_script (suc fuel) (x ∷ fw) =
    ((refl, ap suc (length-chunk (x ∷ fw)), refl), All-data_script fuel (drop 6 fw))

length-data_script :
    (fuel : ℕ) (fw : List ℕ) → length fw ≤ fuel → length (data_script fuel fw) ≡ (length fw + 6) / 7
unfolding data_script
length-data_script zero [] h = refl
length-data_script (suc fuel) [] h = refl
length-data_script zero (x ∷ fw) h = absurd (omega arith)
length-data_script (suc fuel) (x ∷ fw) h =
    let tail = length-data_script fuel (drop 6 fw) (omega (arith, length-drop 6 fw)) in
    omega (arith, tail, length-drop 6 fw)

-- The data frames of an image are well formed, are as few as seven bytes a frame allow, and carry
-- the image followed by the padding alone.
pub image_frames :
    (fw : List ℕ)
    → All IsData (data_script (length fw) fw)
      × (length (data_script (length fw) fw) ≡ (length fw + 6) / 7)
      × (received (data_script (length fw) fw) ≡ fw ++ padding (length fw))
image_frames fw = (
  All-data_script (length fw) fw,
  length-data_script (length fw) fw (omega arith),
  received-data_script (length fw) fw (omega arith),
)
