-- ===== src/Drivers/Adc.antt =====
-- The converter MCP3208 of tools/mcp3208.py: the command that it sends and the reading that it takes from
-- the answer. The voltage of a reading, a float in the source, is not modelled.
use ifs_hil.Prelude.{
  ℕ, ◌+◌, ◌*◌, ◌/◌, ◌%◌, ◌<◌, ◌≡◌, refl, ◌∙◌, ap, Bool, true, false, List, [], ◌∷◌, ltb,
  if◌then◌else◌, Bool-cases, inl, inr, arith,
}
use ifs_hil.Prelude.Result.{Result, ok, err, value_error, index, ◌>>=◌}
use ifs_hil.Drivers.{Chip, Line, xfer2, select_low, select_high}

-- The start bit, single-ended or differential, and the top bit of the channel; then its other two.
abbrev pub command : ℕ → Bool → List ℕ
command channel differential =
    (4 + 2 * (if differential then 0 else 1) + channel / 4 % 2) ∷ (channel % 4 * 64) ∷ 0x00 ∷ []

-- ((response[1] & 0x0F) << 8) | response[2], where response[2] is a byte.
abbrev pub reading_of : List ℕ → Result ℕ
reading_of resp = index resp 1 >>= λ high. index resp 2 >>= λ low. ok (high % 16 * 256 + low)

module _ {S : Type 0} (device : Chip S) (own_select : Bool) where
  abbrev pub exchange : List ℕ → Line S → List ℕ × Line S
  exchange cmd l =
      let direct = xfer2 device cmd l in
      let r = xfer2 device cmd (select_low l) in
      if own_select then (r.0, select_high r.1) else direct

  unfoldable pub read_raw : ℕ → Bool → Line S → Result ℕ × Line S
  read_raw channel differential l =
      let r = exchange (command channel differential) l in
      if ltb 7 channel then (err value_error, l) else (reading_of r.0, r.1)

  -- The first exception ends the reading.
  abbrev with_rest : Result ℕ → Line S → Result (List ℕ) × Line S → Result (List ℕ) × Line S
  with_rest (ok v) l rest = (rest.0 >>= λ vs. ok (v ∷ vs), rest.1)
  with_rest (err e) l rest = (err e, l)

  abbrev read_from : List ℕ → Line S → Result (List ℕ) × Line S
  read_from [] l = (ok [], l)
  read_from (c ∷ cs) l = let r = read_raw c false l in with_rest r.0 r.1 (read_from cs r.1)

  unfoldable pub read_all : Line S → Result (List ℕ) × Line S
  unfolding read_raw
  read_all l = read_from (0 ∷ 1 ∷ 2 ∷ 3 ∷ 4 ∷ 5 ∷ 6 ∷ 7 ∷ []) l

-- What the data sheet says: the bits SGL, D2, D1 and D0 of a command select what is converted, and the
-- twelve bits of the result end the answer, after bits that are not defined.
pub record IsAdc {S : Type 0} (device : Chip S) (converts : Bool → ℕ → S → ℕ) : Type 0 where
  pub width : (differential : Bool) (c : ℕ) (s : S) → converts differential c s < 4096
  pub answers :
      (differential : Bool) (d2 d10 : ℕ) (s : S)
      → d2 < 2
      → d10 < 4
      → (x : ℕ) × (y : ℕ) × ((device
            ((4 + 2 * (if differential then 0 else 1) + d2) ∷ (d10 * 64) ∷ 0 ∷ [])
            s).0
          ≡ (x
              ∷ (y * 16 + converts differential (4 * d2 + d10) s / 256)
              ∷ (converts differential (4 * d2 + d10) s % 256)
              ∷ []))

-- A reading of one of the eight channels is the twelve bits that the chip converts for that channel,
-- single-ended or differential as asked, whichever way the select is moved; the driver leaves a select
-- that it moves released. This on a chip that behaves as its data sheet says.
read_raw-converts :
    {S : Type 0} (device : Chip S) (converts : Bool → ℕ → S → ℕ) (own differential : Bool)
    (channel : ℕ) (l : Line S)
    → IsAdc device converts
    → channel < 8
    → ((read_raw device own channel differential l).0 ≡ ok (converts differential channel l.chip))
      × (own ≡ true → (read_raw device own channel differential l).1.cs_low ≡ false)
unfolding read_raw
read_raw-converts device converts own differential channel l laws lt =
    let r =
      laws.answers differential (channel / 4 % 2) (channel % 4) l.chip (omega arith)
        (omega arith) in
    let whole : 4 * (channel / 4 % 2) + channel % 4 ≡ channel = omega (arith, lt) in
    let in_range : ltb 7 channel ≡ false = ground (arith, lt) in
    let v : ℕ = converts differential (4 * (channel / 4 % 2) + channel % 4) l.chip in
    let twelve : (r.1 * 16 + v / 256) % 16 * 256 + v % 256 ≡ v =
      omega (arith, laws.width differential (4 * (channel / 4 % 2) + channel % 4) l.chip) in
    let read =
      ap reading_of r.2 ∙ ap ok (twelve ∙ ap (λ c. converts differential c l.chip) whole) in
    elim (Bool-cases own) [
      | inl e ↦ rw (e, in_range) (read, λ h. refl)
      | inr e ↦ rw (e, in_range) (read, λ h. cc)
    ]
