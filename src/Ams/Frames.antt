-- ===== src/Ams/Frames.antt =====
-- Every cell and every sensor of a module is in its own place of the five answers.
use ifs_hil.Prelude.{
  ℕ, zero, suc, ◌+◌, ◌*◌, ◌/◌, ◌%◌, ◌-◌, ◌≤◌, ◌<◌, ◌≡◌, refl, ap, ◌∙◌, List, [], ◌∷◌, Option, none,
  some, arith, length, take, drop, slice, get_elem?, replicate, set, length-take, length-set,
  get_elem?-set_self, get_elem?-set_lt,
}
use ifs_hil.Prelude.Int.{ℤ, pos, negsuc, wrap, InRange}
use ifs_hil.Ams.Telemetry.{i8}
use ifs_hil.Ams.Emulator.{cell_payload, temp_payload, fill_cells, fill_temps, temp_byte}

-- The k-th big-endian pair of bytes.
abbrev pub pair_at : List ℕ → ℕ → Option ℕ
pair_at [] k = none
pair_at (h ∷ []) k = none
pair_at (h ∷ l ∷ rest) zero = some (h * 256 + l)
pair_at (h ∷ l ∷ rest) (suc k) = pair_at rest k

get_elem?-take {ℓ} :
    {A : Type ℓ} (n k : ℕ) (xs : List A) → k < n → get_elem? (take n xs) k ≡ get_elem? xs k
get_elem?-take zero k xs h = absurd (omega arith)
get_elem?-take (suc n) k [] h = refl
get_elem?-take (suc n) zero (x ∷ xs) h = refl
get_elem?-take (suc n) (suc k) (x ∷ xs) h = get_elem?-take n k xs (omega arith)

get_elem?-drop {ℓ} :
    {A : Type ℓ} (n k : ℕ) (xs : List A) → get_elem? (drop n xs) k ≡ get_elem? xs (n + k)
get_elem?-drop zero k xs = let e : 0 + k ≡ k = omega arith in rw e
get_elem?-drop (suc n) k [] = refl
get_elem?-drop (suc n) k (x ∷ xs) =
    let e : suc n + k ≡ suc (n + k) = omega arith in rw e (get_elem?-drop n k xs)

-- The element at c stands at c % w of the slice number c / w.
get_elem?-slice {ℓ} :
    {A : Type ℓ} (w c : ℕ) (xs : List A)
    → 0 < w
    → get_elem? (slice (c / w * w) ((c / w + 1) * w) xs) (c % w) ≡ get_elem? xs c
get_elem?-slice w c xs h =
    let width : (c / w + 1) * w - c / w * w ≡ w = grind arith in
    let place : c / w * w + c % w ≡ c = grind arith in
    let below : c % w < w = grind arith in
    rw width (
      get_elem?-take w (c % w) (drop (c / w * w) xs) below
      ∙ get_elem?-drop (c / w * w) (c % w) xs
      ∙ ap (get_elem? xs) place)

pair_eq : (v : ℕ) → v / 256 * 256 + v % 256 ≡ v
pair_eq v = omega arith

length-slice {ℓ} : {A : Type ℓ} (i j : ℕ) (xs : List A) → length (slice i j xs) ≤ j - i
length-slice i j xs = omega (arith, length-take {ℓ} (j - i) (drop i xs))

pair_at-fill :
    (cs : List ℤ) (k : ℕ) {v : ℤ}
    → length cs ≤ 4
    → get_elem? cs k ≡ some v
    → pair_at (fill_cells 0 cs (replicate 8 0)) k ≡ some (wrap 65536 v)
pair_at-fill [] k h e = cc
pair_at-fill (a ∷ []) zero h e = cc (pair_eq (wrap 65536 a))
pair_at-fill (a ∷ []) (suc k) h e = cc
pair_at-fill (a ∷ b ∷ []) zero h e = cc (pair_eq (wrap 65536 a))
pair_at-fill (a ∷ b ∷ []) (suc zero) h e = cc (pair_eq (wrap 65536 b))
pair_at-fill (a ∷ b ∷ []) (suc (suc k)) h e = cc
pair_at-fill (a ∷ b ∷ c ∷ []) zero h e = cc (pair_eq (wrap 65536 a))
pair_at-fill (a ∷ b ∷ c ∷ []) (suc zero) h e = cc (pair_eq (wrap 65536 b))
pair_at-fill (a ∷ b ∷ c ∷ []) (suc (suc zero)) h e = cc (pair_eq (wrap 65536 c))
pair_at-fill (a ∷ b ∷ c ∷ []) (suc (suc (suc k))) h e = cc
pair_at-fill (a ∷ b ∷ c ∷ d ∷ []) zero h e = cc (pair_eq (wrap 65536 a))
pair_at-fill (a ∷ b ∷ c ∷ d ∷ []) (suc zero) h e = cc (pair_eq (wrap 65536 b))
pair_at-fill (a ∷ b ∷ c ∷ d ∷ []) (suc (suc zero)) h e = cc (pair_eq (wrap 65536 c))
pair_at-fill (a ∷ b ∷ c ∷ d ∷ []) (suc (suc (suc zero))) h e = cc (pair_eq (wrap 65536 d))
pair_at-fill (a ∷ b ∷ c ∷ d ∷ []) (suc (suc (suc (suc k)))) h e = cc
pair_at-fill (a ∷ b ∷ c ∷ d ∷ x ∷ cs) k h e = absurd (omega arith)

-- Cell c of a module is the pair number c % 4 of the answer number c / 4, for every cell voltage
-- that the module holds; the frame has the voltage modulo 65536.
pair_at-cell_payload :
    (cells : List ℤ) (c : ℕ) {v : ℤ}
    → get_elem? cells c ≡ some v
    → pair_at (cell_payload cells (c / 4)) (c % 4) ≡ some (wrap 65536 v)
unfolding cell_payload
pair_at-cell_payload cells c e =
    pair_at-fill _ (c % 4) (omega (arith, length-slice {0} (c / 4 * 4) ((c / 4 + 1) * 4) cells))
      (get_elem?-slice 4 c cells (omega arith) ∙ e)

i8-temp_byte : (t : ℤ) → InRange 256 t → i8 (temp_byte t) ≡ t
i8-temp_byte (pos n) h = ground arith
i8-temp_byte (negsuc n) h = ground arith

-- The bytes before the first one written stay.
fill_temps-before :
    (ts : List ℤ) (j i : ℕ) (buf : List ℕ)
    → i < j
    → get_elem? (fill_temps j ts buf) i ≡ get_elem? buf i
fill_temps-before [] j i buf h = refl
fill_temps-before (t ∷ ts) j i buf h =
    fill_temps-before ts (j + 1) i (set buf j (temp_byte t)) (omega arith)
    ∙ get_elem?-set_lt buf j i (temp_byte t) h

fill_temps-at :
    (ts : List ℤ) (j k : ℕ) (buf : List ℕ) {t : ℤ}
    → j + length ts ≤ length buf
    → get_elem? ts k ≡ some t
    → get_elem? (fill_temps j ts buf) (j + k) ≡ some (temp_byte t)
fill_temps-at [] j k buf fits e = cc
fill_temps-at (x ∷ ts) j zero buf fits e =
    let here : j + zero ≡ j = omega arith in
    rw here (
      fill_temps-before ts (j + 1) j (set buf j (temp_byte x)) (omega arith)
      ∙ get_elem?-set_self buf j (temp_byte x) (omega arith)
      ∙ cc)
fill_temps-at (x ∷ ts) j (suc k) buf fits e =
    let there : j + suc k ≡ j + 1 + k = omega arith in
    rw there (
      fill_temps-at ts (j + 1) k (set buf j (temp_byte x))
        (omega (arith, length-set {0} buf j (temp_byte x))) e)

-- Sensor c of a module is the byte number c % 8 of the answer number c / 8, and a receiver that reads
-- it as a signed byte has the temperature, for every temperature that a signed byte holds.
i8-temp_payload :
    (temps : List ℤ) (c : ℕ) (t : ℤ)
    → get_elem? temps c ≡ some t
    → InRange 256 t
    → (b : ℕ) × (get_elem? (temp_payload temps (c / 8)) (c % 8) ≡ some b) × (i8 b ≡ t)
unfolding temp_payload
i8-temp_payload temps c t e h =
    let zero_plus : 0 + c % 8 ≡ c % 8 = omega arith in
    (
      temp_byte t,
      rw zero_plus at (
          fill_temps-at (slice (c / 8 * 8) ((c / 8 + 1) * 8) temps) 0 (c % 8) (replicate 8 0)
            (omega (arith, length-slice {0} (c / 8 * 8) ((c / 8 + 1) * 8) temps))
            (get_elem?-slice 8 c temps (omega arith) ∙ e)),
      i8-temp_byte t h,
    )
