-- ===== src/Flasher/Printed.antt =====
-- What is parsed of a row that can-flasher printed: the columns of `discover` in
-- tools/firmware_test/flash_helper.py.
use ifs_hil.Prelude.{
  ℕ, zero, suc, ◌==◌, Bool-cases, inl, inr, ◌≡◌, refl, ap, ◌∙◌, true, false, ◌&&◌, [], ◌∷◌, ◌++◌,
  none, some, if◌then◌else◌, drop, all_of, replicate, All, arith, ◌≢◌,
}
use ifs_hil.Prelude.Text.{Text, lit, same, is_space, lstrip, rstrip, strip, starts_with}
use ifs_hil.Prelude.Iff.{all_of_iff}
use ifs_hil.Flasher.Rows.{
  DiscoveredNode, span_word, spaced, last_group, two_spaces, Tail, tail_of, lazily, after_spaces,
  count_spaces, is_hex, hex_value, hex_id, proto_and_rest, parsed_of, parse_row,
}

-- A word is not empty and has no white space.
abbrev pub IsWord : Text → Type 0
IsWord [] = ⊥
IsWord (c ∷ s) = All (λ d. is_space d ≡ false) (c ∷ s)

-- The first character is there, and is no white space.
abbrev pub Starts : Text → Type 0
Starts [] = ⊥
Starts (c ∷ s) = is_space c ≡ false

-- No white space at the end, and no two in a row.
abbrev pub IsTight : Text → Type 0
IsTight [] = ⊥
IsTight (c ∷ []) = is_space c ≡ false
IsTight (c ∷ d ∷ s) = ((is_space c && is_space d) ≡ false) × IsTight (d ∷ s)

abbrev pub InLine : Text → Type 0
InLine s = All (λ c. (c == b'\n') ≡ false) s

-- Words with one space between them.
abbrev pub IsPhrase : Text → Type 0
IsPhrase s = Starts s × IsTight s × InLine s

-- A space and more of them.
abbrev pub gap : ℕ → Text
gap n = 32 ∷ replicate n 32

Starts-word : (w : Text) → IsWord w → Starts w
Starts-word [] h = absurd h
Starts-word (c ∷ w) h = h.0

span_word-at :
    (w r : Text) → All (λ d. is_space d ≡ false) w → span_word (w ++ (32 ∷ r)) ≡ (w, 32 ∷ r)
unfolding span_word
span_word-at [] r h = refl
span_word-at (c ∷ w) r (p, h) = rw (p, span_word-at w r h) refl

span_word-end : (w : Text) → All (λ d. is_space d ≡ false) w → span_word w ≡ (w, [])
unfolding span_word
span_word-end [] h = refl
span_word-end (c ∷ w) (p, h) = rw (p, span_word-end w h) refl

lstrip-word : (c : ℕ) (s : Text) → is_space c ≡ false → lstrip (c ∷ s) ≡ c ∷ s
unfolding lstrip
lstrip-word c s h = ap (λ b. elim b as (λ x. Text) [ true ↦ lstrip s | false ↦ c ∷ s ]) h

lstrip-gap :
    (n : ℕ) (c : ℕ) (s : Text) → is_space c ≡ false → lstrip (replicate n 32 ++ (c ∷ s)) ≡ c ∷ s
unfolding lstrip
lstrip-gap zero c s h = lstrip-word c s h
lstrip-gap (suc n) c s h = lstrip-gap n c s h

count-gap :
    (n : ℕ) (c : ℕ) (s : Text) → is_space c ≡ false → count_spaces (replicate n 32 ++ (c ∷ s)) ≡ n
unfolding count_spaces
count-gap zero c s h = rw h refl
count-gap (suc n) c s h = ap suc (count-gap n c s h)

drop-gap : (n : ℕ) (s : Text) → drop n (replicate n 32 ++ s) ≡ s
drop-gap zero s = refl
drop-gap (suc n) s = drop-gap n s

rstrip-tight : (w : Text) → IsTight w → rstrip w ≡ w
unfolding rstrip
rstrip-tight [] h = absurd h
rstrip-tight (c ∷ []) h = rw h refl
rstrip-tight (c ∷ d ∷ w) (p, h) = rw (rstrip-tight (d ∷ w) h) (ground arith)

strip-phrase : (w : Text) → IsPhrase w → strip w ≡ w
unfolding strip
strip-phrase [] h = absurd (h.0)
strip-phrase (c ∷ w) h = ap rstrip (lstrip-word c w h.0) ∙ rstrip-tight (c ∷ w) h.1

-- A word and the gap after it are taken off together.
spaced-word :
    (w : Text) (n c : ℕ) (s : Text)
    → IsWord w
    → is_space c ≡ false
    → spaced (span_word (w ++ (gap n ++ (c ∷ s)))) ≡ some (w, c ∷ s)
spaced-word [] n c s h k = absurd h
spaced-word (d ∷ w) n c s h k =
    ap spaced (span_word-at (d ∷ w) _ h) ∙ ap (λ t. some (d ∷ w, t)) (lstrip-gap (suc n) c s k)

-- A row of can-flasher: its columns, and the spaces after each, less the one that is always there, or less the two
-- after the version.
pub record Row : Type 0 where
  pub id : Text
  pub id_gap : ℕ
  pub proto : Text
  pub proto_gap : ℕ
  pub fw : Text
  pub fw_gap : ℕ
  pub git : Text
  pub git_gap : ℕ
  pub product : Text
  pub product_gap : ℕ
  pub wrp : Text
  pub wrp_gap : ℕ
  pub cause : Text

pub record IsRow (r : Row) : Type 0 where
  pub hex : All (λ c. is_hex c ≡ true) r.id
  pub some_hex : r.id ≢ []
  pub proto_word : IsWord r.proto
  pub fw_phrase : IsPhrase r.fw
  pub git_word : IsWord r.git
  pub product_word : IsWord r.product
  pub wrp_word : IsWord r.wrp
  pub cause_phrase : IsPhrase r.cause

abbrev wrp_text : Row → Text
wrp_text r = r.wrp ++ (gap r.wrp_gap ++ r.cause)

abbrev product_text : Row → Text
product_text r = r.product ++ (gap r.product_gap ++ wrp_text r)

abbrev pub tail_text : Row → Text
tail_text r = gap (suc r.fw_gap) ++ (r.git ++ (gap r.git_gap ++ product_text r))

abbrev pub print_row : Row → Text
print_row r =
    lit "0x" ++ (r.id ++ (gap r.id_gap ++ (r.proto ++ (gap r.proto_gap ++ (r.fw ++ tail_text r)))))

-- The head of a word, as a first character that is no space.
spaced-words :
    (w : Text) (n : ℕ) (v s : Text)
    → IsWord w
    → Starts v
    → spaced (span_word (w ++ (gap n ++ (v ++ s)))) ≡ some (w, v ++ s)
spaced-words w n [] s h k = absurd k
spaced-words w n (c ∷ v) s h k = spaced-word w n c (v ++ s) h k

lstrip-words : (n : ℕ) (v s : Text) → Starts v → lstrip (gap n ++ (v ++ s)) ≡ v ++ s
lstrip-words n [] s k = absurd k
lstrip-words n (c ∷ v) s k = lstrip-gap (suc n) c (v ++ s) k

last_group-word :
    (w : Text) (n : ℕ) (v : Text)
    → IsWord w
    → IsPhrase v
    → last_group (span_word (w ++ (gap n ++ v))) ≡ some (w, v)
last_group-word [] n v h k = absurd h
last_group-word (d ∷ w) n [] h k = absurd (k.0)
last_group-word (d ∷ w) n (c ∷ v) h k =
    let stripped = strip-phrase (c ∷ v) k in
    ap last_group (span_word-at (d ∷ w) _ h) ∙ rw (lstrip-gap (suc n) c v k.0, stripped) refl

tail_of-tail_text :
    (r : Row) → IsRow r → tail_of (tail_text r) ≡ some (r.git, r.product, r.wrp, r.cause)
unfolding tail_of
tail_of-tail_text r h =
    rw
      (
        lstrip-words (suc r.fw_gap) r.git (gap r.git_gap ++ product_text r)
            (Starts-word r.git h.git_word),
        spaced-words r.git r.git_gap r.product (gap r.product_gap ++ wrp_text r) h.git_word
            (Starts-word r.product h.product_word),
        spaced-words r.product r.product_gap r.wrp (gap r.wrp_gap ++ r.cause) h.product_word
            (Starts-word r.wrp h.wrp_word),
        last_group-word r.wrp r.wrp_gap r.cause h.wrp_word h.cause_phrase,
      )
      refl

-- No tail begins inside a tight text.
two_spaces-tight : (w s : Text) → IsTight w → two_spaces (w ++ s) ≡ false
two_spaces-tight [] s h = absurd h
two_spaces-tight (c ∷ []) [] h = refl
two_spaces-tight (c ∷ []) (d ∷ s) h = ap (λ b. b && is_space d) h
two_spaces-tight (c ∷ d ∷ w) s h = h.0

tail_of-tight : (w s : Text) → IsTight w → tail_of (w ++ s) ≡ none
unfolding tail_of
tail_of-tight w s h = rw (two_spaces-tight w s h) refl

lazily-tight :
    (w s : Text) (t : Tail) → IsTight w → tail_of s ≡ some t → lazily (w ++ s) ≡ some (w, t)
unfolding lazily
lazily-tight [] s t h e = absurd h
lazily-tight (c ∷ []) s t h e = rw e refl
lazily-tight (c ∷ d ∷ w) s t (p, h) e =
    rw (tail_of-tight (d ∷ w) s h, lazily-tight (d ∷ w) s t h e) refl

after_spaces-gap :
    (n : ℕ) (s : Text) (x : Text × Tail)
    → lazily s ≡ some x
    → after_spaces (suc n) (replicate (suc n) 32 ++ s) ≡ some x
unfolding after_spaces
after_spaces-gap n s x e = rw (drop-gap n s, e) refl

count-words : (n : ℕ) (v s : Text) → Starts v → count_spaces (gap n ++ (v ++ s)) ≡ suc n
count-words n [] s k = absurd k
count-words n (c ∷ v) s k = count-gap (suc n) c (v ++ s) k

proto_of :
    (w : Text) (n : ℕ) (v s : Text) (x : Text × Tail)
    → IsWord w
    → Starts v
    → lazily (v ++ s) ≡ some x
    → proto_and_rest (span_word (w ++ (gap n ++ (v ++ s)))) ≡ some (w, x)
proto_of [] n v s x h k e = absurd h
proto_of (d ∷ w) n v s x h k e =
    ap proto_and_rest (span_word-at (d ∷ w) _ h)
    ∙ rw (count-words n v s k, after_spaces-gap n (v ++ s) x e) refl

proto-row :
    (r : Row)
    → IsRow r
    → proto_and_rest (span_word (r.proto ++ (gap r.proto_gap ++ (r.fw ++ tail_text r))))
      ≡ some (r.proto, (r.fw, (r.git, r.product, r.wrp, r.cause)))
proto-row r h =
    proto_of r.proto r.proto_gap r.fw (tail_text r) _ h.proto_word h.fw_phrase.0
      (lazily-tight r.fw (tail_text r) _ h.fw_phrase.1 (tail_of-tail_text r h))

all_of-All : (s : Text) → All (λ c. is_hex c ≡ true) s → all_of is_hex s ≡ true
all_of-All s h = (all_of_iff is_hex s).1 h

hex_id-row :
    (s : Text)
    → All (λ c. is_hex c ≡ true) s
    → s ≢ []
    → hex_id (lit "0x" ++ s) ≡ some (hex_value 0 s)
hex_id-row [] h k = absurd (k refl)
hex_id-row (c ∷ s) h k =
    ap (λ b. if b then some (hex_value 0 (c ∷ s)) else none) (all_of-All (c ∷ s) h)

pub hex_words : (s : Text) → All (λ c. is_hex c ≡ true) s → All (λ d. is_space d ≡ false) s
hex_words [] h = tt
hex_words (c ∷ s) (p, h) = (ground (arith, p), hex_words s h)

abbrev pub node_of_row : Row → DiscoveredNode
node_of_row r = record {
  node_id = hex_value 0 r.id;
  proto = r.proto;
  fw_version = r.fw;
  git_hash = r.git;
  product = r.product;
  wrp = same r.wrp (lit "✓");
  reset_cause = r.cause;
}

-- A printed row is parsed to the node of its columns.
pub parse_row-print_row : (r : Row) → IsRow r → parse_row (print_row r) ≡ some (node_of_row r)
unfolding parse_row
parse_row-print_row r h =
    let id_word : IsWord (lit "0x" ++ r.id) = (refl, (refl, hex_words r.id h.hex)) in
    let rest = r.fw ++ tail_text r in
    rw
      (
        spaced-words (lit "0x" ++ r.id) r.id_gap r.proto (gap r.proto_gap ++ rest) id_word
            (Starts-word r.proto h.proto_word),
        hex_id-row r.id h.hex h.some_hex,
        proto-row r h,
        strip-phrase r.fw h.fw_phrase,
      )
      refl

no_hex :
    (z x : ℕ) (w : Text) → starts_with (lit "0x") (z ∷ x ∷ w) ≡ false → hex_id (z ∷ x ∷ w) ≡ none
no_hex z x [] h = refl
no_hex z x (c ∷ w) h =
    let apart : ((z == b'0') && (x == b'x')) ≡ false = ground arith in ground (arith, apart)

hex_id-span_word : (t : Text) → starts_with (lit "0x") t ≡ false → hex_id (span_word t).0 ≡ none
unfolding span_word
hex_id-span_word [] h = refl
hex_id-span_word (z ∷ []) h = elim (Bool-cases (is_space z)) [
  | inl e ↦ rw e refl
  | inr e ↦ rw e refl
]
hex_id-span_word (z ∷ x ∷ s) h = elim (Bool-cases (is_space z)) [
  | inl e ↦ rw e refl
  | inr e ↦ elim (Bool-cases (is_space x)) [
    | inl f ↦ rw (e, f) refl
    | inr f ↦ rw (e, f) (no_hex z x (span_word s).0 h)
  ]
]

parse_of : (w r : Text) → hex_id w ≡ none → parsed_of (spaced (w, r)) ≡ none
parse_of [] r h = refl
parse_of (c ∷ w) [] h = refl
parse_of (c ∷ w) (d ∷ r) h = rw h refl

-- A line that does not begin with 0x is passed over.
pub parse_row-other : (t : Text) → starts_with (lit "0x") t ≡ false → parse_row t ≡ none
unfolding parse_row
parse_row-other t h = parse_of (span_word t).0 (span_word t).1 (hex_id-span_word t h)
