-- ===== src/Flasher/Rows.antt =====
-- The rows that `discover` of tools/firmware_test/flash_helper.py matches with a regular expression. Its
-- groups are found as a backtracking matcher finds them; groups 3 and 7 are given stripped.
use ifs_hil.Prelude.{
  ℕ, zero, suc, ◌+◌, ◌*◌, ◌-◌, Bool, false, ◌&&◌, ◌||◌, [], ◌∷◌, Option, none, some, if◌then◌else◌,
  length, drop, all_of, leb, ◌==◌,
}
use ifs_hil.Prelude.Text.{Text, lit, same, is_space, lstrip, strip}

pub record DiscoveredNode : Type 0 where
  pub node_id : ℕ
  pub proto : Text
  pub fw_version : Text
  pub git_hash : Text
  pub product : Text
  pub wrp : Bool
  pub reset_cause : Text

-- (\S*), and what follows.
unfoldable pub span_word : Text → Text × Text
span_word [] = ([], [])
span_word (c ∷ s) = let r = span_word s in if is_space c then ([], c ∷ s) else (c ∷ r.0, r.1)

-- (\S+)\s+
abbrev pub spaced : Text × Text → Option (Text × Text)
spaced ([], r) = none
spaced (c ∷ w, []) = none
spaced (c ∷ w, d ∷ r) = some (c ∷ w, lstrip (d ∷ r))

abbrev pub then_do {ℓ κ} : {A : Type ℓ} {B : Type κ} → Option A → (A → Option B) → Option B
then_do none f = none
then_do (some a) f = f a

-- The first of two attempts that matches.
abbrev pub first {ℓ} : {A : Type ℓ} → Option A → Option A → Option A
first none b = b
first (some a) b = some a

-- \s+(.+)$ after a word: where only white space is left, the last of it is the group.
abbrev last_from : ℕ → Text → Option Text
last_from n [] = if leb 2 n then some [] else none
last_from n (c ∷ s) = some (strip (c ∷ s))

abbrev pub last_group : Text × Text → Option (Text × Text)
last_group ([], r) = none
last_group (c ∷ w, r) = then_do (last_from (length r) (lstrip r)) (λ g. some (c ∷ w, g))

-- \s{2,}
abbrev pub two_spaces : Text → Bool
two_spaces [] = false
two_spaces (c ∷ []) = false
two_spaces (c ∷ d ∷ s) = is_space c && is_space d

abbrev pub Tail : Type 0
Tail = Text × Text × Text × Text

-- \s{2,}(\S+)\s+(\S+)\s+(\S+)\s+(.+)$
unfoldable pub tail_of : Text → Option Tail
tail_of s =
    if two_spaces s
    then then_do (spaced (span_word (lstrip s))) (λ g4.
      then_do (spaced (span_word g4.1))
        (λ g5. then_do (last_group (span_word g5.1)) (λ g6. some (g4.0, g5.0, g6.0, g6.1))))
    else none

-- (.+?) and the tail: the shortest text that a tail follows.
unfoldable pub lazily : Text → Option (Text × Tail)
lazily [] = none
lazily (c ∷ s) =
    let later = lazily s in
    first (then_do (tail_of s) (λ t. some (c ∷ [], t))) (then_do later (λ r. some (c ∷ r.0, r.1)))

-- \s+ with at most so many characters, the longest first, and what is to follow.
unfoldable pub after_spaces : ℕ → Text → Option (Text × Tail)
after_spaces zero s = none
after_spaces (suc n) s = let shorter = after_spaces n s in first (lazily (drop (suc n) s)) shorter

unfoldable pub count_spaces : Text → ℕ
count_spaces [] = 0
count_spaces (c ∷ s) = let n = count_spaces s in if is_space c then suc n else 0

abbrev pub is_hex : ℕ → Bool
is_hex c = (leb b'0' c && leb c b'9') || (leb b'A' c && leb c b'F') || (leb b'a' c && leb c b'f')

abbrev pub hex_of : ℕ → ℕ
hex_of c = if leb b'a' c then c - 87 else if leb b'A' c then c - 55 else c - 48

-- int(m.group(1), 16)
abbrev pub hex_value : ℕ → Text → ℕ
hex_value acc [] = acc
hex_value acc (c ∷ s) = hex_value (acc * 16 + hex_of c) s

-- 0x[0-9A-Fa-f]+
abbrev pub hex_id : Text → Option ℕ
hex_id [] = none
hex_id (z ∷ []) = none
hex_id (z ∷ x ∷ []) = none
hex_id (z ∷ x ∷ c ∷ s) =
    if z == b'0' && x == b'x' && all_of is_hex (c ∷ s) then some (hex_value 0 (c ∷ s)) else none

abbrev pub node_of : ℕ → Text → Text × Tail → DiscoveredNode
node_of id proto (fw, (git, product, wrp, cause)) = record {
  node_id = id;
  proto = proto;
  fw_version = strip fw;
  git_hash = git;
  product = product;
  wrp = same wrp (lit "✓");
  reset_cause = cause;
}

abbrev pub proto_and_rest : Text × Text → Option (Text × (Text × Tail))
proto_and_rest ([], r) = none
proto_and_rest (c ∷ w, r) = then_do (after_spaces (count_spaces r) r) (λ g. some (c ∷ w, g))

-- The node of a line whose first word, which white space follows, was taken off.
abbrev pub parsed_of : Option (Text × Text) → Option DiscoveredNode
parsed_of o = then_do o (λ g1.
    then_do (hex_id g1.0)
      (λ id. then_do (proto_and_rest (span_word g1.1)) (λ g2. some (node_of id g2.0 g2.1))))

unfoldable pub parse_row : Text → Option DiscoveredNode
parse_row line = parsed_of (spaced (span_word line))
