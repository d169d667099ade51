-- ===== src/Flasher/Listed.antt =====
-- `discover` of tools/firmware_test/flash_helper.py on what can-flasher prints.
use ifs_hil.Prelude.{
  ℕ, zero, suc, ◌≡◌, refl, false, List, [], ◌∷◌, ◌++◌, Option, none, replicate, All, arith,
}
use ifs_hil.Prelude.Int.{pos}
use ifs_hil.Prelude.Every.{All-append}
use ifs_hil.Prelude.Text.{Text, lit, is_space, split_on, contains, starts_with}
use ifs_hil.Flasher.Rows.{DiscoveredNode, span_word, parse_row}
use ifs_hil.Flasher.Command.{CanFlasher, value, Spawned, ended, parsed, discover_args, discover}
use ifs_hil.Flasher.Printed.{
  IsWord, InLine, gap, Row, IsRow, print_row, node_of_row, parse_row-print_row, parse_row-other,
  hex_words,
}

-- A line that can-flasher prints: of a node, or another.
pub data Line : Type 0 where
  node : Row → Line
  other : Text → Line

abbrev pub IsLine : Line → Type 0
IsLine (node r) = IsRow r
IsLine (other t) = InLine t × (starts_with (lit "0x") t ≡ false)

abbrev text_of : Line → Text
text_of (node r) = print_row r
text_of (other t) = t

-- The lines, each with its end.
abbrev pub listing : List Line → Text
listing [] = []
listing (l ∷ ls) = text_of l ++ (b'\n' ∷ listing ls)

abbrev pub nodes : List Line → List DiscoveredNode
nodes [] = []
nodes (node r ∷ ls) = node_of_row r ∷ nodes ls
nodes (other t ∷ ls) = nodes ls

split_on-line : (s r : Text) → InLine s → split_on b'\n' (s ++ (b'\n' ∷ r)) ≡ s ∷ split_on b'\n' r
unfolding split_on
split_on-line [] r h = refl
split_on-line (c ∷ s) r (p, h) = rw (p, split_on-line s r h) refl

words-InLine : (w : Text) → All (λ d. is_space d ≡ false) w → InLine w
words-InLine [] h = tt
words-InLine (c ∷ w) (p, h) = (ground (arith, p), words-InLine w h)

word-InLine : (w : Text) → IsWord w → InLine w
word-InLine [] h = absurd h
word-InLine (c ∷ w) h = words-InLine (c ∷ w) h

spaces-InLine : (n : ℕ) → InLine (replicate n 32)
spaces-InLine zero = tt
spaces-InLine (suc n) = (refl, spaces-InLine n)

-- A word, a gap and the rest of a row.
column : (n : ℕ) (w s : Text) → InLine w → InLine s → InLine (w ++ (gap n ++ s))
column n w s h k = All-append _ w _ h (refl, All-append _ (replicate n 32) s (spaces-InLine n) k)

row-InLine : (r : Row) → IsRow r → InLine (print_row r)
row-InLine r h =
    let wrp = column r.wrp_gap r.wrp _ (word-InLine r.wrp h.wrp_word) h.cause_phrase.2 in
    let product = column r.product_gap r.product _ (word-InLine r.product h.product_word) wrp in
    let git = column r.git_gap r.git _ (word-InLine r.git h.git_word) product in
    let fw = column (suc r.fw_gap) r.fw _ h.fw_phrase.2 git in
    let proto = column r.proto_gap r.proto _ (word-InLine r.proto h.proto_word) fw in
    (refl, (refl, column r.id_gap r.id _ (words-InLine r.id (hex_words r.id h.hex)) proto))

parse_row-nil : parse_row [] ≡ none
unfolding parse_row span_word
parse_row-nil = refl

parsed-listing : (ls : List Line) → All IsLine ls → parsed (split_on b'\n' (listing ls)) ≡ nodes ls
unfolding split_on
parsed-listing [] h = rw parse_row-nil refl
parsed-listing (node r ∷ ls) (p, h) =
    rw
      (
        split_on-line (print_row r) (listing ls) (row-InLine r p),
        parse_row-print_row r p,
        parsed-listing ls h,
      )
      refl
parsed-listing (other t ∷ ls) (p, h) =
    rw (split_on-line t (listing ls) p.0, parse_row-other t p.1, parsed-listing ls h) refl

-- If can-flasher exits with 0 and prints lines, of which each that begins with 0x is a row of a node, and the line of no
-- answer is not in its output, then discover returns the nodes of the rows in their order. A row has its columns with a
-- space or more after each, two or more after the version; the version and the reset cause are words with one space
-- between them, the other columns a word each.
pub discover-listing :
    (f : CanFlasher) (spawn : List Text → Spawned) (timeout_ms : Option ℕ) (ls : List Line)
    (er : Text)
    → All IsLine ls
    → spawn (discover_args f timeout_ms)
      ≡ ended (record { returncode = pos 0; stdout = listing ls; stderr = er })
    → contains (lit "No bootloaders replied") (listing ls ++ er) ≡ false
    → discover f spawn timeout_ms ≡ value (nodes ls)
unfolding discover
discover-listing f spawn timeout_ms ls er h e k = rw (e, k, parsed-listing ls h) refl
