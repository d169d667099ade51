-- ===== src/Vcu/Crc/Detect.antt =====
-- The CRC finds every error that is confined to one byte.
use ifs_hil.Prelude.{
  ℕ, zero, suc, ◌+◌, ◌/◌, ◌<◌, ◌≡◌, ◌≢◌, refl, Bool, true, List, [], ◌∷◌, ◌++◌, bit_xor,
  if◌then◌else◌, ◌==◌, ==_iff, arith, ◌&&◌, ltb,
}
use ifs_hil.Prelude.Tests.{table, table-true}
use ifs_hil.Prelude.Bytes.{bit, IsBytes}
use ifs_hil.Vcu.Crc.{crc_bit, crc_rounds, crc_byte, crc_from, crc8_j1850}

-- The round is undone by its lowest bit, since 0x1D is odd.
uncrc_bit : ℕ → ℕ
uncrc_bit c = if bit c 0 then bit_xor c 0x1D / 2 + 128 else c / 2

uncrc_table : table (λ c. (uncrc_bit (crc_bit c) == c) && ltb (crc_bit c) 256) 256 ≡ true
unfolding table crc_bit uncrc_bit
uncrc_table = refl

xor_table :
    table (λ a. table (λ b. (bit_xor a (bit_xor a b) == b) && ltb (bit_xor a b) 256) 256) 256 ≡ true
unfolding table
xor_table = refl

and-true : (a b : Bool) → (a && b) ≡ true → (a ≡ true) × (b ≡ true)
and-true a b h = ground arith

ltb-lt : (a b : ℕ) → ltb a b ≡ true → a < b
ltb-lt a b h = ground arith

module _ (c : ℕ) (h : c < 256) where
  uncrc_row : (uncrc_bit (crc_bit c) ≡ c) × (crc_bit c < 256)
  uncrc_row =
      let (a, b) = and-true _ _ (table-true _ 256 c h uncrc_table) in
      ((==_iff _ _).0 a, ltb-lt _ _ b)

module _ (a b : ℕ) (p : a < 256) (q : b < 256) where
  xor_row : (bit_xor a (bit_xor a b) ≡ b) × (bit_xor a b < 256)
  xor_row =
      let (x, y) = and-true _ _ (table-true _ 256 b q (table-true _ 256 a p xor_table)) in
      ((==_iff _ _).0 x, ltb-lt _ _ y)

crc_rounds-lt : (n c : ℕ) → c < 256 → crc_rounds n c < 256
unfolding crc_rounds
crc_rounds-lt zero c h = h
crc_rounds-lt (suc n) c h = crc_rounds-lt n (crc_bit c) (uncrc_row c h).1

crc_rounds-injective : (n c d : ℕ) → c < 256 → d < 256 → crc_rounds n c ≡ crc_rounds n d → c ≡ d
unfolding crc_rounds
crc_rounds-injective zero c d h k e = e
crc_rounds-injective (suc n) c d h k e =
    let (uc, lc) = uncrc_row c h in
    let (ud, ld) = uncrc_row d k in
    let same = crc_rounds-injective n (crc_bit c) (crc_bit d) lc ld e in cc (uc, ud, same)

crc_byte-lt : (c b : ℕ) → c < 256 → b < 256 → crc_byte c b < 256
unfolding crc_byte
crc_byte-lt c b h k = crc_rounds-lt 8 (bit_xor c b) (xor_row c b h k).1

-- The CRC register is a bijection of the old register and of the byte fed in.
crc_byte-injective_right :
    (c a b : ℕ) → c < 256 → a < 256 → b < 256 → crc_byte c a ≡ crc_byte c b → a ≡ b
unfolding crc_byte
crc_byte-injective_right c a b h p q e =
    let (xa, la) = xor_row c a h p in
    let (xb, lb) = xor_row c b h q in
    let same = crc_rounds-injective 8 (bit_xor c a) (bit_xor c b) la lb e in cc (xa, xb, same)

comm_table : table (λ a. table (λ b. bit_xor a b == bit_xor b a) 256) 256 ≡ true
unfolding table
comm_table = refl

xor_comm : (a b : ℕ) → a < 256 → b < 256 → bit_xor a b ≡ bit_xor b a
xor_comm a b p q = (==_iff _ _).0 (table-true _ 256 b q (table-true _ 256 a p comm_table))

crc_byte-injective_left :
    (c d b : ℕ) → c < 256 → d < 256 → b < 256 → crc_byte c b ≡ crc_byte d b → c ≡ d
unfolding crc_byte
crc_byte-injective_left c d b h k q e =
    let (xc, _) = xor_row b c q h in
    let (xd, _) = xor_row b d q k in
    let (_, lc) = xor_row c b h q in
    let (_, ld) = xor_row d b k q in
    let same = crc_rounds-injective 8 (bit_xor c b) (bit_xor d b) lc ld e in
    cc (xc, xd, same, xor_comm c b h q, xor_comm d b k q)

crc_from-lt : (c : ℕ) (bs : List ℕ) → c < 256 → IsBytes bs → crc_from c bs < 256
unfolding crc_from
crc_from-lt c [] h w = h
crc_from-lt c (b ∷ bs) h w = crc_from-lt (crc_byte c b) bs (crc_byte-lt c b h w.0) w.1

crc_from-injective :
    (c d : ℕ) (bs : List ℕ) → c < 256 → d < 256 → IsBytes bs → crc_from c bs ≡ crc_from d bs → c ≡ d
unfolding crc_from
crc_from-injective c d [] h k w e = e
crc_from-injective c d (b ∷ bs) h k w e = crc_byte-injective_left c d b h k w.0 (
    crc_from-injective (crc_byte c b) (crc_byte d b) bs (crc_byte-lt c b h w.0)
      (crc_byte-lt d b k w.0) w.1 e)

crc_from-changed :
    (c : ℕ) (xs ys : List ℕ) (a b : ℕ)
    → c < 256
    → IsBytes xs
    → IsBytes ys
    → a < 256
    → b < 256
    → crc_from c (xs ++ a ∷ ys) ≡ crc_from c (xs ++ b ∷ ys)
    → a ≡ b
unfolding crc_from
crc_from-changed c [] ys a b h wx wy p q e = crc_byte-injective_right c a b h p q (
    crc_from-injective (crc_byte c a) (crc_byte c b) ys (crc_byte-lt c a h p) (crc_byte-lt c b h q)
      wy e)
crc_from-changed c (x ∷ xs) ys a b h wx wy p q e =
    crc_from-changed (crc_byte c x) xs ys a b (crc_byte-lt c x h wx.0) wx.1 wy p q e

xor_cancel : (a b : ℕ) → a < 256 → b < 256 → bit_xor a 0xFF ≡ bit_xor b 0xFF → a ≡ b
xor_cancel a b p q e =
    let (xa, _) = xor_row 0xFF a (omega arith) p in
    let (xb, _) = xor_row 0xFF b (omega arith) q in
    cc (xa, xb, e, xor_comm a 0xFF p (omega arith), xor_comm b 0xFF q (omega arith))

append-IsBytes :
    (xs ys : List ℕ) (a : ℕ) → IsBytes xs → a < 256 → IsBytes ys → IsBytes (xs ++ a ∷ ys)
append-IsBytes [] ys a wx p wy = (p, wy)
append-IsBytes (x ∷ xs) ys a wx p wy = (wx.0, append-IsBytes xs ys a wx.1 p wy)

-- Two payloads of bytes that differ in exactly one byte have different CRCs.
crc8-detects :
    (xs ys : List ℕ) (a b : ℕ)
    → IsBytes xs
    → IsBytes ys
    → a < 256
    → b < 256
    → a ≢ b
    → crc8_j1850 (xs ++ a ∷ ys) ≢ crc8_j1850 (xs ++ b ∷ ys)
unfolding crc8_j1850
crc8-detects xs ys a b wx wy p q ne e = ne (
    crc_from-changed 0xFF xs ys a b (omega arith) wx wy p q (
      xor_cancel _ _
        (crc_from-lt 0xFF (xs ++ a ∷ ys) (omega arith) (append-IsBytes xs ys a wx p wy))
        (crc_from-lt 0xFF (xs ++ b ∷ ys) (omega arith) (append-IsBytes xs ys b wx q wy)) e))
