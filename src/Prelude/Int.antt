-- ===== src/Prelude/Int.antt =====
-- Python integers that may be negative, over the native numbers; `%` and `&` on them.
use Prim.Native.Nat.{ℕ, zero, suc, ◌+◌, ◌-◌, ◌/◌, ◌%◌, ◌≤◌, ◌<◌}
use mathlib.Core.Path.{◌≡◌}
use native.Mathlib.Omega.{arith}
use ifs_hil.Prelude.Tests.{leb, if◌then◌else◌}

-- `negsuc n` is -(n + 1).
pub data ℤ : Type 0 where
  pos : ℕ → ℤ
  negsuc : ℕ → ℤ

-- a - b, as an integer.
abbrev pub sub_ℕ : ℕ → ℕ → ℤ
sub_ℕ a b = if leb b a then pos (a - b) else negsuc (b - a - 1)

-- z + n for a literal n.
abbrev pub add_ℕ : ℤ → ℕ → ℤ
add_ℕ (pos a) n = pos (a + n)
add_ℕ (negsuc a) n = sub_ℕ n (suc a)

-- -n
abbrev pub neg_ℕ : ℕ → ℤ
neg_ℕ zero = pos 0
neg_ℕ (suc n) = negsuc n

infix 50 ◌≤ℤ◌
abbrev pub ◌≤ℤ◌ : ℤ → ℤ → Type 0
pos a ≤ℤ pos b = a ≤ b
pos a ≤ℤ negsuc b = ⊥
negsuc a ≤ℤ pos b = Unit
negsuc a ≤ℤ negsuc b = b ≤ a

-- z & (m - 1) for a power of two m: Python's `&` takes the remainder in 0..m-1, also of a negative.
abbrev pub wrap : ℕ → ℤ → ℕ
wrap m (pos n) = n % m
wrap m (negsuc n) = m - 1 - n % m

-- `raw -= m` where raw is in the upper half: two's complement of width log2 m.
abbrev pub signed : ℕ → ℕ → ℤ
signed m raw = if leb (m / 2) raw then negsuc (m - 1 - raw) else pos raw

-- The range of a signed integer of width log2 m.
abbrev pub InRange : ℕ → ℤ → Type 0
InRange m (pos n) = n < m / 2
InRange m (negsuc n) = n < m / 2

pub signed-wrap8 : (z : ℤ) → InRange 256 z → signed 256 (wrap 256 z) ≡ z
signed-wrap8 (pos n) h = ground arith
signed-wrap8 (negsuc n) h = ground arith

pub wrap8-lt : (z : ℤ) → wrap 256 z < 256
wrap8-lt (pos n) = omega arith
wrap8-lt (negsuc n) = omega arith
