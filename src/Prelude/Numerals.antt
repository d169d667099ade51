-- ===== src/Prelude/Numerals.antt =====
-- Python's printing of integers, `f"{n}"` and `f"{n:02X}"`, as lists of code points.
use Prim.Native.Nat.{ℕ, zero, suc, ◌+◌, ◌-◌, ◌/◌, ◌%◌}
use mathlib.Core.List.{[], ◌∷◌, ◌++◌}
use ifs_hil.Prelude.Tests.{ltb, if◌then◌else◌}
use ifs_hil.Prelude.Text.{Text}
use ifs_hil.Prelude.Int.{ℤ, pos, negsuc}

-- The digits of a number below 10 ^ fuel.
unfoldable pub digits : ℕ → ℕ → Text
digits zero n = []
digits (suc fuel) n =
    let front = digits fuel (n / 10) in
    if ltb n 10 then (b'0' + n) ∷ [] else front ++ ((b'0' + n % 10) ∷ [])

-- n < 10 ^ (n + 1), so this fuel is enough.
unfoldable pub decimal : ℕ → Text
unfolding digits
decimal n = digits (suc n) n

unfoldable pub decimal_int : ℤ → Text
unfolding decimal
decimal_int (pos n) = decimal n
decimal_int (negsuc n) = b'-' ∷ decimal (suc n)

abbrev pub hex_digit : ℕ → ℕ
hex_digit d = if ltb d 10 then b'0' + d else b'A' + (d - 10)

-- Of a number below 256.
unfoldable pub hex_byte : ℕ → Text
hex_byte n = hex_digit (n / 16) ∷ hex_digit (n % 16) ∷ []

-- f"{n:0{w}X}" of a number below 16 ^ w.
unfoldable pub hex_wide : ℕ → ℕ → Text
hex_wide zero n = []
hex_wide (suc w) n = hex_wide w (n / 16) ++ (hex_digit (n % 16) ∷ [])
