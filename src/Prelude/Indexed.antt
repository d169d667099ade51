-- ===== src/Prelude/Indexed.antt =====
-- Lemmas on `index`, a read that may raise, over the operations of lists.
use Prim.Native.Nat.{ℕ, zero, suc, ◌<◌}
use mathlib.Core.Path.{◌≡◌, refl}
use mathlib.Core.Logic.{◌≢◌}
use mathlib.Core.List.{List, [], ◌∷◌, map}
use native.Mathlib.Omega.{arith}
use ifs_hil.Prelude.Tests.{if◌then◌else◌, ◌==◌}
use ifs_hil.Prelude.Lists.{length, set}
use ifs_hil.Prelude.Result.{ok, index}

pub index-lt : {A : Type 0} (xs : List A) (i : ℕ) → i < length xs → (a : A) × (index xs i ≡ ok a)
index-lt [] i h = absurd (omega (arith, h))
index-lt (x ∷ xs) zero h = (x, refl)
index-lt (x ∷ xs) (suc i) h = index-lt xs i (omega (arith, h))

pub index-set :
    {A : Type 0} (xs : List A) (i j : ℕ) (v : A)
    → i < length xs
    → index (set xs i v) j ≡ (if i == j then ok v else index xs j)
index-set [] i j v h = absurd (omega (arith, h))
index-set (x ∷ xs) zero zero v h = refl
index-set (x ∷ xs) zero (suc j) v h = ground arith
index-set (x ∷ xs) (suc i) zero v h = ground arith
index-set (x ∷ xs) (suc i) (suc j) v h = ground (arith, index-set xs i j v (omega (arith, h)))

-- A write leaves the other places, also where it is out of range.
pub index-set_other :
    {A : Type 0} (xs : List A) (i j : ℕ) (v : A) → i ≢ j → index (set xs i v) j ≡ index xs j
index-set_other [] i j v h = refl
index-set_other (x ∷ xs) zero zero v h = absurd (h refl)
index-set_other (x ∷ xs) zero (suc j) v h = refl
index-set_other (x ∷ xs) (suc i) zero v h = refl
index-set_other (x ∷ xs) (suc i) (suc j) v h = index-set_other xs i j v (λ e. h (omega (arith, e)))

pub index-set_self :
    {A : Type 0} (xs : List A) (i : ℕ) (v : A) → i < length xs → index (set xs i v) i ≡ ok v
index-set_self [] i v h = absurd (omega (arith, h))
index-set_self (x ∷ xs) zero v h = refl
index-set_self (x ∷ xs) (suc i) v h = index-set_self xs i v (omega (arith, h))

pub length-map_lem : {A B : Type 0} (f : A → B) (xs : List A) → length (map f xs) ≡ length xs
length-map_lem f [] = refl
length-map_lem f (x ∷ xs) = λ i. suc (length-map_lem f xs i)
