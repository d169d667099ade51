-- ===== src/Bench/Bound.antt =====
-- The number of controllers that `doctor_checks` of tools/bench.py reads from the kernel's log.
use mathlib.Core.List.{foldl}
use ifs_hil.Prelude.{
  ℕ, ◌+◌, ◌*◌, ◌-◌, ◌≤◌, ◌≡◌, ◌≢◌, refl, ◌↔◌, true, not, ◌&&◌, [], ◌∷◌, All, all_of, leb, arith,
}
use ifs_hil.Prelude.Text.{Text, is_empty}
use ifs_hil.Prelude.Iff.{and_to}
use ifs_hil.Bench.Host.{is_digit, all_digits, number}
use ifs_hil.Bench.Documented.{decimal}

number-decimal : (n : ℕ) (s : Text) → number n s ≡ foldl (λ m c. m * 10 + (c - b'0')) n s
number-decimal n [] = refl
number-decimal n (c ∷ s) = number-decimal (n * 10 + (c - b'0')) s

filled_iff : (s : Text) → (not (is_empty s) ≡ true) ↔ (s ≢ [])
filled_iff [] = (λ h. absurd (cc h), λ h. absurd (h refl))
filled_iff (c ∷ s) = (λ h. λ e. cc, λ h. refl)

digit_iff : (c : ℕ) → (is_digit c ≡ true) ↔ ((b'0' ≤ c) × (c ≤ b'9'))
digit_iff c = (λ h. ground (arith, h), λ h. ground (arith, h))

enough_iff : (s : Text) → (leb 3 (number 0 s) ≡ true) ↔ (3 ≤ decimal s)
enough_iff s = rw (number-decimal 0 s) ((λ h. ground (arith, h)), (λ h. ground (arith, h)))

digits_iff : (s : Text) → (all_of is_digit s ≡ true) ↔ All (λ c. (b'0' ≤ c) × (c ≤ b'9')) s
digits_iff [] = (λ h. tt, λ h. refl)
digits_iff (c ∷ s) = and_to _ (digit_iff c) (digits_iff s)

-- The check counts three or more exactly when there are digits only, of a number of at least three.
pub bound_at :
    (s : Text)
    → ((all_digits s && leb 3 (number 0 s)) ≡ true)
      ↔ ((s ≢ []) × All (λ c. (b'0' ≤ c) × (c ≤ b'9')) s × (3 ≤ decimal s))
bound_at s =
    let all = and_to _ (and_to _ (filled_iff s) (digits_iff s)) (enough_iff s) in
    (λ h. let r = all.0 h in (r.0.0, r.0.1, r.1), λ h. all.1 ((h.0, h.1), h.2))
