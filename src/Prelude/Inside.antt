-- ===== src/Prelude/Inside.antt =====
-- A text inside another, against Python's `in`.
use mathlib.Core.Path.{◌≡◌, refl, ap, subst}
use mathlib.Core.Logic.{◌⊎◌, inl, inr}
use mathlib.Core.Bool.{Bool, true, false, ◌||◌}
use mathlib.Core.List.{[], ◌∷◌, ◌++◌}
use native.Mathlib.Omega.{arith}
use ifs_hil.Prelude.Text.{Text, starts_with, contains}

-- A text inside another.
abbrev pub Inside : Text → Text → Type 0
Inside sub s = (before : Text) × (after : Text) × (s ≡ before ++ (sub ++ after))

starts_with-Inside : (sub s : Text) → starts_with sub s ≡ true → (after : Text) × (s ≡ sub ++ after)
starts_with-Inside [] s h = (s, refl)
starts_with-Inside (p ∷ ps) [] h = absurd (cc h)
starts_with-Inside (p ∷ ps) (c ∷ s) h =
    let e : p ≡ c = ground (arith, h) in
    let rest = starts_with-Inside ps s (ground (arith, h)) in (rest.0, rw (e, rest.1) refl)

starts_with_self : (sub after : Text) → starts_with sub (sub ++ after) ≡ true
starts_with_self [] after = refl
starts_with_self (p ∷ ps) after = ground (arith, starts_with_self ps after)

pub or_cases : (b c : Bool) → (b || c) ≡ true → (b ≡ true) ⊎ (c ≡ true)
or_cases true c h = inl refl
or_cases false c h = inr h

or_right : (b c : Bool) → c ≡ true → (b || c) ≡ true
or_right true c h = refl
or_right false c h = h

pub contains-Inside : (sub s : Text) → contains sub s ≡ true → Inside sub s
contains-Inside [] [] h = ([], [], refl)
contains-Inside (p ∷ ps) [] h = absurd (cc h)
contains-Inside sub (c ∷ s) h = elim (or_cases (starts_with sub (c ∷ s)) (contains sub s) h) [
  | inl here ↦ let r = starts_with-Inside sub (c ∷ s) here in ([], r.0, r.1)
  | inr later ↦ let r = contains-Inside sub s later in (c ∷ r.0, r.1, ap (λ t. c ∷ t) r.2)
]

pub contains-at : (sub before after : Text) → contains sub (before ++ (sub ++ after)) ≡ true
contains-at [] [] [] = refl
contains-at [] [] (c ∷ after) = refl
contains-at (p ∷ ps) [] after =
    ap (λ b. b || contains (p ∷ ps) (ps ++ after)) (starts_with_self (p ∷ ps) after)
contains-at sub (c ∷ before) after =
    or_right (starts_with sub (c ∷ (before ++ (sub ++ after)))) _ (contains-at sub before after)

pub contains-Outside : (sub s : Text) → contains sub s ≡ false → ¬ Inside sub s
contains-Outside sub s h (before, after, e) =
    cc (contains-at sub before after, subst (λ t. contains sub t ≡ false) e h)

pub or-false : (b c : Bool) → (b || c) ≡ false → (b ≡ false) × (c ≡ false)
or-false true c h = absurd (cc h)
or-false false c h = (refl, h)
