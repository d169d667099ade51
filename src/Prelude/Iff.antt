-- ===== src/Prelude/Iff.antt =====
-- Equivalences put together: of tests and of lists of them.
use mathlib.Core.Path.{◌≡◌, refl}
use mathlib.Core.Logic.{◌↔◌}
use mathlib.Core.Bool.{Bool, true, false, not, ◌&&◌}
use mathlib.Core.List.{List, [], ◌∷◌, ◌++◌}
use ifs_hil.Prelude.Lists.{All, all_of}

pub negated_iff : (b : Bool) {P : Type 0} → (b ≡ true) ↔ P → (not b ≡ true) ↔ (¬ P)
negated_iff true f = (λ h. cc, λ n. absurd (n (f.0 refl)))
negated_iff false f = (λ h p. cc (f.1 p), λ n. refl)

pub and_to :
    (b : Bool) {c : Bool} {P Q : Type 0}
    → (b ≡ true) ↔ P
    → (c ≡ true) ↔ Q
    → ((b && c) ≡ true) ↔ (P × Q)
and_to true f g = (λ h. (f.0 refl, g.0 h), λ h. g.1 h.1)
and_to false f g = (λ h. cc, λ h. f.1 h.0)

-- Two equivalences side by side.
infixr 5 ◌⊗◌
pub ◌⊗◌ : {P Q R S : Type 0} → P ↔ Q → R ↔ S → (P × R) ↔ (Q × S)
f ⊗ g = (λ h. (f.0 h.0, g.0 h.1), λ h. (f.1 h.0, g.1 h.1))

pub same_to : {P : Type 0} → P ↔ P
same_to = (λ h. h, λ h. h)

module _ {A : Type 0} where
  pub all_of_iff : (p : A → Bool) (xs : List A) → (all_of p xs ≡ true) ↔ All (λ x. p x ≡ true) xs
  all_of_iff p [] = (λ h. tt, λ h. refl)
  all_of_iff p (x ∷ xs) = and_to _ same_to (all_of_iff p xs)

  pub All-append_iff : (P : A → Type 0) (xs ys : List A) → All P (xs ++ ys) ↔ (All P xs × All P ys)
  All-append_iff P [] ys = (λ h. (tt, h), λ h. h.1)
  All-append_iff P (x ∷ xs) ys =
      let rest = All-append_iff P xs ys in
      (λ h. ((h.0, (rest.0 h.1).0), (rest.0 h.1).1), λ h. (h.0.0, rest.1 (h.0.1, h.1)))
