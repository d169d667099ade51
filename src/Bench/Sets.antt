-- ===== src/Bench/Sets.antt =====
-- `compare_sets`, the comparison of address sets in `cmd_verify` of tools/bench.py.
use ifs_hil.Prelude.{
  ℕ, ◌≡◌, refl, sym, ap, subst, ◌∙◌, ◌↔◌, inl, inr, Bool, true, false, not, ◌||◌, List, [], ◌∷◌,
  ◌++◌, if◌then◌else◌, Bool-cases, elem, ◌==◌, ==_iff,
}
use ifs_hil.Bench.Verify.{Peripheral, Problem, minus, report_if, compare_sets}

-- Two lists hold the same numbers.
abbrev pub SameSet : List ℕ → List ℕ → Type 0
SameSet a b = (x : ℕ) → elem x a ≡ elem x b

pub append-nil_iff {ℓ} : {A : Type ℓ} (xs ys : List A) → ((xs ++ ys) ≡ []) ↔ ((xs ≡ []) × (ys ≡ []))
append-nil_iff [] ys = (λ e. (refl, e), λ h. h.1)
append-nil_iff (x ∷ xs) ys = (λ e. cc, λ h. cc (h.0))

-- A list with no element outside another.
abbrev Within : List ℕ → List ℕ → Type 0
Within a b = (x : ℕ) → elem x a ≡ true → elem x b ≡ true

minus-cons : (y : ℕ) (a b : List ℕ) → elem y b ≡ true → minus (y ∷ a) b ≡ minus a b
minus-cons y a b h = ap (λ t. if not t then y ∷ minus a b else minus a b) h

minus-cons_out : (y : ℕ) (a b : List ℕ) → elem y b ≡ false → minus (y ∷ a) b ≡ y ∷ minus a b
minus-cons_out y a b h = ap (λ t. if not t then y ∷ minus a b else minus a b) h

elem-head : (y : ℕ) (a : List ℕ) → elem y (y ∷ a) ≡ true
elem-head y a = ap (λ t. t || elem y a) ((==_iff y y).1 refl)

elem-tail : (x y : ℕ) (a : List ℕ) → elem x a ≡ true → elem x (y ∷ a) ≡ true
elem-tail x y a h = or-true (y == x) (elem x a) h
  where
    or-true : (b c : Bool) → c ≡ true → (b || c) ≡ true
    or-true true c h = refl
    or-true false c h = h

minus-Within : (a b : List ℕ) → minus a b ≡ [] → Within a b
minus-Within [] b h x m = cc
minus-Within (y ∷ a) b h x m = elim (Bool-cases (elem y b)) [
  | inl i ↦ elim (Bool-cases (y == x)) [
    | inl e ↦ subst (λ z. elem z b ≡ true) ((==_iff y x).0 e) i
    | inr n ↦
        minus-Within a b (sym (minus-cons y a b i) ∙ h) x (sym (ap (λ t. t || elem x a) n) ∙ m)
  ]
  | inr o ↦ absurd (cc (minus-cons_out y a b o, h))
]

Within-minus : (a b : List ℕ) → Within a b → minus a b ≡ []
Within-minus [] b h = refl
Within-minus (y ∷ a) b h =
    minus-cons y a b (h y (elem-head y a)) ∙ Within-minus a b (λ x m. h x (elem-tail x y a m))

Within-both : (a b : List ℕ) → Within a b → Within b a → SameSet a b
Within-both a b h k x = elim (Bool-cases (elem x a)) [
  | inl i ↦ i ∙ sym (h x i)
  | inr o ↦ elim (Bool-cases (elem x b)) [ inl i ↦ absurd (cc (o, k x i)) | inr p ↦ o ∙ sym p ]
]

report_if-nil : (xs : List ℕ) (p : Problem) → (report_if xs p ≡ []) ↔ (xs ≡ [])
report_if-nil [] p = (λ e. refl, λ e. refl)
report_if-nil (x ∷ xs) p = (λ e. cc, λ e. cc)

pub compare_sets-nil : (key : Peripheral) (a b : List ℕ) → (compare_sets key a b ≡ []) ↔ SameSet a b
unfolding compare_sets
compare_sets-nil key a b = (
  (λ e.
      let h = (append-nil_iff (report_if (minus a b) _) _).0 e in
      Within-both a b (minus-Within a b ((report_if-nil (minus a b) _).0 h.0))
        (minus-Within b a ((report_if-nil (minus b a) _).0 h.1))),
  (λ s. (append-nil_iff (report_if (minus a b) _) _).1 (
    (report_if-nil (minus a b) _).1 (Within-minus a b (λ x m. sym (s x) ∙ m)),
    (report_if-nil (minus b a) _).1 (Within-minus b a (λ x m. s x ∙ m)),
  )),
)
