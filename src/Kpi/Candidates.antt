-- ===== src/Kpi/Candidates.antt =====
-- Which tests scripts/hil_kpi_report.py names as regressions and as flakes.
use ifs_hil.Prelude.{
  ℕ, ◌+◌, ◌≤◌, ◌≡◌, refl, sym, ◌∙◌, ap, Bool, true, false, ◌&&◌, ◌||◌, List, [], ◌∷◌, ◌++◌,
  if◌then◌else◌, length, ltb, leb, ◌==◌, Bool-cases, inl, inr, arith,
}
use ifs_hil.Prelude.Text.{Text, same, same_iff, among}
use ifs_hil.Kpi.{
  Session, text_lt, sort_by, insert_by, Outcomes, add_hit, add_hits, outcomes_from, names_with,
  is_flaky, is_regressed, regression_candidates, flake_candidates,
}

-- How often a name stands in a list.
abbrev pub occurrences : Text → List Text → ℕ
occurrences n [] = 0
occurrences n (m ∷ ms) = (if same m n then 1 else 0) + occurrences n ms

-- How often a test failed or errored over all sessions.
abbrev pub hits_of : Text → List Session → ℕ
hits_of n [] = 0
hits_of n (s ∷ ss) = occurrences n (s.failed_tests ++ s.errored_tests) + hits_of n ss

-- The hits that the dict has for a name.
abbrev hits_at : Text → Outcomes → ℕ
hits_at n [] = 0
hits_at n (e ∷ es) = if same e.0 n then e.1 else hits_at n es

-- A text that is the same as another compares as it does.
same-left : (a b c : Text) → same a b ≡ true → same a c ≡ same b c
same-left a b c h = ap (λ t. same t c) ((same_iff a b).0 h)

same-flip : (a b : Text) → same a b ≡ same b a
same-flip a b = elim (Bool-cases (same a b)) [
  | inl e ↦ let p : a ≡ b = (same_iff a b).0 e in e ∙ sym ((same_iff b a).1 (sym p))
  | inr e ↦ elim (Bool-cases (same b a)) [
    | inl f ↦ let t : same a b ≡ true = (same_iff a b).1 (sym ((same_iff b a).0 f)) in cc
    | inr f ↦ e ∙ sym f
  ]
]

hits_at-add_hit :
    (n m : Text) (es : Outcomes)
    → hits_at n (add_hit m es) ≡ (if same m n then 1 else 0) + hits_at n es
hits_at-add_hit n m [] = ground arith
hits_at-add_hit n m (e ∷ es) = elim (Bool-cases (same e.0 m)) [
  | inl h ↦ ground (arith, h, same-left e.0 m n h)
  | inr h ↦ elim (Bool-cases (same e.0 n)) [
    | inl k ↦
        let other : same m n ≡ false = same-flip m n ∙ sym (same-left e.0 n m k) ∙ h in
        ground (arith, h, k, other)
    | inr k ↦ ground (arith, h, k, hits_at-add_hit n m es)
  ]
]

-- Every name stands once, with at least one hit.
abbrev IsCounted : Outcomes → Type 0
IsCounted [] = Unit
IsCounted (e ∷ es) = (1 ≤ e.1) × (hits_at e.0 es ≡ 0) × IsCounted es

add_hit-IsCounted : (m : Text) (es : Outcomes) → IsCounted es → IsCounted (add_hit m es)
add_hit-IsCounted m [] c = (omega arith, refl, tt)
add_hit-IsCounted m (e ∷ es) (p, d, c) = elim (Bool-cases (same e.0 m)) [
  | inl h ↦ rw h (omega (arith, p), d, c)
  | inr h ↦
      rw h
        (p, hits_at-add_hit e.0 m es ∙ rw (same-flip m e.0 ∙ h, d) refl, add_hit-IsCounted m es c)
]

add_hits-IsCounted : (ns : List Text) (es : Outcomes) → IsCounted es → IsCounted (add_hits ns es)
add_hits-IsCounted [] es c = c
add_hits-IsCounted (n ∷ ns) es c = add_hits-IsCounted ns (add_hit n es) (add_hit-IsCounted n es c)

outcomes_from-IsCounted :
    (ss : List Session) (es : Outcomes) → IsCounted es → IsCounted (outcomes_from ss es)
outcomes_from-IsCounted [] es c = c
outcomes_from-IsCounted (s ∷ ss) es c =
    outcomes_from-IsCounted ss _ (add_hits-IsCounted (s.failed_tests ++ s.errored_tests) es c)

hits_at-add_hits :
    (n : Text) (ns : List Text) (es : Outcomes)
    → hits_at n (add_hits ns es) ≡ occurrences n ns + hits_at n es
hits_at-add_hits n [] es = omega arith
hits_at-add_hits n (m ∷ ns) es =
    omega (arith, hits_at-add_hits n ns (add_hit m es), hits_at-add_hit n m es)

hits_at-outcomes_from :
    (n : Text) (ss : List Session) (es : Outcomes)
    → hits_at n (outcomes_from ss es) ≡ hits_of n ss + hits_at n es
hits_at-outcomes_from n [] es = omega arith
hits_at-outcomes_from n (s ∷ ss) es = omega (
  arith,
  hits_at-outcomes_from n ss (add_hits (s.failed_tests ++ s.errored_tests) es),
  hits_at-add_hits n (s.failed_tests ++ s.errored_tests) es,
)

among-names_with :
    (test : ℕ → Bool) (n : Text) (es : Outcomes)
    → IsCounted es
    → among n (names_with test es) ≡ leb 1 (hits_at n es) && test (hits_at n es)
among-names_with test n [] c = refl
among-names_with test n (e ∷ es) (p, d, c) = elim (Bool-cases (same e.0 n)) [
  | inl k ↦
      let none_left : hits_at n es ≡ 0 = ap (λ m. hits_at m es) (sym ((same_iff e.0 n).0 k)) ∙ d in
      ground (arith, k, p, none_left, among-names_with test n es c)
  | inr k ↦ ground (arith, k, among-names_with test n es c)
]

among-insert_by :
    (n a : Text) (bs : List Text) → among n (insert_by text_lt a bs) ≡ same a n || among n bs
among-insert_by n a [] = refl
among-insert_by n a (b ∷ bs) = elim (Bool-cases (text_lt b a)) [
  | inl e ↦ rw (e, insert_by) (ground (arith, among-insert_by n a bs))
  | inr e ↦ rw (e, insert_by) refl
]

among-sort_by : (n : Text) (ts : List Text) → among n (sort_by text_lt ts) ≡ among n ts
among-sort_by n [] = refl
among-sort_by n (t ∷ ts) =
    among-insert_by n t (sort_by text_lt ts) ∙ ap (λ b. same t n || b) (among-sort_by n ts)

-- A test is named as a regression exactly when it failed or errored once over all the sessions, and as a
-- flake exactly when it did so at least twice and fewer times than there are sessions. So no test
-- is named as both.
pub candidates-hits_of :
    (n : Text) (ss : List Session)
    → (among n (regression_candidates ss) ≡ hits_of n ss == 1)
      × (among n (flake_candidates ss) ≡ leb 2 (hits_of n ss) && ltb (hits_of n ss) (length ss))
unfolding regression_candidates flake_candidates
candidates-hits_of n ss =
    let hits : hits_at n (outcomes_from ss []) ≡ hits_of n ss =
      omega (arith, hits_at-outcomes_from n ss []) in
    let named = λ (test : ℕ → Bool).
      among-sort_by n (names_with test (outcomes_from ss []))
      ∙ among-names_with test n (outcomes_from ss []) (outcomes_from-IsCounted ss [] tt)
      ∙ ap (λ h. leb 1 h && test h) hits in
    (named is_regressed ∙ ground arith, named (is_flaky (length ss)) ∙ ground arith)
