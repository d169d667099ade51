-- ===== src/Bench/Pinout.antt =====
-- The line of a pin that `doctor_checks` of tools/bench.py finds in what pinctrl prints.
use ifs_hil.Prelude.{
  ℕ, ◌≡◌, ◌≢◌, refl, sym, ap, ◌∙◌, subst, ◌↔◌, Bool, true, false, ◌&&◌, List, [], ◌∷◌, ◌++◌, All,
  ◌⊎◌, inl, inr, ◌==◌, ==_iff, Bool-cases, arith,
}
use ifs_hil.Prelude.Text.{Text, lit, same, same_iff, strip, contains, is_empty}
use ifs_hil.Prelude.Inside.{contains-at}
use ifs_hil.Bench.Host.{before_colon, is_line_of, line_of, or_text}
use ifs_hil.Bench.Documented.{IsLineOf, Shows}

and_true : (a b : Bool) → (a && b) ≡ true → (a ≡ true) × (b ≡ true)
and_true true b h = (refl, h)
and_true false b h = absurd (cc h)

differ : (c : ℕ) → c ≢ b':' → (c == b':') ≡ false
differ c ne = elim (Bool-cases (c == b':')) [
  | inl e ↦ absurd (ne ((==_iff c b':').0 e))
  | inr e ↦ e
]

before_colon_lem :
    (t : Text)
    → contains (lit ":") t ≡ true
    → (a : Text) × (t ≡ before_colon t ++ (b':' ∷ a)) × All (λ c. c ≢ b':') (before_colon t)
before_colon_lem [] h = absurd (cc h)
before_colon_lem (c ∷ s) h = elim (Bool-cases (c == b':')) [
  | inl e ↦ rw e (s, ap (λ d. d ∷ s) ((==_iff c b':').0 e), tt)
  | inr e ↦
      let later : contains (lit ":") s ≡ true = ground (arith, h, e) in
      let r = before_colon_lem s later in
      rw e (r.0, ap (λ u. c ∷ u) r.1, ((λ p. cc (e, (==_iff c b':').1 p)), r.2))
]

before_colon-at : (k a : Text) → All (λ c. c ≢ b':') k → before_colon (k ++ (b':' ∷ a)) ≡ k
before_colon-at [] a h = refl
before_colon-at (c ∷ k) a h =
    let e : (c == b':') ≡ false = differ c h.0 in rw e (ap (λ u. c ∷ u) (before_colon-at k a h.1))

module _ (pin : Text) where
  is_line_of-IsLineOf : (t : Text) → is_line_of pin t ≡ true → IsLineOf pin t
  is_line_of-IsLineOf t h =
      let (c, s) = and_true (contains (lit ":") t) (same pin (strip (before_colon t))) h in
      let (a, e, none) = before_colon_lem t c in
      (before_colon t, a, e, none, sym ((same_iff _ _).0 s))

  IsLineOf-is_line_of : (t : Text) → IsLineOf pin t → is_line_of pin t ≡ true
  IsLineOf-is_line_of t (k, a, e, none, p) =
      subst (λ u. is_line_of pin u ≡ true) (sym e)
        (rw (contains-at (lit ":") k a) (
          (same_iff pin (strip (before_colon (k ++ (b':' ∷ a))))).1
            (sym (ap strip (before_colon-at k a none) ∙ p))))

  or_text-line : (t u : Text) → IsLineOf pin t → or_text t u ≡ t
  or_text-line [] u ([], a, e, r, p) = absurd (cc e)
  or_text-line [] u (c ∷ k, a, e, r, p) = absurd (cc e)
  or_text-line (c ∷ t) u h = refl

  line_of-none : (ls : List Text) → All (λ l. ¬ IsLineOf pin (strip l)) ls → line_of pin ls ≡ []
  unfolding line_of
  line_of-none [] h = refl
  line_of-none (l ∷ ls) h = elim (Bool-cases (is_line_of pin (strip l))) [
    | inl e ↦ absurd (h.0 (is_line_of-IsLineOf (strip l) e))
    | inr e ↦ rw (line_of-none ls h.1, e) refl
  ]

  line_of-last :
      (before after : List Text) (line : Text)
      → IsLineOf pin (strip line)
      → All (λ l. ¬ IsLineOf pin (strip l)) after
      → line_of pin (before ++ (line ∷ after)) ≡ strip line
  unfolding line_of
  line_of-last [] after line h none =
      rw (line_of-none after none, IsLineOf-is_line_of (strip line) h) refl
  line_of-last (l ∷ before) after line h none =
      rw (line_of-last before after line h none) (or_text-line (strip line) _ h)

  -- No line is of the pin, or the last one that is has been found.
  abbrev Found : List Text → Type 0
  Found ls =
      ((line_of pin ls ≡ []) × All (λ l. ¬ IsLineOf pin (strip l)) ls)
      ⊎ ((before after : List Text) × (line : Text) × (ls ≡ before ++ (line ∷ after))
          × IsLineOf pin (strip line)
          × All (λ l. ¬ IsLineOf pin (strip l)) after)

  line_of-cases : (ls : List Text) → Found ls
  unfolding line_of
  line_of-cases [] = inl (refl, tt)
  line_of-cases (l ∷ ls) = elim (line_of-cases ls) [
    | inr (before, after, line, e, h, none) ↦
        inr (l ∷ before, after, line, ap (λ x. l ∷ x) e, h, none)
    | inl (e, none) ↦ elim (Bool-cases (is_line_of pin (strip l))) [
      | inl is ↦ inr ([], ls, l, refl, is_line_of-IsLineOf (strip l) is, none)
      | inr is ↦ inl (rw (e, is) refl, ((λ h. cc (is, IsLineOf-is_line_of (strip l) h)), none))
    ]
  ]

  -- The line that is found has the mode and the level exactly when the last line of the pin has them.
  pub Shows-iff :
      (ls : List Text) (mode level : Text)
      → is_empty mode ≡ false
      → ((contains mode (line_of pin ls) && contains level (line_of pin ls)) ≡ true)
        ↔ Shows ls pin mode level
  Shows-iff ls mode level some_mode = (
    (λ h. elim (line_of-cases ls) [
      | inl (e, none) ↦
          let (m, _) =
            and_true (is_empty mode) (is_empty level)
              (subst (λ t. (contains mode t && contains level t) ≡ true) e h) in
          absurd (cc (m, some_mode))
      | inr (before, after, line, e, is, none) ↦
          let at = ap (line_of pin) e ∙ line_of-last before after line is none in
          let (m, l) =
            and_true (contains mode (strip line)) (contains level (strip line))
              (subst (λ t. (contains mode t && contains level t) ≡ true) at h) in
          (before, after, line, e, is, none, m, l)
    ]),
    (λ h.
        let (before, after, line, e, is, none, m, l) = h in
        let at = ap (line_of pin) e ∙ line_of-last before after line is none in rw (at, m) l),
  )
