-- ===== src/Bench/Suite.antt =====
-- `resolve_suite` of tools/bench.py: a suite's name, or paths, to pytest targets.
use ifs_hil.Prelude.{
  ◌≡◌, sym, ap, ◌∙◌, ◌⊎◌, inl, inr, Bool, not, ◌&&◌, ◌||◌, List, [], ◌∷◌, Option, none, some,
  if◌then◌else◌, Bool-cases,
}
use ifs_hil.Prelude.Text.{Text, lit, strip, words, contains, is_empty}
use ifs_hil.Prelude.Inside.{Inside, or_cases, or-false, contains-Inside, contains-Outside}
use ifs_hil.Prelude.Result.{Result, ok, err, runtime_error}

-- A stripped spec that is a path, or a single case.
abbrev pub is_path : Text → Bool
is_path spec = not (is_empty spec) && (contains (lit "/") spec || contains (lit "::") spec)

-- `spec or "smoke"`
abbrev pub suite_name : Text → Text
suite_name [] = lit "smoke"
suite_name (c ∷ spec) = c ∷ spec

abbrev pub declared : Option (List Text) → Result (List Text)
declared none = err runtime_error
declared (some targets) = ok targets

-- `suites` are the DUT's suites by name. An unknown name exits.
unfoldable pub resolve_suite : (Text → Option (List Text)) → Text → Result (List Text)
resolve_suite suites spec =
    if is_path (strip spec)
    then ok (words (strip spec))
    else declared (suites (suite_name (strip spec)))

-- A stripped spec and its targets: the words of a path; else the targets of the declared suite of the spec's name,
-- of `smoke` for an empty spec.
abbrev pub AskedFor : (Text → Option (List Text)) → Text → List Text → Type 0
AskedFor suites [] targets = suites (lit "smoke") ≡ some targets
AskedFor suites (c ∷ spec) targets =
    ((Inside (lit "/") (c ∷ spec) ⊎ Inside (lit "::") (c ∷ spec)) × (targets ≡ words (c ∷ spec)))
    ⊎ ((¬ Inside (lit "/") (c ∷ spec))
        × (¬ Inside (lit "::") (c ∷ spec))
        × (suites (c ∷ spec) ≡ some targets))

declared-ok :
    (o : Option (List Text)) (targets : List Text) → declared o ≡ ok targets → o ≡ some targets
declared-ok none targets h = absurd (cc h)
declared-ok (some ts) targets h = cc h

asked-AskedFor :
    (suites : Text → Option (List Text)) (s : Text) (targets : List Text)
    → (if is_path s then ok (words s) else declared (suites (suite_name s))) ≡ ok targets
    → AskedFor suites s targets
asked-AskedFor suites [] targets h = declared-ok (suites (lit "smoke")) targets h
asked-AskedFor suites (c ∷ s) targets h = elim (Bool-cases (is_path (c ∷ s))) [
  | inl path ↦ inl (
    elim (or_cases (contains (lit "/") (c ∷ s)) _ path) [
      | inl slash ↦ inl (contains-Inside (lit "/") (c ∷ s) slash)
      | inr colons ↦ inr (contains-Inside (lit "::") (c ∷ s) colons)
    ],
    cc (h, ap (λ b. if b then ok (words (c ∷ s)) else declared (suites (c ∷ s))) path),
  )
  | inr name ↦
      let out = or-false (contains (lit "/") (c ∷ s)) _ name in
      inr (
        contains-Outside (lit "/") (c ∷ s) out.0,
        contains-Outside (lit "::") (c ∷ s) out.1,
        declared-ok (suites (c ∷ s)) targets
            (sym (ap (λ b. if b then ok (words (c ∷ s)) else declared (suites (c ∷ s))) name) ∙ h),
      )
]

-- A run never gets targets that it did not ask for: with the white space around the spec taken off, those of a spec
-- with "/" or "::" in it are its words; those of any other are the targets of the declared suite of that name; and
-- those of an empty spec are the targets of the suite `smoke`.
pub resolve_suite-AskedFor :
    (suites : Text → Option (List Text)) (spec : Text) (targets : List Text)
    → resolve_suite suites spec ≡ ok targets
    → AskedFor suites (strip spec) targets
unfolding resolve_suite
resolve_suite-AskedFor suites spec targets h = asked-AskedFor suites (strip spec) targets h
