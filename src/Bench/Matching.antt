-- ===== src/Bench/Matching.antt =====
-- What `cmd_resolve` of tools/bench.py chooses, against the capabilities it was asked for.
use ifs_hil.Prelude.{
  ◌≡◌, refl, sym, subst, ◌∙◌, ◌↔◌, ◌≢◌, inl, inr, Bool, true, false, List, [], ◌∷◌, Option, none,
  some, arith, if◌then◌else◌, Bool-cases, keep, any_of, All,
}
use ifs_hil.Prelude.Text.{Text, among}
use ifs_hil.Bench.Desc.{Desc, find_bench}
use ifs_hil.Bench.Resolve.{
  Outcome, unknown_bench, lacks, nothing_asked, no_match, chosen, required, missing, satisfies,
  resolve, is_none_left, pick, pinned, by_capability,
}

-- Nothing is missing exactly when every capability is there.
missing-satisfies : (req : List Text) (d : Desc) → is_none_left (missing req d) ≡ satisfies req d
missing-satisfies [] d = refl
missing-satisfies (c ∷ req) d = elim (Bool-cases (among c d.capabilities)) [
  | inl h ↦ ground (arith, h, missing-satisfies req d)
  | inr h ↦ ground (arith, h)
]

module _ {ℓ} {A : Type ℓ} where
  All-keep : (p : A → Bool) (xs : List A) → All (λ x. p x ≡ true) (keep p xs)
  All-keep p [] = tt
  All-keep p (x ∷ xs) = elim (Bool-cases (p x)) [
    | inl h ↦
        subst (λ b. All (λ y. p y ≡ true) (if b then x ∷ keep p xs else keep p xs)) (sym h)
          (h, All-keep p xs)
    | inr h ↦
        subst (λ b. All (λ y. p y ≡ true) (if b then x ∷ keep p xs else keep p xs)) (sym h)
          (All-keep p xs)
  ]

  keep-none : (p : A → Bool) (xs : List A) → any_of p xs ≡ false → keep p xs ≡ []
  keep-none p [] h = refl
  keep-none p (x ∷ xs) h = ground (arith, h, keep-none p xs)

  none-keep : (p : A → Bool) (xs : List A) → keep p xs ≡ [] → any_of p xs ≡ false
  none-keep p [] h = refl
  none-keep p (x ∷ xs) h = ground (arith, h, none-keep p xs)

-- Python's `sorted` on benches keeps the elements.
abbrev KeepsBenches : (List Desc → List Desc) → Type 0
KeepsBenches sort = (p : Desc → Bool) (ds : List Desc) → any_of p (sort ds) ≡ any_of p ds

IsChosen : (req : List Text) → Outcome → Type 0
IsChosen req (chosen d labels cs) = (satisfies req d ≡ true) × All (λ c. satisfies req c ≡ true) cs
IsChosen req unknown_bench = Unit
IsChosen req (lacks _) = Unit
IsChosen req nothing_asked = Unit
IsChosen req no_match = Unit

module _ (sort_benches : List Desc → List Desc) (sort_names : List Text → List Text) where
  IsChosen-pick :
      (req : List Text) (ds : List Desc)
      → All (λ c. satisfies req c ≡ true) ds
      → IsChosen req (pick sort_benches sort_names ds)
  unfolding IsChosen
  IsChosen-pick req [] h = tt
  IsChosen-pick req (d ∷ ds) h = (h.0, h)

  IsChosen-pinned :
      (req : List Text) (o : Option Desc) → IsChosen req (pinned sort_benches sort_names req o)
  unfolding IsChosen
  IsChosen-pinned req none = tt
  IsChosen-pinned req (some d) = elim (Bool-cases (is_none_left (missing req d))) [
    | inl h ↦
        subst
          (λ b.
            IsChosen req
              (if b then pick sort_benches sort_names (d ∷ []) else lacks (missing req d)))
          (sym h) (IsChosen-pick req (d ∷ []) (sym (missing-satisfies req d) ∙ h, tt))
    | inr h ↦
        subst
          (λ b.
            IsChosen req
              (if b then pick sort_benches sort_names (d ∷ []) else lacks (missing req d)))
          (sym h) tt
  ]

  IsChosen-by :
      (req : List Text) (ds : List Desc)
      → IsChosen req (by_capability sort_benches sort_names req ds)
  unfolding IsChosen
  IsChosen-by [] ds = tt
  IsChosen-by (c ∷ req) ds =
      IsChosen-pick (c ∷ req) _ (All-keep (satisfies (c ∷ req)) (sort_benches ds))

  -- Whether the bench is pinned or found by capability, a bench that is chosen, and every other
  -- candidate reported with it, has all the required capabilities.
  pub resolve-chosen :
      (caps bench : Text) (benches : List Desc) (d : Desc) (labels : List Text) (cs : List Desc)
      → resolve sort_benches sort_names caps bench benches ≡ chosen d labels cs
      → (satisfies (required caps) d ≡ true) × All (λ c. satisfies (required caps) c ≡ true) cs
  unfolding resolve IsChosen
  resolve-chosen caps [] benches d labels cs e =
      subst (IsChosen (required caps)) e (IsChosen-by (required caps) benches)
  resolve-chosen caps (c ∷ bench) benches d labels cs e =
      subst (IsChosen (required caps)) e
        (IsChosen-pinned (required caps) (find_bench (c ∷ bench) benches))

  pick-no_match : (ds : List Desc) → (pick sort_benches sort_names ds ≡ no_match) ↔ (ds ≡ [])
  pick-no_match [] = (λ e. refl, λ e. refl)
  pick-no_match (d ∷ ds) = (λ e. cc, λ e. cc)

  by_capability-no_match :
      KeepsBenches sort_benches
      → (req : List Text) (benches : List Desc)
      → (by_capability sort_benches sort_names req benches ≡ no_match)
        ↔ ((req ≢ []) × (any_of (satisfies req) benches ≡ false))
  by_capability-no_match keeps [] benches = (λ e. cc, λ h. absurd (h.0 refl))
  by_capability-no_match keeps (c ∷ req) benches =
      let p = satisfies (c ∷ req) in
      (
        λ e. (
          λ n. cc,
          sym (keeps p benches) ∙ none-keep p (sort_benches benches) ((pick-no_match _).0 e),
        ),
        λ h. (pick-no_match _).1 (keep-none p (sort_benches benches) (keeps p benches ∙ h.1)),
      )

  -- With a sort that keeps the elements, an unpinned request ends without a match exactly when it asks
  -- for some capability and no bench has all that it asks for.
  resolve-no_match :
      (keeps : (p : Desc → Bool) (ds : List Desc) → any_of p (sort_benches ds) ≡ any_of p ds)
      (caps : Text) (benches : List Desc)
      → (resolve sort_benches sort_names caps [] benches ≡ no_match)
        ↔ ((required caps ≢ []) × (any_of (satisfies (required caps)) benches ≡ false))
  unfolding resolve
  resolve-no_match keeps caps benches = by_capability-no_match keeps (required caps) benches
