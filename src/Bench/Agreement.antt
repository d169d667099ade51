-- ===== src/Bench/Agreement.antt =====
-- When `cmd_verify` of tools/bench.py has nothing to report: the live bench against its descriptor.
use ifs_hil.Prelude.{
  ℕ, ◌≡◌, refl, sym, ap, subst, ◌∙◌, ◌↔◌, inl, inr, Bool, true, false, not, ◌&&◌, List, [], ◌∷◌,
  ◌++◌, map, Option, none, some, arith, Option-cases, All, ◌==◌,
}
use ifs_hil.Prelude.Text.{Text, lit, among}
use ifs_hil.Bench.Desc.{Desc, CanSpec, Expect, Route}
use ifs_hil.Bench.Probe.{Live, Found, Client, probe}
use ifs_hil.Bench.Sets.{SameSet, append-nil_iff, compare_sets-nil}
use ifs_hil.Bench.Verify.{
  ina, tca, dac, Problem, no_radio, when, compare_nrf24, dac_problems, find_live, both,
  link_problems, can_problems, problems, exit_code, verify_expect, verify,
}

abbrev pub Flag : Option Bool → Bool → Type 0
Flag none got = Unit
Flag (some want) got = want ≡ got

-- A relation of two values, if both are given.
abbrev pub Both : Option ℕ → Option ℕ → (ℕ → ℕ → Type 0) → Type 0
Both none b R = Unit
Both (some a) none R = Unit
Both (some a) (some b) R = R a b

-- A declared CAN interface is on the host, at the declared bitrate, its sample point not far from the declared.
abbrev pub Carries : (ℕ → ℕ → Bool) → List Live → CanSpec → Type 0
Carries far lives spec =
    (live : Live) × (find_live spec.dev lives ≡ some live)
    × Both spec.bitrate live.bitrate (λ a b. a ≡ b)
    × Both spec.sample_point live.sample_point (λ a b. far a b ≡ false)

pub record Agrees (far : ℕ → ℕ → Bool) (desc : Desc) (expect : Expect) (found : Found)
    : Type 0 where
  pub same_ina : SameSet expect.ina found.ina
  pub same_tca : SameSet expect.tca found.tca
  pub same_dac : SameSet expect.dac (map (λ r. r.idx) found.dac)
  pub same_nrf24 : Flag expect.nrf24 found.nrf24
  pub devids : found.dac_bad_devid ≡ []
  pub radio : (among (lit "radio-nrf24") desc.capabilities && not found.nrf24) ≡ false
  pub links : All (Carries far found.can) desc.can

when-nil : (b : Bool) (p : Problem) → (when b p ≡ []) ↔ (b ≡ false)
when-nil true p = (λ e. cc, λ e. cc)
when-nil false p = (λ e. refl, λ e. refl)

compare_nrf24-nil :
    (want : Option Bool) (got : Bool) → (compare_nrf24 want got ≡ []) ↔ Flag want got
compare_nrf24-nil none got = (λ e. tt, λ e. refl)
compare_nrf24-nil (some true) true = (λ e. refl, λ e. refl)
compare_nrf24-nil (some true) false = (λ e. cc, λ e. cc)
compare_nrf24-nil (some false) true = (λ e. cc, λ e. cc)
compare_nrf24-nil (some false) false = (λ e. refl, λ e. refl)

dac_problems-nil :
    (caps : List Text) (routing : List Route) (bad : List ℕ)
    → (dac_problems caps routing bad ≡ []) ↔ (bad ≡ [])
unfolding dac_problems
dac_problems-nil caps routing [] = (λ e. refl, λ e. refl)
dac_problems-nil caps routing (i ∷ bad) = (λ e. cc, λ e. cc)

bitrate-Both : (a b : Option ℕ) → (both a b (λ x y. not (x == y)) ≡ false) ↔ Both a b (λ x y. x ≡ y)
bitrate-Both none b = (λ e. tt, λ e. refl)
bitrate-Both (some a) none = (λ e. tt, λ e. refl)
bitrate-Both (some a) (some b) = (λ e. ground (arith, e), λ e. ground (arith, e))

sample_point-Both :
    (far : ℕ → ℕ → Bool) (a b : Option ℕ)
    → (both a b far ≡ false) ↔ Both a b (λ x y. far x y ≡ false)
sample_point-Both far none b = (λ e. tt, λ e. refl)
sample_point-Both far (some a) none = (λ e. tt, λ e. refl)
sample_point-Both far (some a) (some b) = (λ e. e, λ e. e)

-- The bit rate and the sample point of a link agree with those declared.
abbrev Timed : (ℕ → ℕ → Bool) → CanSpec → Live → Type 0
Timed far spec live =
    Both spec.bitrate live.bitrate (λ a b. a ≡ b)
    × Both spec.sample_point live.sample_point (λ a b. far a b ≡ false)

some_live-nil :
    (far : ℕ → ℕ → Bool) (spec : CanSpec) (live : Live)
    → (link_problems far spec (some live) ≡ []) ↔ Timed far spec live
some_live-nil far spec live =
    let rate = both spec.bitrate live.bitrate (λ a b. not (a == b)) in
    let point = both spec.sample_point live.sample_point far in
    (
      (λ e.
          let h = (append-nil_iff (when rate _) _).0 e in
          (
            (bitrate-Both _ _).0 ((when-nil rate _).0 h.0),
            (sample_point-Both far _ _).0 ((when-nil point _).0 h.1),
          )),
      (λ t. (append-nil_iff (when rate _) _).1 (
        (when-nil rate _).1 ((bitrate-Both _ _).1 t.0),
        (when-nil point _).1 ((sample_point-Both far _ _).1 t.1),
      )),
    )

link_problems-nil :
    (far : ℕ → ℕ → Bool) (spec : CanSpec) (lives : List Live)
    → (link_problems far spec (find_live spec.dev lives) ≡ []) ↔ Carries far lives spec
link_problems-nil far spec lives = (
  (λ e. elim (Option-cases (find_live spec.dev lives)) [
    | inl n ↦ absurd (cc (e, ap (link_problems far spec) n))
    | inr (live, f) ↦
        let t = (some_live-nil far spec live).0 (sym (ap (link_problems far spec) f) ∙ e) in
        (live, f, t.0, t.1)
  ]),
  (λ c. ap (link_problems far spec) c.1 ∙ (some_live-nil far spec c.0).1 (c.2, c.3)),
)

can_problems-nil :
    (far : ℕ → ℕ → Bool) (specs : List CanSpec) (lives : List Live)
    → (can_problems far specs lives ≡ []) ↔ All (Carries far lives) specs
unfolding can_problems
can_problems-nil far [] lives = (λ e. tt, λ e. refl)
can_problems-nil far (spec ∷ specs) lives =
    let here = link_problems far spec (find_live spec.dev lives) in
    (
      (λ e.
          let h = (append-nil_iff here _).0 e in
          ((link_problems-nil far spec lives).0 h.0, (can_problems-nil far specs lives).0 h.1)),
      (λ a.
          (append-nil_iff here _).1
            ((link_problems-nil far spec lives).1 a.0, (can_problems-nil far specs lives).1 a.1)),
    )

-- Lists that are all empty.
module _ {ℓ} {A : Type ℓ} where
  append-nil_to :
      {xs ys : List A} {P Q : Type 0} → (xs ≡ []) ↔ P → (ys ≡ []) ↔ Q → ((xs ++ ys) ≡ []) ↔ (P × Q)
  append-nil_to {xs} {ys} f g = (
    (λ e. (f.0 ((append-nil_iff xs ys).0 e).0, g.0 ((append-nil_iff xs ys).0 e).1)),
    (λ h. (append-nil_iff xs ys).1 (f.1 h.0, g.1 h.1)),
  )

-- The probe gives no problem exactly when the bench agrees with the descriptor in every respect: the
-- same INA, TCA and DAC sets, the declared nRF24 flag, no DAC with a wrong identifier, a radio if the
-- capability is declared, and every CAN link present with its bit rate and sample point.
pub problems-Agrees :
    (far : ℕ → ℕ → Bool) (desc : Desc) (expect : Expect) (found : Found)
    → (problems far desc expect found ≡ []) ↔ Agrees far desc expect found
unfolding problems
problems-Agrees far desc expect found =
    let all = append-nil_to (compare_sets-nil ina expect.ina found.ina) (
      append-nil_to (compare_sets-nil tca expect.tca found.tca) (
        append-nil_to (compare_sets-nil dac expect.dac (map (λ r. r.idx) found.dac)) (
          append-nil_to (compare_nrf24-nil expect.nrf24 found.nrf24) (
            append-nil_to (dac_problems-nil desc.capabilities desc.routing found.dac_bad_devid) (
              append-nil_to
                (when-nil (among (lit "radio-nrf24") desc.capabilities && not found.nrf24) no_radio)
                (can_problems-nil far desc.can found.can)))))) in
    (
      (λ e.
          let (i, (t, (d, (n, (b, (r, l)))))) = all.0 e in
          record {
            same_ina = i;
            same_tca = t;
            same_dac = d;
            same_nrf24 = n;
            devids = b;
            radio = r;
            links = l;
          }),
      (λ a.
          all.1 (
            a.same_ina,
            (a.same_tca, (a.same_dac, (a.same_nrf24, (a.devids, (a.radio, a.links))))),
          )),
    )

exit_code-zero : (ps : List Problem) → (exit_code ps ≡ 0) ↔ (ps ≡ [])
exit_code-zero [] = (λ e. refl, λ e. refl)
exit_code-zero (p ∷ ps) = (λ e. absurd (omega (arith, e)), λ e. cc)

abbrev Passes : (ℕ → ℕ → Bool) → Desc → Found → Option Expect → Type 0
Passes far desc found o = (expect : Expect) × (o ≡ some expect) × Agrees far desc expect found

verify_expect-Passes :
    (far : ℕ → ℕ → Bool) (desc : Desc) (found : Found) (o : Option Expect)
    → (verify_expect far desc found o ≡ 0) ↔ Passes far desc found o
verify_expect-Passes far desc found none = (λ e. absurd (omega (arith, e)), λ h. absurd (cc (h.1)))
verify_expect-Passes far desc found (some expect) = (
  (λ e. (expect, refl, (problems-Agrees far desc expect found).0 ((exit_code-zero _).0 e))),
  (λ h. (exit_code-zero (problems far desc expect found)).1 (
      (problems-Agrees far desc expect found).1
        (subst (λ x. Agrees far desc x found) (cc (h.1)) h.2))),
)

-- The command exits with 0 exactly when there is an `expect` block and the bench that the probe finds
-- agrees with it, sample points compared as the floats of the host compare.
pub verify-Agrees :
    (far : ℕ → ℕ → Bool) (desc : Desc) (client : Client)
    → (verify far desc client ≡ 0)
      ↔ ((expect : Expect) × (desc.expect ≡ some expect) × Agrees far desc expect (probe client))
unfolding verify
verify-Agrees far desc client = verify_expect-Passes far desc (probe client) desc.expect
