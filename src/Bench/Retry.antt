-- ===== src/Bench/Retry.antt =====
-- The DEVID retry loop of `probe` in tools/bench.py.
use ifs_hil.Prelude.{
  ℕ, zero, suc, ◌+◌, ◌≤◌, ◌≡◌, ◌≢◌, refl, sym, ap, subst, ◌∙◌, ◌↔◌, ◌⊎◌, inl, inr, Bool, true,
  false, not, ◌&&◌, [], ◌∷◌, Option, none, some, arith, if◌then◌else◌, Bool-cases, Option-cases,
  ==_iff, ltb,
}
use ifs_hil.Bench.Probe.{
  DacRead, dac_devid_expected, dac_devid_retries, again, is_expected, retry, first_read, read_dac,
}

ltb-cases : (n m : ℕ) → (suc n ≤ m) ⊎ (m ≤ n)
ltb-cases n m = elim (Bool-cases (ltb n m)) [
  | inl h ↦ inl (ground (arith, h))
  | inr h ↦ inr (ground (arith, h))
]

antisym : (n m : ℕ) → n ≤ m → m ≤ n → n ≡ m
antisym n m h k = omega (arith, h, k)

-- Some read before the number n has answered the expected identifier.
abbrev pub Answered : (ℕ → Option ℕ) → ℕ → Type 0
Answered read zero = ⊥
Answered read (suc n) = Answered read n ⊎ (read n ≡ some dac_devid_expected)

Answered-le : (read : ℕ → Option ℕ) (n m : ℕ) → n ≤ m → Answered read n → Answered read m
Answered-le read zero m le h = absurd h
Answered-le read (suc n) zero le h = absurd (omega (arith, le))
Answered-le read (suc n) (suc m) le (inl before) =
    inl (Answered-le read n m (omega (arith, le)) before)
Answered-le read (suc n) (suc m) le (inr now) = elim (ltb-cases n m) [
  | inl lt ↦ inl (Answered-le read (suc n) m lt (inr now))
  | inr ge ↦
      inr (subst (λ k. read k ≡ some dac_devid_expected) (antisym n m (omega (arith, le)) ge) now)
]

-- The identifier held after n reads is the expected one exactly when one of them answered it.
abbrev IsTold : (ℕ → Option ℕ) → DacRead → Type 0
IsTold read r = (r.dev_id ≡ dac_devid_expected) ↔ Answered read r.attempts

none-some {ℓ} : {A : Type ℓ} {v : A} → none ≡ some v → ⊥
none-some e = cc

some-some {ℓ} : {A : Type ℓ} {v w : A} → some v ≡ some w → v ≡ w
some-some e = cc

IsTold-again :
    (read : ℕ → Option ℕ) (r : DacRead)
    → r.dev_id ≢ dac_devid_expected
    → IsTold read r
    → IsTold read (again r (read r.attempts))
IsTold-again read r ne told = elim (Option-cases (read r.attempts)) [
  | inl e ↦
      subst (λ o. IsTold read (again r o)) (sym e)
        (
          (λ h. absurd (ne h)),
          (λ a. elim a [ inl before ↦ told.1 before | inr now ↦ absurd (none-some (sym e ∙ now)) ]),
        )
  | inr (v, e) ↦
      subst (λ o. IsTold read (again r o)) (sym e)
        (
          (λ h. inr (e ∙ ap some h)),
          (λ a. elim a [
            | inl before ↦ absurd (ne (told.1 before))
            | inr now ↦ some-some (sym e ∙ now)
          ]),
        )
]

-- What the loop leaves, for reads that go on to the last retry.
abbrev IsSettled : (ℕ → Option ℕ) → DacRead → Type 0
IsSettled read r =
    ((r.dev_id ≡ dac_devid_expected) ↔ Answered read dac_devid_retries)
    × (r.attempts ≤ dac_devid_retries)

again-attempts : (r : DacRead) (o : Option ℕ) → (again r o).attempts ≡ suc r.attempts
again-attempts r none = refl
again-attempts r (some v) = refl

IsSettled-expected :
    (read : ℕ → Option ℕ) (r : DacRead)
    → r.attempts ≤ dac_devid_retries
    → r.dev_id ≡ dac_devid_expected
    → IsTold read r
    → IsSettled read r
IsSettled-expected read r le h told =
    ((λ _. Answered-le read r.attempts dac_devid_retries le (told.0 h), λ _. h), le)

IsSettled-attempts :
    (read : ℕ → Option ℕ) (r : DacRead)
    → r.attempts ≡ dac_devid_retries
    → IsTold read r
    → IsSettled read r
IsSettled-attempts read r e told =
    (subst (λ n. (r.dev_id ≡ dac_devid_expected) ↔ Answered read n) e told, omega (arith, e))

not_lt : (n : ℕ) → ltb n dac_devid_retries ≡ false → dac_devid_retries ≤ n
not_lt n h = ground (arith, h)

again_le :
    (r : DacRead) (o : Option ℕ)
    → ltb r.attempts dac_devid_retries ≡ true
    → (again r o).attempts ≤ dac_devid_retries
again_le r none h = ground (arith, h)
again_le r (some v) h = ground (arith, h)

not_expected : (r : DacRead) → is_expected r ≡ false → r.dev_id ≢ dac_devid_expected
not_expected r h e = cc (h, (==_iff _ _).1 e)

abbrev goes_on : DacRead → Bool
goes_on r = not (is_expected r) && ltb r.attempts dac_devid_retries

goes_on-true : (a b : Bool) → (not a && b) ≡ true → (a ≡ false) × (b ≡ true)
goes_on-true true b h = cc
goes_on-true false b h = (refl, h)

goes_on-false : (a b : Bool) → (not a && b) ≡ false → (a ≡ true) ⊎ (b ≡ false)
goes_on-false true b h = inl refl
goes_on-false false b h = inr h

retry-IsSettled :
    (fuel : ℕ) (read : ℕ → Option ℕ) (r : DacRead)
    → dac_devid_retries ≤ fuel + r.attempts
    → r.attempts ≤ dac_devid_retries
    → IsTold read r
    → IsSettled read (retry fuel read r)
unfolding retry
retry-IsSettled zero read r en le told =
    IsSettled-attempts read r (antisym r.attempts dac_devid_retries le (omega (arith, en))) told
retry-IsSettled (suc fuel) read r en le told =
    let next = again r (read r.attempts) in
    let out = λ (b : Bool). IsSettled read (if b then retry fuel read next else r) in
    elim (Bool-cases (goes_on r)) [
      | inl h ↦ subst out (sym h) (
          retry-IsSettled fuel read next (omega (arith, en, again-attempts r (read r.attempts)))
            (again_le r (read r.attempts) (goes_on-true (is_expected r) _ h).1)
            (IsTold-again read r (not_expected r (goes_on-true (is_expected r) _ h).0) told))
      | inr h ↦ subst out (sym h) (elim (goes_on-false (is_expected r) _ h) [
        | inl e ↦ IsSettled-expected read r le ((==_iff _ _).0 e) told
        | inr ge ↦
            IsSettled-attempts read r
              (antisym r.attempts dac_devid_retries le (not_lt r.attempts ge)) told
      ])
    ]

IsTold-first :
    (idx v : ℕ) (read : ℕ → Option ℕ)
    → read 0 ≡ some v
    → IsTold read (record { idx = idx; dev_id = v; attempts = 1; seen = v ∷ [] })
IsTold-first idx v read e = (
  (λ h. inr (e ∙ ap some h)),
  (λ a. elim a [ inl before ↦ absurd before | inr now ↦ some-some (sym e ∙ now) ]),
)

first-IsSettled :
    (idx : ℕ) (read : ℕ → Option ℕ) (o : Option ℕ) (r : DacRead)
    → read 0 ≡ o
    → first_read idx read o ≡ some r
    → IsSettled read r
first-IsSettled idx read none r e h = absurd (none-some h)
first-IsSettled idx read (some v) r e h = subst (IsSettled read) (some-some h) (
    retry-IsSettled dac_devid_retries read _ (omega arith) (omega arith)
      (IsTold-first idx v read e))

-- A DAC whose first read is answered is read at most three times, and ends with the expected
-- identifier exactly when one of the first three reads answers it: one bad transaction is not a bad
-- DAC, and a DAC is bad only when no attempt reads right.
pub read_dac-settled :
    (idx : ℕ) (read : ℕ → Option ℕ) (r : DacRead)
    → read_dac idx read ≡ some r
    → ((r.dev_id ≡ dac_devid_expected) ↔ Answered read dac_devid_retries)
      × (r.attempts ≤ dac_devid_retries)
unfolding read_dac
read_dac-settled idx read r h = first-IsSettled idx read (read 0) r refl h
