-- ===== src/Observer/Queries.antt =====
-- What the queries of tools/firmware_test/can_observer.py select.
use ifs_hil.Prelude.{
  ℕ, ◌-◌, ◌≤◌, ◌≡◌, refl, sym, ap, subst, ◌∙◌, suc, ◌<◌, ◌||◌, Bool, true, false, ◌&&◌, List, [],
  ◌∷◌, Option, none, some, if◌then◌else◌, length, keep, leb, ltb, ◌==◌, max, elem, All, Bool-cases,
  inl, inr, arith,
}
use ifs_hil.Prelude.Every.{All-weaken}
use ifs_hil.Observer.{
  Captured, same_flag, since_of, with_id, with_flag, frames, deltas, largest, max_period,
}

-- The three tests of a query, each of which may be left out.
abbrev passes_since : Option ℕ → Captured → Bool
passes_since none f = true
passes_since (some t) f = leb t f.timestamp

abbrev passes_id : Option ℕ → Captured → Bool
passes_id none f = true
passes_id (some i) f = f.can_id == i

abbrev passes_flag : Option Bool → Captured → Bool
passes_flag none f = true
passes_flag (some e) f = same_flag f.is_extended_id e

abbrev pub fits : Option ℕ → Option Bool → Option ℕ → Captured → Bool
fits can_id extended since f =
    passes_since since f && (passes_id can_id f && passes_flag extended f)

keep-all : (fs : List Captured) → fs ≡ keep (λ f. true) fs
keep-all [] = refl
keep-all (f ∷ fs) = ap (λ gs. f ∷ gs) (keep-all fs)

keep-keep :
    (p q : Captured → Bool) (fs : List Captured) → keep q (keep p fs) ≡ keep (λ f. p f && q f) fs
keep-keep p q [] = refl
keep-keep p q (f ∷ fs) = elim (Bool-cases (p f)) [
  | inl e ↦ rw (e, keep-keep p q fs) refl
  | inr e ↦ rw e (keep-keep p q fs)
]

since_of-keep :
    (since : Option ℕ) (fs : List Captured) → since_of since fs ≡ keep (passes_since since) fs
since_of-keep none fs = keep-all fs
since_of-keep (some t) fs = refl

with_id-keep :
    (can_id : Option ℕ) (fs : List Captured) → with_id can_id fs ≡ keep (passes_id can_id) fs
with_id-keep none fs = keep-all fs
with_id-keep (some i) fs = refl

with_flag-keep :
    (extended : Option Bool) (fs : List Captured)
    → with_flag extended fs ≡ keep (passes_flag extended) fs
with_flag-keep none fs = keep-all fs
with_flag-keep (some e) fs = refl

frames-keep :
    (can_id : Option ℕ) (extended : Option Bool) (since : Option ℕ) (fs : List Captured)
    → frames can_id extended since fs ≡ keep (fits can_id extended since) fs
unfolding frames
frames-keep can_id extended since fs =
    with_flag-keep extended (with_id can_id (since_of since fs))
    ∙ ap (keep (passes_flag extended)) (
        with_id-keep can_id (since_of since fs)
        ∙ ap (keep (passes_id can_id)) (since_of-keep since fs))
    ∙ keep-keep (passes_id can_id) (passes_flag extended) (keep (passes_since since) fs)
    ∙ keep-keep (passes_since since) (λ f. passes_id can_id f && passes_flag extended f) fs

-- The largest of some numbers is one of them, and none is above it.
pub record IsLargest (ds : List ℕ) (m : ℕ) : Type 0 where
  pub bounds : All (λ d. d ≤ m) ds
  pub attained : elem m ds ≡ true

larger_left : (d m : ℕ) → leb m d ≡ true → max d m ≡ d
larger_left d m h = ground (arith, h)

larger_right : (d m : ℕ) → leb m d ≡ false → max d m ≡ m
larger_right d m h = ground (arith, h)

or-right : (a b : Bool) → b ≡ true → (a || b) ≡ true
or-right true b h = refl
or-right false b h = h

elem-max :
    (d e : ℕ) (ds : List ℕ) (m : ℕ) → elem m (e ∷ ds) ≡ true → elem (max d m) (d ∷ e ∷ ds) ≡ true
elem-max d e ds m h = elim (Bool-cases (leb m d)) [
  | inl t ↦ subst (λ x. elem x (d ∷ e ∷ ds) ≡ true) (sym (larger_left d m t)) (ground arith)
  | inr t ↦
      subst (λ x. elem x (d ∷ e ∷ ds) ≡ true) (sym (larger_right d m t)) (or-right (d == m) _ h)
]

largest-IsLargest :
    (d : ℕ) (ds : List ℕ) → (m : ℕ) × (largest (d ∷ ds) ≡ some m) × IsLargest (d ∷ ds) m
largest-IsLargest d [] = (d, refl, record { bounds = (omega arith, tt); attained = ground arith })
largest-IsLargest d (e ∷ ds) =
    let r = largest-IsLargest e ds in
    (
      max d r.0,
      rw (r.1) refl,
      record {
        bounds = (omega arith, All-weaken _ _ (e ∷ ds) (λ x h. omega (arith, h)) r.2.bounds);
        attained = elem-max d e ds r.0 r.2.attained;
      },
    )

-- The period of the frames that a query selects.
period_of :
    (sel : List Captured)
    → (length sel < 2 → (if ltb (length sel) 2 then none else largest (deltas sel)) ≡ none)
      × (2 ≤ length sel
          → (m : ℕ) × ((if ltb (length sel) 2 then none else largest (deltas sel)) ≡ some m)
            × IsLargest (deltas sel) m)
period_of [] = (λ h. refl, λ h. absurd (omega (arith, h)))
period_of (f ∷ []) = (λ h. refl, λ h. absurd (omega (arith, h)))
period_of (f ∷ g ∷ fs) =
    let long : ltb (suc (suc (length fs))) 2 ≡ false = ground arith in
    (
      λ h. absurd (omega (arith, h)),
      λ h. rw long (largest-IsLargest (g.timestamp - f.timestamp) (deltas (g ∷ fs))),
    )

-- The longest period that is reported for an identifier is that of the captured frames with the identifier,
-- the flag and a time stamp since the given one, in the order of their capture: none for fewer than
-- two of them, else the largest difference of two that follow each other.
max_period-IsLargest :
    (can_id : ℕ) (extended : Bool) (since : Option ℕ) (fs : List Captured)
    → (length (keep (fits (some can_id) (some extended) since) fs) < 2
        → max_period can_id extended since fs ≡ none)
      × (2 ≤ length (keep (fits (some can_id) (some extended) since) fs)
          → (m : ℕ) × (max_period can_id extended since fs ≡ some m)
            × IsLargest (deltas (keep (fits (some can_id) (some extended) since) fs)) m)
unfolding max_period
max_period-IsLargest can_id extended since fs =
    rw (frames-keep (some can_id) (some extended) since fs)
      (period_of (keep (fits (some can_id) (some extended) since) fs))
