-- ===== src/Trigger/Ladder.antt =====
-- How far tools/flash_ams_via_trigger.py goes, and what it has done when it reports success.
use ifs_hil.Prelude.{
  ℕ, zero, suc, ◌+◌, ◌≤◌, ◌≡◌, refl, ap, true, false, List, [], ◌∷◌, if◌then◌else◌, Bool-cases, inl,
  inr, arith,
}
use ifs_hil.Prelude.Result.{Result-cases, ok}
use ifs_hil.Trigger.{
  Act, discover, trigger, flash, power_cycle, World, Site, Args, Exit, code, Way, discovering,
  flashing, fall_back, after_trigger, trigger_path, main,
}

abbrev pub is_cycle : Act → ℕ
is_cycle discover = 0
is_cycle trigger = 0
is_cycle flash = 0
is_cycle power_cycle = 1

abbrev pub cycles_in : List Act → ℕ
cycles_in [] = 0
cycles_in (a ∷ acts) = is_cycle a + cycles_in acts

module _ (w : World) where
  -- The last command but one found a bootloader.
  abbrev pub Found : Site → Type 0
  Found s =
      (n : ℕ) × (t : List Act) × (s.discovered ≡ suc n)
      × (w.discovers n ≡ ok true)
      × (s.acts ≡ discover ∷ t)

  -- The last two commands are a search that found a bootloader and a flash that succeeded.
  abbrev pub Wrote : Site → Type 0
  Wrote s =
      (n : ℕ) × (m : ℕ) × (t : List Act) × (s.discovered ≡ suc n)
      × (w.discovers n ≡ ok true)
      × (s.flashed ≡ suc m)
      × (w.flashes m ≡ ok true)
      × (s.acts ≡ flash ∷ discover ∷ t)

  -- From a state, a way ends after at most so many power cycles, and with 0 only when it wrote.
  pub record Ends (k : ℕ) (s : Site) (r : Exit × Site) : Type 0 where
    bounded : cycles_in r.1.acts ≤ k + cycles_in s.acts
    wrote : r.0 ≡ code 0 → Wrote r.1

  Ends-later :
      (m k : ℕ) (s t : Site) (r : Exit × Site)
      → k + cycles_in t.acts ≤ m + cycles_in s.acts
      → Ends k t r
      → Ends m s r
  Ends-later m k s t r h e = record { bounded = omega (arith, h, e.bounded); wrote = e.wrote }

  discovering-Ends :
      (k : ℕ) (yes_way no_way : Way) (s : Site)
      → ((t : Site) → Found t → Ends k t (yes_way t))
      → ((t : Site) → Ends k t (no_way t))
      → Ends k s (discovering w yes_way no_way s)
  discovering-Ends k yes_way no_way s f g = elim (Result-cases (w.discovers s.discovered)) [
    | inl (true, e) ↦ rw e (
        Ends-later k k s _ _ (omega arith) (
          f (record s { discovered = suc s.discovered; acts = discover ∷ s.acts })
            (s.discovered, s.acts, refl, e, refl)))
    | inl (false, e) ↦ rw e (Ends-later k k s _ _ (omega arith) (g _))
    | inr p ↦ rw (p.1) (record { bounded = omega arith; wrote = λ h. cc })
  ]

  flashing-Ends :
      (k : ℕ) (no_way : Way) (s : Site)
      → Found s
      → ((t : Site) → Ends k t (no_way t))
      → Ends k s (flashing w no_way s)
  flashing-Ends k no_way s found g = elim (Result-cases (w.flashes s.flashed)) [
    | inl (true, e) ↦ rw e (record {
      bounded = omega arith;
      wrote = λ h.
          (found.0, s.flashed, found.1, found.2, found.3, refl, e, ap (λ t. flash ∷ t) found.4);
    })
    | inl (false, e) ↦ rw e (Ends-later k k s _ _ (omega arith) (g _))
    | inr p ↦ rw (p.1) (record { bounded = omega arith; wrote = λ h. cc })
  ]

  searching-Ends :
      (k : ℕ) (no_way : Way) (s : Site)
      → ((t : Site) → Ends k t (no_way t))
      → Ends k s (discovering w (flashing w no_way) no_way s)
  searching-Ends k no_way s g =
      discovering-Ends k (flashing w no_way) no_way s (λ t found. flashing-Ends k no_way t found g)
        g

  gives_up : (s : Site) → Ends 0 s (code 1, s)
  gives_up s = record { bounded = omega arith; wrote = λ h. cc }

  fall_back-Ends : (n : ℕ) (s : Site) → Ends n s (fall_back w n s)
  unfolding fall_back
  fall_back-Ends zero s = gives_up s
  fall_back-Ends (suc n) s = elim (Bool-cases (w.cycles s.cycled)) [
    | inl e ↦ rw e (
        Ends-later (suc n) n s _ _ (omega arith)
          (searching-Ends n (fall_back w n) _ (fall_back-Ends n)))
    | inr e ↦ rw e (Ends-later (suc n) n s _ _ (omega arith) (fall_back-Ends n _))
  ]

  -- The attempts that the arguments allow.
  abbrev pub allowed : Args → ℕ
  allowed args = if args.no_fallback then 0 else args.max_fallback_attempts

  after_trigger-Ends : (args : Args) (s : Site) → Ends (allowed args) s (after_trigger w args s)
  after_trigger-Ends args s = elim (Bool-cases args.no_fallback) [
    | inl e ↦ rw e (gives_up s)
    | inr e ↦ rw e (fall_back-Ends args.max_fallback_attempts s)
  ]

  trigger_path-Ends : (args : Args) (s : Site) → Ends (allowed args) s (trigger_path w args s)
  trigger_path-Ends args s = elim (Bool-cases (w.triggers s.triggered)) [
    | inl e ↦ rw e (
        Ends-later (allowed args) (allowed args) s _ _ (omega arith)
          (searching-Ends (allowed args) (after_trigger w args) _ (after_trigger-Ends args)))
    | inr e ↦
        rw e
          (Ends-later (allowed args) (allowed args) s _ _ (omega arith) (after_trigger-Ends args _))
  ]

  -- The program ends, whatever the bench answers, after at most `max_fallback_attempts` power cycles and
  -- none with `no_fallback`; and it ends with exit code 0 only when its last two commands were a search
  -- that found a bootloader and a flash that succeeded.
  pub main-Ends : (args : Args) (s : Site) → Ends (allowed args) s (main w args s)
  unfolding main
  main-Ends args s = elim (Bool-cases args.bin_is_file) [
    | inl e ↦ rw e (searching-Ends (allowed args) (trigger_path w args) s (trigger_path-Ends args))
    | inr e ↦ rw e (record { bounded = omega arith; wrote = λ h. cc })
  ]
