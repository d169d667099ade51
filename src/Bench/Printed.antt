-- ===== src/Bench/Printed.antt =====
-- The lines that `cmd_doctor` of tools/bench.py prints, and its exit status.
use ifs_hil.Prelude.{
  ℕ, zero, suc, ◌≡◌, refl, sym, ap, subst, inl, inr, Bool, true, false, List, [], ◌∷◌, ◌++◌, Option,
  none, some, Bool-cases, ◌+◌, ◌↔◌, arith, All, if◌then◌else◌,
}
use ifs_hil.Prelude.Iff.{same_to}
use ifs_hil.Prelude.Text.{Text, same, same_iff}
use ifs_hil.Bench.Host.{Check}
use ifs_hil.Bench.Report.{
  printed, Line, heading, verdict, runner_unchecked, failed, documented, closing, failures,
  exit_status, Exit, returned, refused, report,
}

-- The checks of the verdicts among the lines.
abbrev pub verdicts : List Line → List Check
verdicts [] = []
verdicts (verdict c ∷ ls) = c ∷ verdicts ls
verdicts (heading s ∷ ls) = verdicts ls
verdicts (runner_unchecked ∷ ls) = verdicts ls
verdicts (failed n ∷ ls) = verdicts ls
verdicts (documented ∷ ls) = verdicts ls

-- Every verdict stands under the heading of its section.
abbrev pub AreHeaded : Option Text → List Line → Type 0
AreHeaded s [] = Unit
AreHeaded s (verdict c ∷ ls) = (s ≡ some c.section) × AreHeaded s ls
AreHeaded s (heading t ∷ ls) = AreHeaded (some t) ls
AreHeaded s (runner_unchecked ∷ ls) = AreHeaded s ls
AreHeaded s (failed n ∷ ls) = AreHeaded s ls
AreHeaded s (documented ∷ ls) = AreHeaded s ls

pub printed-AreHeaded :
    (s : Option Text) (cs : List Check) (tail : List Line)
    → verdicts tail ≡ []
    → ((t : Option Text) → AreHeaded t tail)
    → (verdicts (printed s cs ++ tail) ≡ cs) × AreHeaded s (printed s cs ++ tail)
unfolding printed
printed-AreHeaded s [] tail e h = (e, h s)
printed-AreHeaded none (c ∷ cs) tail e h =
    let rest = printed-AreHeaded (some c.section) cs tail e h in
    (ap (λ r. c ∷ r) rest.0, (refl, rest.1))
printed-AreHeaded (some t) (c ∷ cs) tail e h =
    let rest = printed-AreHeaded (some c.section) cs tail e h in
    elim (Bool-cases (same c.section t)) [
      | inl k ↦
          let e' : c.section ≡ t = (same_iff c.section t).0 k in
          let under =
            subst (λ u. AreHeaded (some u) (printed (some c.section) cs ++ tail)) e' rest.1 in
          rw k (ap (λ r. c ∷ r) rest.0, (ap some (sym e'), under))
      | inr k ↦ rw k (ap (λ r. c ∷ r) rest.0, (refl, rest.1))
    ]

pub closing-quiet :
    (host_only : Bool) (n : ℕ)
    → (verdicts (closing host_only n) ≡ [])
      × ((t : Option Text) → AreHeaded t (closing host_only n))
closing-quiet true zero = (refl, λ t. tt)
closing-quiet true (suc n) = (refl, λ t. tt)
closing-quiet false zero = (refl, λ t. tt)
closing-quiet false (suc n) = (refl, λ t. tt)

counted_iff : (b : Bool) (n : ℕ) → (((if b then 0 else 1) + n) ≡ 0) ↔ ((b ≡ true) × (n ≡ 0))
counted_iff true n = (λ h. (refl, omega (arith, h)), λ h. omega (arith, h.1))
counted_iff false n = (λ h. absurd (omega (arith, h)), λ h. cc (h.0))

failures_iff : (cs : List Check) → (failures cs ≡ 0) ↔ All (λ c. c.ok ≡ true) cs
failures_iff [] = (λ h. tt, λ h. refl)
failures_iff (c ∷ cs) =
    let here = counted_iff c.ok (failures cs) in
    let rest = failures_iff cs in
    (λ h. ((here.0 h).0, rest.0 (here.0 h).1), λ h. here.1 (h.0, rest.1 h.1))

exit_status_iff : (n : ℕ) → (exit_status n ≡ 0) ↔ (n ≡ 0)
exit_status_iff zero = same_to
exit_status_iff (suc n) = (λ h. absurd (omega (arith, h)), λ h. absurd (omega (arith, h)))

-- A report prints the checks under their headings and returns 0 when none has failed.
abbrev pub IsReport : List Check → Exit → Type 0
IsReport cs refused = ⊥
IsReport cs (returned ls code) =
    (verdicts ls ≡ cs) × AreHeaded none ls × ((code ≡ 0) ↔ All (λ c. c.ok ≡ true) cs)

pub report-IsReport : (host_only : Bool) (cs : List Check) → IsReport cs (report host_only cs)
report-IsReport host_only cs =
    let tail = closing host_only (failures cs) in
    let quiet = closing-quiet host_only (failures cs) in
    let counted = failures_iff cs in
    let status = exit_status_iff (failures cs) in
    let rows = printed-AreHeaded none cs tail quiet.0 quiet.1 in
    (rows.0, rows.1, ((λ z. counted.0 (status.0 z)), (λ a. status.1 (counted.1 a))))
