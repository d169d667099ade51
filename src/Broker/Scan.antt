-- ===== src/Broker/Scan.antt =====
-- The scan of the I2C bus by `HardwareManager`, broker/bus.py, and by `FakeHardwareManager` of
-- broker/fake_bus.py. Which addresses acknowledge is a parameter.
use ifs_hil.Prelude.{
  ℕ, zero, suc, ◌+◌, ◌-◌, ◌<◌, ◌≤◌, ◌≡◌, refl, ap, sym, subst, ◌∙◌, Bool, false, ◌&&◌, List, [],
  ◌∷◌, ◌++◌, if◌then◌else◌, keep, elem, All, leb, ltb, ◌==◌, Bool-cases, inl, inr, arith,
}
use ifs_hil.Prelude.Result.{ok}
use ifs_hil.Prelude.Every.{All-weaken}
use ifs_hil.Broker.Fake.{Fake, tca_addrs, ina_addrs}
use ifs_hil.Broker.Fake

-- for addr in range(start, start + n)
abbrev scan_from : (ℕ → Bool) → ℕ → ℕ → List ℕ
scan_from acks start zero = []
scan_from acks start (suc n) =
    let rest = scan_from acks (suc start) n in if acks start then start ∷ rest else rest

-- The addresses from `start` to `stop` that acknowledge, and the count of operations after it.
unfoldable pub i2c_scan : (ℕ → Bool) → ℕ → ℕ → ℕ → List ℕ × ℕ
i2c_scan acks start stop op_count = (scan_from acks start (stop - start), suc op_count)

-- A list whose numbers increase.
abbrev Ascending : List ℕ → Type 0
Ascending [] = Unit
Ascending (x ∷ xs) = All (λ y. x < y) xs × Ascending xs

abbrev between : ℕ → ℕ → ℕ → Bool
between start stop a = leb start a && ltb a stop

elem-above : (s : ℕ) (xs : List ℕ) → All (λ y. s < y) xs → elem s xs ≡ false
elem-above s [] h = refl
elem-above s (x ∷ xs) (p, h) = ground (arith, p, elem-above s xs h)

below-All : (s x : ℕ) (xs : List ℕ) → s < x → All (λ y. x < y) xs → All (λ y. s < y) xs
below-All s x xs h b = All-weaken _ _ xs (λ y p. omega (arith, p, h)) b

-- An address in front of an interval is found where the list has it.
keep-between :
    (s stop : ℕ) (xs : List ℕ)
    → Ascending xs
    → s < stop
    → keep (between s stop) xs
      ≡ (if elem s xs then s ∷ keep (between (suc s) stop) xs else keep (between (suc s) stop) xs)
keep-between s stop [] a h = refl
keep-between s stop (x ∷ xs) (b, a) h = elim (Bool-cases (x == s)) [
  | inl e ↦
      let same : x ≡ s = ground (arith, e) in
      let gone : elem s xs ≡ false = elem-above s xs (subst (λ y. All (λ z. y < z) xs) same b) in
      ground (arith, h, e, gone, same, keep-between s stop xs a h)
  | inr e ↦ elim (Bool-cases (ltb x s)) [
    | inl l ↦ ground (arith, h, e, l, keep-between s stop xs a h)
    | inr l ↦
        let gone : elem s xs ≡ false =
          elem-above s xs (below-All s x xs (ground (arith, e, l)) b) in
        ground (arith, h, e, l, gone, keep-between s stop xs a h)
  ]
]

keep-out_of_range : (s stop : ℕ) (xs : List ℕ) → stop ≤ s → keep (between s stop) xs ≡ []
keep-out_of_range s stop [] h = refl
keep-out_of_range s stop (x ∷ xs) h = ground (arith, h, keep-out_of_range s stop xs h)

add_suc : (s n : ℕ) → s + suc n ≡ suc s + n
add_suc s n = omega arith

scan_from-keep :
    (xs : List ℕ) (s n : ℕ)
    → Ascending xs
    → scan_from (λ a. elem a xs) s n ≡ keep (between s (s + n)) xs
scan_from-keep xs s zero a = sym (keep-out_of_range s (s + 0) xs (omega arith))
scan_from-keep xs s (suc n) a =
    rw (keep-between s (s + suc n) xs a (omega arith), scan_from-keep xs (suc s) n a, add_suc s n)
      refl

scan_from-same :
    (p q : ℕ → Bool) (s n : ℕ) → ((a : ℕ) → p a ≡ q a) → scan_from p s n ≡ scan_from q s n
scan_from-same p q s zero h = refl
scan_from-same p q s (suc n) h = rw (h s, scan_from-same p q (suc s) n h) refl

scan-keep :
    (xs : List ℕ) (start stop : ℕ)
    → Ascending xs
    → scan_from (λ a. elem a xs) start (stop - start) ≡ keep (between start stop) xs
scan-keep xs start stop a = elim (Bool-cases (leb start stop)) [
  | inl e ↦
      let whole : start + (stop - start) ≡ stop = ground (arith, e) in
      scan_from-keep xs start (stop - start) a ∙ ap (λ t. keep (between start t) xs) whole
  | inr e ↦
      let none : stop - start ≡ 0 = ground (arith, e) in
      rw none (sym (keep-out_of_range start stop xs (ground (arith, e))))
]

served-Ascending : Ascending (tca_addrs ++ ina_addrs)
served-Ascending = ground arith

-- Where exactly the expanders and the monitors acknowledge, the scan over the bus finds, in any range, what
-- the fake's scan finds, and both count one operation.
i2c_scan-agrees :
    {V : Type 0} (acks : ℕ → Bool) (start stop : ℕ) (f : Fake V)
    → ((a : ℕ) → acks a ≡ elem a (tca_addrs ++ ina_addrs))
    → (ok (i2c_scan acks start stop f.op_count).0 ≡ (Fake.i2c_scan start stop f).0)
      × ((i2c_scan acks start stop f.op_count).1 ≡ (Fake.i2c_scan start stop f).1.op_count)
unfolding i2c_scan Fake.i2c_scan
i2c_scan-agrees acks start stop f h = (
  ap ok (
      scan_from-same acks _ start (stop - start) h
      ∙ scan-keep (tca_addrs ++ ina_addrs) start stop served-Ascending),
  refl,
)
