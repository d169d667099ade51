-- ===== src/Broker/Devices/Shown.antt =====
-- The expanders of `HardwareManager`, broker/bus.py, against those of `FakeHardwareManager`,
-- broker/fake_bus.py.
use ifs_hil.Prelude.{
  ℕ, zero, suc, ◌%◌, ◌<◌, ◌≡◌, ◌⊎◌, refl, sym, ap, subst, Bool, true, List, [], ◌∷◌, Option, some,
  ◌==◌, ==_iff, Bool-cases, inl, inr, arith,
}
use ifs_hil.Prelude.Result.{Result, ok, err, key_error, ◌>>=◌}
use ifs_hil.Broker.Expander.{
  Chip, chip_set_direction, chip_set_all, chip_write_port, chip_write_pin, chip_write_all,
  with_pin-lt,
}
use ifs_hil.Broker.Fake.{Tca, two, with_pin, at_key, insert, find_tca, replace}
use ifs_hil.Broker.Devices.{find_chip, set_chip}

-- A chip that answers, with the output and direction registers that the in-memory expander holds.
pub record Shows (c : Chip) (t : Tca) : Type 0 where
  pub acks : c.acks ≡ true
  pub o0 : ℕ
  pub o1 : ℕ
  pub d0 : ℕ
  pub d1 : ℕ
  pub rest :
      (i0 : ℕ) × (i1 : ℕ) × (p0 : ℕ) × (p1 : ℕ) × (c.regs
        ≡ i0 ∷ i1 ∷ o0 ∷ o1 ∷ p0 ∷ p1 ∷ d0 ∷ d1 ∷ [])
  pub outputs : t.outputs ≡ two o0 o1
  pub directions : t.directions ≡ two d0 d1
  pub byte0 : o0 < 256
  pub byte1 : o1 < 256

-- The same addresses in the same order, and each chip as its expander.
abbrev pub Mirrors : List (ℕ × Chip) → List Tca → Type 0
Mirrors [] [] = Unit
Mirrors [] (t ∷ ts) = ⊥
Mirrors (p ∷ ps) [] = ⊥
Mirrors (p ∷ ps) (t ∷ ts) = (p.0 ≡ t.addr) × Shows p.1 t × Mirrors ps ts

pub find-Mirrors :
    (addr : ℕ) (ps : List (ℕ × Chip)) (ts : List Tca)
    → Mirrors ps ts
    → ((find_chip addr ps ≡ err key_error) × (find_tca addr ts ≡ err key_error))
      ⊎ ((c : Chip) × (t : Tca) × (find_chip addr ps ≡ ok c)
          × (find_tca addr ts ≡ ok t)
          × Shows c t
          × (t.addr ≡ addr))
find-Mirrors addr [] [] m = inl (refl, refl)
find-Mirrors addr [] (t ∷ ts) m = absurd m
find-Mirrors addr (p ∷ ps) [] m = absurd m
find-Mirrors addr (p ∷ ps) (t ∷ ts) (e, s, m) = elim (Bool-cases (t.addr == addr)) [
  | inl h ↦ inr (p.1, t, rw (e, h) refl, rw h refl, s, (==_iff _ _).0 h)
  | inr h ↦ rw (e, h) (find-Mirrors addr ps ts m)
]

pub set-Mirrors :
    (c : Chip) (t : Tca) (ps : List (ℕ × Chip)) (ts : List Tca)
    → Mirrors ps ts
    → Shows c t
    → Mirrors (set_chip t.addr c ps) (replace t ts)
set-Mirrors c t [] [] m s = tt
set-Mirrors c t [] (u ∷ us) m s = absurd m
set-Mirrors c t (p ∷ ps) [] m s = absurd m
set-Mirrors c t (p ∷ ps) (u ∷ us) (f, k, m) s = elim (Bool-cases (u.addr == t.addr)) [
  | inl h ↦ rw (f, h) (refl, s, m)
  | inr h ↦ rw (f, h) (refl, k, set-Mirrors c t ps us m s)
]

-- The calls that write an expander.
pub data TcaCall : Type 0 where
  set_direction : (addr port mask : ℕ) → TcaCall
  set_all_inputs set_all_outputs : (addr : ℕ) → TcaCall
  write_port : (addr port value : ℕ) → TcaCall
  write_all : (addr p0 p1 : ℕ) → TcaCall
  write_pin : (addr port pin : ℕ) → Bool → TcaCall

abbrev pub addr_of : TcaCall → ℕ
addr_of (set_direction addr port mask) = addr
addr_of (set_all_inputs addr) = addr
addr_of (set_all_outputs addr) = addr
addr_of (write_port addr port value) = addr
addr_of (write_all addr p0 p1) = addr
addr_of (write_pin addr port pin v) = addr

-- One of the two ports, and one of the eight pins; any address, mask and value.
abbrev pub IsLegal : TcaCall → Type 0
IsLegal (set_direction addr port mask) = port < 2
IsLegal (set_all_inputs addr) = Unit
IsLegal (set_all_outputs addr) = Unit
IsLegal (write_port addr port value) = port < 2
IsLegal (write_all addr p0 p1) = Unit
IsLegal (write_pin addr port pin v) = (port < 2) × (pin < 8)

-- What a call does to its chip, and to its expander in memory.
abbrev pub on_chip : TcaCall → Chip → Option Chip
on_chip (set_direction addr port mask) = chip_set_direction port mask
on_chip (set_all_inputs addr) = chip_set_all 0xFF
on_chip (set_all_outputs addr) = chip_set_all 0x00
on_chip (write_port addr port value) = chip_write_port port value
on_chip (write_all addr p0 p1) = chip_write_all p0 p1
on_chip (write_pin addr port pin v) = chip_write_pin port pin v

abbrev pub on_tca : TcaCall → Tca → Result Tca
on_tca (set_direction addr port mask) t =
    ok (record t { directions = insert port (mask % 256) t.directions })
on_tca (set_all_inputs addr) t = ok (record t { directions = two 0xFF 0xFF })
on_tca (set_all_outputs addr) t = ok (record t { directions = two 0x00 0x00 })
on_tca (write_port addr port value) t =
    ok (record t { outputs = insert port (value % 256) t.outputs })
on_tca (write_all addr p0 p1) t = ok (record t { outputs = two (p0 % 256) (p1 % 256) })
on_tca (write_pin addr port pin v) t = at_key port t.outputs >>= λ cur.
    ok (record t { outputs = insert port (with_pin cur pin v) t.outputs })

-- The registers of a chip that answers, and an expander with the same.
abbrev chip_of : (i0 i1 p0 p1 o0 o1 d0 d1 : ℕ) → Chip
chip_of i0 i1 p0 p1 o0 o1 d0 d1 = record {
  acks = true;
  regs = i0 ∷ i1 ∷ o0 ∷ o1 ∷ p0 ∷ p1 ∷ d0 ∷ d1 ∷ [];
}

abbrev tca_of : Tca → (o0 o1 d0 d1 : ℕ) → Tca
tca_of t o0 o1 d0 d1 = record t { outputs = two o0 o1; directions = two d0 d1 }

-- A call succeeds on both, and the chip shows the expander again.
abbrev pub Succeeds : TcaCall → Chip → Tca → Type 0
Succeeds k c t =
    (c' : Chip) × (t' : Tca) × (on_chip k c ≡ some c')
    × (on_tca k t ≡ ok t')
    × Shows c' t'
    × (t'.addr ≡ t.addr)

module _ (t : Tca) (i0 i1 p0 p1 : ℕ) where
  Shows-of :
      (o0 o1 d0 d1 : ℕ)
      → o0 < 256
      → o1 < 256
      → Shows (chip_of i0 i1 p0 p1 o0 o1 d0 d1) (tca_of t o0 o1 d0 d1)
  Shows-of o0 o1 d0 d1 b c = record {
    acks = refl;
    o0 = o0;
    o1 = o1;
    d0 = d0;
    d1 = d1;
    rest = (i0, i1, p0, p1, refl);
    outputs = refl;
    directions = refl;
    byte0 = b;
    byte1 = c;
  }

  Succeeds-of :
      (k : TcaCall) (o0 o1 d0 d1 q0 q1 e0 e1 : ℕ)
      → on_chip k (chip_of i0 i1 p0 p1 o0 o1 d0 d1) ≡ some (chip_of i0 i1 p0 p1 q0 q1 e0 e1)
      → on_tca k (tca_of t o0 o1 d0 d1) ≡ ok (tca_of t q0 q1 e0 e1)
      → q0 < 256
      → q1 < 256
      → Succeeds k (chip_of i0 i1 p0 p1 o0 o1 d0 d1) (tca_of t o0 o1 d0 d1)
  Succeeds-of k o0 o1 d0 d1 q0 q1 e0 e1 h g b c =
      (chip_of i0 i1 p0 p1 q0 q1 e0 e1, tca_of t q0 q1 e0 e1, h, g, Shows-of q0 q1 e0 e1 b c, refl)

  legal-Succeeds :
      (k : TcaCall) (o0 o1 d0 d1 : ℕ)
      → IsLegal k
      → o0 < 256
      → o1 < 256
      → Succeeds k (chip_of i0 i1 p0 p1 o0 o1 d0 d1) (tca_of t o0 o1 d0 d1)
  unfolding chip_write_pin
  legal-Succeeds (set_direction addr zero mask) o0 o1 d0 d1 l b c =
      Succeeds-of (set_direction addr zero mask) o0 o1 d0 d1 o0 o1 (mask % 256) d1 refl refl b c
  legal-Succeeds (set_direction addr (suc zero) mask) o0 o1 d0 d1 l b c =
      Succeeds-of (set_direction addr 1 mask) o0 o1 d0 d1 o0 o1 d0 (mask % 256) refl refl b c
  legal-Succeeds (set_direction addr (suc (suc n)) mask) o0 o1 d0 d1 l b c =
      absurd (omega (arith, l))
  legal-Succeeds (set_all_inputs addr) o0 o1 d0 d1 l b c =
      Succeeds-of (set_all_inputs addr) o0 o1 d0 d1 o0 o1 0xFF 0xFF refl refl b c
  legal-Succeeds (set_all_outputs addr) o0 o1 d0 d1 l b c =
      Succeeds-of (set_all_outputs addr) o0 o1 d0 d1 o0 o1 0x00 0x00 refl refl b c
  legal-Succeeds (write_port addr zero value) o0 o1 d0 d1 l b c =
      Succeeds-of (write_port addr zero value) o0 o1 d0 d1 (value % 256) o1 d0 d1 refl refl
        (omega arith) c
  legal-Succeeds (write_port addr (suc zero) value) o0 o1 d0 d1 l b c =
      Succeeds-of (write_port addr 1 value) o0 o1 d0 d1 o0 (value % 256) d0 d1 refl refl b
        (omega arith)
  legal-Succeeds (write_port addr (suc (suc n)) value) o0 o1 d0 d1 l b c = absurd (omega (arith, l))
  legal-Succeeds (write_all addr v0 v1) o0 o1 d0 d1 l b c =
      Succeeds-of (write_all addr v0 v1) o0 o1 d0 d1 (v0 % 256) (v1 % 256) d0 d1 refl refl
        (omega arith) (omega arith)
  legal-Succeeds (write_pin addr zero pin v) o0 o1 d0 d1 l b c =
      let small : with_pin o0 pin v < 256 = with_pin-lt o0 pin v b l.1 in
      let same : with_pin o0 pin v % 256 ≡ with_pin o0 pin v = omega (arith, small) in
      Succeeds-of (write_pin addr zero pin v) o0 o1 d0 d1 (with_pin o0 pin v) o1 d0 d1
        (ap (λ n. some (chip_of i0 i1 p0 p1 n o1 d0 d1)) same) refl small c
  legal-Succeeds (write_pin addr (suc zero) pin v) o0 o1 d0 d1 l b c =
      let small : with_pin o1 pin v < 256 = with_pin-lt o1 pin v c l.1 in
      let same : with_pin o1 pin v % 256 ≡ with_pin o1 pin v = omega (arith, small) in
      Succeeds-of (write_pin addr 1 pin v) o0 o1 d0 d1 o0 (with_pin o1 pin v) d0 d1
        (ap (λ n. some (chip_of i0 i1 p0 p1 o0 n d0 d1)) same) refl b small
  legal-Succeeds (write_pin addr (suc (suc n)) pin v) o0 o1 d0 d1 l b c =
      absurd (omega (arith, l.0))

pub on_chip-Shows : (k : TcaCall) (c : Chip) (t : Tca) → IsLegal k → Shows c t → Succeeds k c t
on_chip-Shows k c t l s =
    let r = s.rest in
    let whole : chip_of r.0 r.1 r.2 r.3 s.o0 s.o1 s.d0 s.d1 ≡ c =
      λ i. record { acks = sym s.acks i; regs = sym r.4 i } in
    let same : tca_of t s.o0 s.o1 s.d0 s.d1 ≡ t =
      λ i. record t { outputs = sym s.outputs i; directions = sym s.directions i } in
    subst (λ x. Succeeds k x t) whole
      (subst (λ x. Succeeds k (chip_of r.0 r.1 r.2 r.3 s.o0 s.o1 s.d0 s.d1) x) same
        (legal-Succeeds t r.0 r.1 r.2 r.3 k s.o0 s.o1 s.d0 s.d1 l s.byte0 s.byte1))
