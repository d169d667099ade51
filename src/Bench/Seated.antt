-- ===== src/Bench/Seated.antt =====
-- What the deep probe of tools/bench.py measures, and what it leaves of the carrier relays.
use ifs_hil.Prelude.{
  ℕ, ◌-◌, ◌%◌, ◌<◌, ◌≡◌, refl, sym, ap, ◌∙◌, Bool, true, false, List, [], ◌∷◌, Option, none, some,
  if◌then◌else◌, ◌==◌, All, arith,
}
use ifs_hil.Prelude.Int.{ℤ}
use ifs_hil.Prelude.Bytes.{bit}
use ifs_hil.Prelude.Result.{ok}
use ifs_hil.Broker.Fake.{Fake, with_pin, tca_set_direction, tca_read_port, tick}
use ifs_hil.Broker.Expander.{with_pin-lt, with_pin-bit}
use ifs_hil.Dashboard.Web.Register.{coils, coils-set_direction, coils-write_pin, coils-write_port}
use ifs_hil.Bench.Slots.{
  SlotFound, ina_for_slot, closed, found_of, walk, restored, tried, probe_from, probe_slots,
}

or_kept : (b c : Bool) → c ≡ true → (if b then true else c) ≡ true
or_kept true c h = refl
or_kept false c h = h

module _ {V : Type 0} where
  module _ (current : ℕ → Fake V → Option ℤ × Fake V)
      (keeps : (addr : ℕ) (f : Fake V) → coils (current addr f).1 ≡ coils f) where
    -- A slot was measured while the bit of its relay was set.
    abbrev pub IsMeasured : ℕ × ℕ → SlotFound → Type 0
    IsMeasured (slot, ina_addr) s =
        (f : Fake V) × (o : ℕ) × (coils f ≡ ok o)
        × (bit o (slot - 1) ≡ true)
        × (s ≡ found_of current slot (current ina_addr f).0)

    abbrev pub AreMeasured : List (ℕ × ℕ) → List SlotFound → Type 0
    AreMeasured [] [] = Unit
    AreMeasured [] (s ∷ ss) = ⊥
    AreMeasured (p ∷ ps) [] = ⊥
    AreMeasured (p ∷ ps) (s ∷ ss) = IsMeasured p s × AreMeasured ps ss

    closed-coils :
        (slot o : ℕ) (f : Fake V)
        → coils f ≡ ok o
        → coils (closed current slot f) ≡ ok (with_pin o (slot - 1) true)
    closed-coils slot o f h =
        (coils-write_pin (slot - 1) o true (tca_set_direction 0x20 0 0x00 f).1
          (coils-set_direction 0x20 0 0x00 f ∙ h)).1

    kept_bit :
        (o pin i : ℕ)
        → o < 256
        → pin < 8
        → i < 8
        → bit (with_pin o pin true) i ≡ (if i == pin then true else bit o i)
    kept_bit o pin i b p h =
        let small : with_pin o pin true < 256 = with_pin-lt o pin true b p in
        let same : with_pin o pin true % 256 ≡ with_pin o pin true = omega (arith, small) in
        ap (λ x. bit x i) (sym same) ∙ with_pin-bit o pin i true b p h

    -- The walk measures every slot, and leaves set the bits of its slots and those that were set.
    walk-AreMeasured :
        (ps : List (ℕ × ℕ)) (o : ℕ) (f : Fake V)
        → All (λ p. p.0 - 1 < 8) ps
        → coils f ≡ ok o
        → o < 256
        → AreMeasured ps (walk current ps f).0
          × ((n : ℕ) × (coils (walk current ps f).1 ≡ ok n)
              × (n < 256)
              × ((i : ℕ) → i < 8 → bit o i ≡ true → bit n i ≡ true)
              × All (λ p. bit n (p.0 - 1) ≡ true) ps)
    walk-AreMeasured [] o f l h b = (tt, (o, h, b, (λ i lt e. e), tt))
    walk-AreMeasured ((slot, addr) ∷ ps) o f (l, ls) h b =
        let next : ℕ = with_pin o (slot - 1) true in
        let c = closed-coils slot o f h in
        let small : next < 256 = with_pin-lt o (slot - 1) true b l in
        let set_bit : bit next (slot - 1) ≡ true =
          kept_bit o (slot - 1) (slot - 1) b l l ∙ ground arith in
        let rest =
          walk-AreMeasured ps next (current addr (closed current slot f)).1 ls
            (keeps addr (closed current slot f) ∙ c) small in
        (
          ((closed current slot f, next, c, set_bit, refl), rest.0),
          (
            rest.1.0,
            rest.1.1,
            rest.1.2,
            λ i lt e.
                rest.1.3 i lt
                  (kept_bit o (slot - 1) i b l lt ∙ or_kept (i == slot - 1) (bit o i) e),
            (rest.1.3 (slot - 1) l set_bit, rest.1.4),
          ),
        )

    restored-coils :
        (o n : ℕ) (f g : Fake V)
        → coils f ≡ ok o
        → coils g ≡ ok n
        → o < 256
        → coils (restored current (tried (coils f)) g) ≡ ok o
    restored-coils o n f g h e b = rw h (coils-write_port o n g e b)

    -- The deep probe measures each slot while the relay of the slot is closed, in the order of the slots, and then writes
    -- to the output register of the relays what its first read gave: in the in-memory backend, which reads that very
    -- register, it is left as it was; on an expander, which reads its inputs, it is left as those were. Where the first
    -- read is lost, it measures the same way, and every carrier relay stays closed. All this where the other calls
    -- keep the output register as the in-memory backend does.
    pub probe_slots-Restores :
        (o input : ℕ) (f : Fake V)
        → coils f ≡ ok o
        → o < 256
        → input < 256
        → AreMeasured ina_for_slot (probe_slots current f).0
          × (coils (probe_slots current f).1 ≡ ok o)
          × AreMeasured ina_for_slot (probe_from current (some input) f).0
          × (coils (probe_from current (some input) f).1 ≡ ok input)
          × AreMeasured ina_for_slot (probe_from current none f).0
          × ((n : ℕ) × (coils (probe_from current none f).1 ≡ ok n)
              × All (λ p. bit n (p.0 - 1) ≡ true) ina_for_slot)
    unfolding probe_slots probe_from tca_read_port
    probe_slots-Restores o input f h b c =
        let near : All (λ p. p.0 - 1 < 8) ina_for_slot =
          (omega arith, (omega arith, (omega arith, (omega arith, tt)))) in
        let after = walk-AreMeasured ina_for_slot o (tick f) near h b in
        let plain = walk-AreMeasured ina_for_slot o f near h b in
        (
          after.0,
          restored-coils o after.1.0 (tick f) (walk current ina_for_slot (tick f)).1 h after.1.1 b,
          plain.0,
          coils-write_port input plain.1.0 (walk current ina_for_slot f).1 plain.1.1 c,
          plain.0,
          (plain.1.0, plain.1.1, plain.1.4),
        )
