-- ===== src/Broker/Converters/Isolated.antt =====
-- What the calls of one DAC leave of the others, broker/bus.py, where the kernel moves the selects and each
-- driver has a device of its own.
use ifs_hil.Prelude.{
  ℕ, ◌<◌, ◌≡◌, ◌≢◌, refl, ap, ◌∙◌, Bool, true, List, [], ◌∷◌, map, if◌then◌else◌, length, All,
  Bool-cases, inl, inr, length-set, arith,
}
use ifs_hil.Prelude.Indexed.{index-lt, index-set_other, index-set_self, length-map_lem}
use ifs_hil.Prelude.Result.{Result, Result-cases, ok, index}
use ifs_hil.Drivers.{Chip, Line}
use ifs_hil.Drivers.Dac
use ifs_hil.Drivers.Dac.Readback.{IsDac, get_voltage-set_voltage}
use ifs_hil.Broker.Converters.{
  Board, on_line, on_found, ensure_dacs, on_dac, dac_read_device_id, dac_reset, dac_set_voltage,
  dac_get_voltage, dac_zero_all,
}

-- The calls of a DAC, with the voltages of a type V.
pub data DacCall (V : Type 0) : Type 0 where
  set_voltage : (idx channel : ℕ) → V → DacCall V
  get_voltage : (idx channel : ℕ) → DacCall V
  read_device_id reset zero_all : (idx : ℕ) → DacCall V

abbrev pub idx_of : {V : Type 0} → DacCall V → ℕ
idx_of (set_voltage idx channel v) = idx
idx_of (get_voltage idx channel) = idx
idx_of (read_device_id idx) = idx
idx_of (reset idx) = idx
idx_of (zero_all idx) = idx

on_line-other :
    {S B : Type 0} (ls : List (Line S)) (idx j : ℕ) (op : Line S → Result B × Line S)
    → idx ≢ j
    → (index (on_line ls idx op).1 j ≡ index ls j) × (length (on_line ls idx op).1 ≡ length ls)
on_line-other ls idx j op ne = elim (Result-cases (index ls idx)) [
  | inl (l, e) ↦ rw e (index-set_other ls idx j (op l).1 ne, length-set ls idx (op l).1)
  | inr (x, e) ↦ rw e (refl, refl)
]

on_line-length :
    {S B : Type 0} (ls : List (Line S)) (idx : ℕ) (op : Line S → Result B × Line S)
    → length (on_line ls idx op).1 ≡ length ls
on_line-length ls idx op = elim (Result-cases (index ls idx)) [
  | inl (l, e) ↦ rw e (length-set ls idx (op l).1)
  | inr (x, e) ↦ rw e refl
]

module _ {D A R : Type 0} (dac : Chip D) (own : Bool) where
  ensure-opened : (b : Board D A R) → (ensure_dacs dac own b).opened ≡ true
  ensure-opened b = elim (Bool-cases b.opened) [ inl e ↦ rw e refl | inr e ↦ rw e refl ]

  ensure-length : (b : Board D A R) → length (ensure_dacs dac own b).dacs ≡ length b.dacs
  ensure-length b = elim (Bool-cases b.opened) [
    | inl e ↦ rw e refl
    | inr e ↦ rw e (length-map_lem (Dac.init dac own) b.dacs)
  ]

  -- Drivers that are open are not opened again.
  ensure-again : (b : Board D A R) → b.opened ≡ true → ensure_dacs dac own b ≡ b
  ensure-again b e =
      ap (λ o. if o then b else record b { opened = true; dacs = map (Dac.init dac own) b.dacs }) e

  module _ {V : Type 0} (code_of : V → ℕ) (volts_of : ℕ → V) (zero_v : V) where
    abbrev pub call_dac : DacCall V → Board D A R → Board D A R
    call_dac (set_voltage idx channel v) b =
        (dac_set_voltage dac own code_of volts_of idx channel v b).1
    call_dac (get_voltage idx channel) b =
        (dac_get_voltage dac own code_of volts_of idx channel b).1
    call_dac (read_device_id idx) b = (dac_read_device_id dac own idx b).1
    call_dac (reset idx) b = (dac_reset dac own idx b).1
    call_dac (zero_all idx) b = (dac_zero_all dac own code_of volts_of zero_v idx b).1

    abbrev pub run_dac : List (DacCall V) → Board D A R → Board D A R
    run_dac [] b = b
    run_dac (k ∷ ks) b = run_dac ks (call_dac k b)

    -- After a call the drivers are open, as many as before, and the other DACs are as they were opened.
    record Leaves (b c : Board D A R) (idx : ℕ) : Type 0 where
      opens : c.opened ≡ true
      same_length : length c.dacs ≡ length b.dacs
      others : (j : ℕ) → idx ≢ j → index c.dacs j ≡ index (ensure_dacs dac own b).dacs j

    on_dac-Leaves :
        {B : Type 0} (idx : ℕ) (op : Line D → Result B × Line D) (b : Board D A R)
        → Leaves b (on_dac dac own idx op b).1 idx
    on_dac-Leaves idx op b = record {
      opens = ensure-opened b;
      same_length = on_line-length (ensure_dacs dac own b).dacs idx op ∙ ensure-length b;
      others = λ j ne. (on_line-other (ensure_dacs dac own b).dacs idx j op ne).0;
    }

    call_dac-Leaves : (k : DacCall V) (b : Board D A R) → Leaves b (call_dac k b) (idx_of k)
    unfolding dac_set_voltage dac_get_voltage dac_read_device_id dac_reset dac_zero_all
    call_dac-Leaves (set_voltage idx channel v) b = on_dac-Leaves idx _ b
    call_dac-Leaves (get_voltage idx channel) b = on_dac-Leaves idx _ b
    call_dac-Leaves (read_device_id idx) b = on_dac-Leaves idx _ b
    call_dac-Leaves (reset idx) b = on_dac-Leaves idx _ b
    call_dac-Leaves (zero_all idx) b = on_dac-Leaves idx _ b

    run_dac-length :
        (ks : List (DacCall V)) (b : Board D A R) → length (run_dac ks b).dacs ≡ length b.dacs
    run_dac-length [] b = refl
    run_dac-length (k ∷ ks) b = run_dac-length ks (call_dac k b) ∙ (call_dac-Leaves k b).same_length

    -- Calls of other DACs on open drivers leave a DAC, and the drivers open.
    run_dac-Leaves :
        (ks : List (DacCall V)) (b : Board D A R) (j : ℕ)
        → All (λ k. idx_of k ≢ j) ks
        → b.opened ≡ true
        → (index (run_dac ks b).dacs j ≡ index b.dacs j) × ((run_dac ks b).opened ≡ true)
    run_dac-Leaves [] b j h o = (refl, o)
    run_dac-Leaves (k ∷ ks) b j (n, h) o =
        let c = call_dac-Leaves k b in
        let rest = run_dac-Leaves ks (call_dac k b) j h c.opens in
        (
          rest.0 ∙ c.others j n ∙ ap (λ (x : Board D A R). index x.dacs j) (ensure-again b o),
          rest.1,
        )

    on_dac-found :
        {B : Type 0} (idx : ℕ) (op : Line D → Result B × Line D) (b : Board D A R) (l : Line D)
        → index (ensure_dacs dac own b).dacs idx ≡ ok l
        → idx < length b.dacs
        → ((on_dac dac own idx op b).0 ≡ (op l).0)
          × (index (on_dac dac own idx op b).1.dacs idx ≡ ok (op l).1)
    on_dac-found idx op b l e lt =
        let found = ap (on_found (ensure_dacs dac own b).dacs idx op) e in
        (
          ap (λ r. r.0) found,
          ap (λ r. index r.1 idx) found
              ∙ index-set_self (ensure_dacs dac own b).dacs idx (op l).1
                  (omega (arith, lt, ensure-length b)),
        )

    -- A voltage that is set on a channel of a DAC is what a later call reads from it, whether or not the
    -- drivers were open before, whatever was called before, and whatever is called on the other DACs in
    -- between, calls that raise included. This where each DAC has a line of its own, on chips
    -- that behave as their data sheet says, for a voltage whose code has 16 bits.
    dac_readback :
        (reg : D → ℕ → ℕ) (b : Board D A R) (before between : List (DacCall V)) (idx channel : ℕ)
        (v : V)
        → IsDac dac reg
        → idx < length b.dacs
        → channel < 4
        → code_of v < 65536
        → All (λ k. idx_of k ≢ idx) between
        → (dac_get_voltage dac own code_of volts_of idx channel (
            run_dac between
              (dac_set_voltage dac own code_of volts_of idx channel v (run_dac before b)).1)).0
          ≡ ok (volts_of (code_of v))
    unfolding dac_get_voltage dac_set_voltage
    dac_readback reg b before between idx channel v laws lt ch fits others =
        let b1 : Board D A R = run_dac before b in
        let lt1 : idx < length b1.dacs = omega (arith, lt, run_dac-length before b) in
        let found =
          index-lt (ensure_dacs dac own b1).dacs idx (omega (arith, lt1, ensure-length b1)) in
        let set_v = Dac.set_voltage dac own code_of volts_of channel v in
        let get_v = Dac.get_voltage dac own code_of volts_of channel in
        let b2 : Board D A R = (on_dac dac own idx set_v b1).1 in
        let here = (on_dac-found idx set_v b1 found.0 found.1 lt1).1 in
        let left = run_dac-Leaves between b2 idx others (ensure-opened b1) in
        let b3 : Board D A R = run_dac between b2 in
        let there : index (ensure_dacs dac own b3).dacs idx ≡ ok (set_v found.0).1 =
          ap (λ (x : Board D A R). index x.dacs idx) (ensure-again b3 left.1) ∙ left.0 ∙ here in
        let lt3 : idx < length b3.dacs =
          omega (arith, lt1, run_dac-length between b2, (on_dac-Leaves idx set_v b1).same_length) in
        (on_dac-found idx get_v b3 (set_v found.0).1 there lt3).0
        ∙ (get_voltage-set_voltage dac reg own code_of volts_of channel v found.0 laws ch fits).0
