-- ===== src/Dut/Port.antt =====
-- The relay port that tools/flash_dut.py drives through the broker, and the calls it makes. A call of
-- the broker may raise; then it changes nothing. The waits are not modelled.
use ifs_hil.Prelude.{
  ℕ, suc, ◌-◌, Bool, false, List, [], ◌∷◌, ◌++◌, none, some, if◌then◌else◌, get_elem?, set,
}
use ifs_hil.Prelude.Result.{Result, ok, err, runtime_error}

-- The output register of the port, by pins, and whether its pins are outputs.
pub record Port : Type 0 where
  pub pins : List Bool
  pub outputs : Bool

-- What a session does: calls of the broker, and commands on the bus. A write of the image carries the
-- port as it is then.
pub data Act : Type 0 where
  read_port set_direction : Act
  write_pin : (slot : ℕ) (value : Bool) → Act
  measure : (ina : ℕ) → Act
  listen trigger discover : Act
  write_image : Port → Act
  write_port : List Bool → Act

pub record State : Type 0 where
  pub port : Port
  pub calls : ℕ
  pub log : List Act

abbrev pub Step : Type 0 → Type 0
Step A = State → Result A × State

abbrev pub continue : {A B : Type 0} → Result A → (A → Step B) → Step B
continue (ok a) f s = f a s
continue (err e) f s = (err e, s)

infixl 5 ◌then◌
unfoldable pub ◌then◌ : {A B : Type 0} → Step A → (A → Step B) → Step B
◌then◌ m f s = let r = m s in continue r.0 f r.1

abbrev pub lift : {A : Type 0} → Result A → Step A
lift r s = (r, s)

abbrev pub note : Act → Step (Unit {0})
note a s = (ok tt, record s { log = s.log ++ a ∷ [] })

-- Pin `slot - 1`.
abbrev pub switch : ℕ → Bool → Port → Port
switch slot value p = record p { pins = set p.pins (slot - 1) value }

abbrev pub is_on : List Bool → ℕ → Bool
is_on pins i = elim (get_elem? pins i) [ none ↦ false | some b ↦ b ]

-- Which calls of the broker succeed, by their number.
module _ (call_ok : ℕ → Bool) where
  unfoldable pub call : Act → (Port → Port) → Step (Unit {0})
  call a effect s =
      let s' = record s { calls = suc s.calls; log = s.log ++ a ∷ [] } in
      if call_ok s.calls
      then (ok tt, record s' { port = effect s.port })
      else (err runtime_error, s')
