-- ===== src/Observer.antt =====
-- `CanObserver` of tools/firmware_test/can_observer.py: what is captured, and the queries. Time stamps are
-- numbers, in the source's order; the loop's reads are a sequence, `none` for a time-out or an error.
use ifs_hil.Prelude.{
  ℕ, ◌-◌, Bool, true, false, List, [], ◌∷◌, ◌++◌, Option, none, some, if◌then◌else◌, length, keep,
  leb, ltb, ◌==◌, max,
}
pub mod Queries

pub record Captured : Type 0 where
  pub timestamp : ℕ
  pub can_id : ℕ
  pub is_extended_id : Bool
  pub dlc : ℕ
  pub payload : List ℕ

-- A message that was received; a time stamp of 0 is replaced by the time of the read.
abbrev stamped : ℕ → Captured → Captured
stamped now m = if m.timestamp == 0 then record m { timestamp = now } else m

-- `_run`, with the time of each read.
unfoldable pub run : List (ℕ × Option Captured) → List Captured → List Captured
run [] captured = captured
run ((now, none) ∷ reads) captured = run reads captured
run ((now, some m) ∷ reads) captured = run reads (captured ++ (stamped now m ∷ []))

abbrev pub same_flag : Bool → Bool → Bool
same_flag a b = if a then b else if b then false else true

abbrev pub since_of : Option ℕ → List Captured → List Captured
since_of none fs = fs
since_of (some t) fs = keep (λ f. leb t f.timestamp) fs

abbrev pub with_id : Option ℕ → List Captured → List Captured
with_id none fs = fs
with_id (some i) fs = keep (λ f. f.can_id == i) fs

abbrev pub with_flag : Option Bool → List Captured → List Captured
with_flag none fs = fs
with_flag (some e) fs = keep (λ f. same_flag f.is_extended_id e) fs

unfoldable pub frames : Option ℕ → Option Bool → Option ℕ → List Captured → List Captured
frames can_id extended since captured =
    with_flag extended (with_id can_id (since_of since captured))

unfoldable pub count : ℕ → Bool → Option ℕ → List Captured → ℕ
unfolding frames
count can_id extended since captured = length (frames (some can_id) (some extended) since captured)

abbrev last_of : List Captured → Option Captured
last_of [] = none
last_of (f ∷ []) = some f
last_of (f ∷ g ∷ fs) = last_of (g ∷ fs)

unfoldable pub last : ℕ → Bool → List Captured → Option Captured
unfolding frames
last can_id extended captured = last_of (frames (some can_id) (some extended) none captured)

-- The time stamps of the bus do not decrease.
abbrev pub deltas : List Captured → List ℕ
deltas [] = []
deltas (f ∷ []) = []
deltas (f ∷ g ∷ fs) = (g.timestamp - f.timestamp) ∷ deltas (g ∷ fs)

abbrev pub largest : List ℕ → Option ℕ
largest [] = none
largest (d ∷ ds) = elim (largest ds) [ none ↦ some d | some m ↦ some (max d m) ]

-- In the unit of the time stamps; the source gives milliseconds.
unfoldable pub max_period : ℕ → Bool → Option ℕ → List Captured → Option ℕ
unfolding frames
max_period can_id extended since captured =
    let fs = frames (some can_id) (some extended) since captured in
    if ltb (length fs) 2 then none else largest (deltas fs)
