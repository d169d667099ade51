-- ===== src/Flash/Bus.antt =====
-- The CAN bus as tools/flash.py sees it: what it has sent, and what its receive calls will return.
-- The answers are an explicit sequence, so that a statement over all buses is one over all peers,
-- timings and losses. `quiet` is a receive call that returns nothing, or a deadline that has passed.
-- The bus takes every frame that it is given.
use ifs_hil.Prelude.{ℕ, Bool, false, List, [], ◌∷◌, ◌++◌, if◌then◌else◌}
use ifs_hil.Prelude.Result.{Result, ok, err}

pub record Frame : Type 0 where
  pub id : ℕ
  pub payload : List ℕ

pub data Rx : Type 0 where
  frame : Frame → Rx
  quiet : Rx

pub record Bus : Type 0 where
  pub sent : List Frame
  pub rx : List Rx

-- An action on the bus, which may raise.
abbrev pub Exec : Type 0 → Type 0
Exec A = Bus → Result A × Bus

abbrev pub continue : {A B : Type 0} → Result A → (A → Exec B) → Exec B
continue (ok a) f b = f a b
continue (err e) f b = (err e, b)

infixl 5 ◌>>=◌ ◌>>◌
abbrev pub ◌>>=◌ : {A B : Type 0} → Exec A → (A → Exec B) → Exec B
◌>>=◌ m f b = let (r, b') = m b in continue r f b'

abbrev pub ◌>>◌ : {B : Type 0} → Exec (Unit {0}) → Exec B → Exec B
m >> k = m >>= λ _. k

abbrev pub pure : {A : Type 0} → A → Exec A
pure a b = (ok a, b)

abbrev pub lift : {A : Type 0} → Result A → Exec A
lift r b = (r, b)

-- `if not m: return False`, then `k`.
infixr 6 ◌&&then◌
abbrev pub ◌&&then◌ : Exec Bool → Exec Bool → Exec Bool
m &&then k = m >>= λ good. if good then k else pure false

unfoldable pub send : Frame → Exec (Unit {0})
send f b = (ok tt, record b { sent = b.sent ++ f ∷ [] })
