-- ===== src/Dut/Pins.antt =====
-- Reasoning about steps of a session of tools/flash_dut.py, and about the pins of its port.
use ifs_hil.Prelude.{
  ℕ, zero, suc, ◌<◌, ◌≡◌, ◌≢◌, refl, ap, Bool, false, List, [], ◌∷◌, ◌++◌, none, some, All, length,
  set, get_elem?-set_self,
}
use ifs_hil.Prelude.Result.{Result, ok, err}
use ifs_hil.Dut.Port.{State, Step, ◌then◌, continue, is_on}

-- What holds of the state after a step: `Q` of a value, `E` if it raised.
unfoldable pub Post :
    {A : Type 0} → (A → State → Type 0) → (State → Type 0) → Result A × State → Type 0
Post Q E (ok a, s) = Q a s
Post Q E (err e, s) = E s

module _ {A B : Type 0} (Q : A → State → Type 0) (R : B → State → Type 0) (E : State → Type 0)
    (f : A → Step B) (k : (a : A) (s : State) → Q a s → Post R E (f a s)) where
  Post-continue : (r : Result A) (s : State) → Post Q E (r, s) → Post R E (continue r f s)
  unfolding Post
  Post-continue (ok a) s h = k a s h
  Post-continue (err e) s h = h

  pub Post-then : (m : Step A) (s : State) → Post Q E (m s) → Post R E ((m then f) s)
  unfolding ◌then◌
  Post-then m s h = Post-continue (m s).0 (m s).1 h

pub Post-mono :
    {A : Type 0} (Q R : A → State → Type 0) (E F : State → Type 0) (r : Result A) (s : State)
    → ((a : A) (s : State) → Q a s → R a s)
    → ((s : State) → E s → F s)
    → Post Q E (r, s)
    → Post R F (r, s)
unfolding Post
Post-mono Q R E F (ok a) s f g h = f a s h
Post-mono Q R E F (err e) s f g h = g s h

pub All-snoc {ℓ κ} :
    {A : Type ℓ} (P : A → Type κ) (xs : List A) (x : A) → All P xs → P x → All P (xs ++ x ∷ [])
All-snoc P [] x h p = (p, tt)
All-snoc P (y ∷ xs) x h p = (h.0, All-snoc P xs x h.1 p)

pub is_on-set_self :
    (pins : List Bool) (i : ℕ) (v : Bool) → i < length pins → is_on (set pins i v) i ≡ v
is_on-set_self pins i v h =
    ap (λ o. elim o as (λ _. Bool) [ none ↦ false | some b ↦ b ]) (get_elem?-set_self pins i v h)

pub is_on-set_off :
    (pins : List Bool) (i j : ℕ) → is_on pins i ≡ false → is_on (set pins j false) i ≡ false
is_on-set_off [] i j h = refl
is_on-set_off (p ∷ pins) zero zero h = refl
is_on-set_off (p ∷ pins) zero (suc j) h = h
is_on-set_off (p ∷ pins) (suc i) zero h = h
is_on-set_off (p ∷ pins) (suc i) (suc j) h = is_on-set_off pins i j h

pub is_on-off_self : (pins : List Bool) (i : ℕ) → is_on (set pins i false) i ≡ false
is_on-off_self [] i = refl
is_on-off_self (p ∷ pins) zero = refl
is_on-off_self (p ∷ pins) (suc i) = is_on-off_self pins i

pub is_on-set_other :
    (pins : List Bool) (i j : ℕ) (v : Bool) → i ≢ j → is_on (set pins j v) i ≡ is_on pins i
is_on-set_other [] i j v h = refl
is_on-set_other (p ∷ pins) zero zero v h = absurd (h refl)
is_on-set_other (p ∷ pins) zero (suc j) v h = refl
is_on-set_other (p ∷ pins) (suc i) zero v h = refl
is_on-set_other (p ∷ pins) (suc i) (suc j) v h = is_on-set_other pins i j v (λ e. h (ap suc e))
