-- ===== src/Dut/Isolation.antt =====
-- The relays at the moment that `flash` of tools/flash_dut.py writes the image.
use ifs_hil.Prelude.{
  ℕ, suc, ◌-◌, ◌≤◌, ◌<◌, ◌≡◌, ◌≢◌, sym, subst, ◌∙◌, inl, inr, Bool, true, false, List, [], ◌∷◌,
  ◌++◌, arith, if◌then◌else◌, Bool-cases, All, length, set, length-set,
}
use ifs_hil.Prelude.Result.{Result, ok, err, runtime_error}
use ifs_hil.Dut.Port.{
  Port, Act, read_port, set_direction, write_pin, measure, listen, trigger, discover, write_image,
  write_port, State, ◌then◌, lift, note, switch, is_on, call,
}
use ifs_hil.Dut.Pins.{
  Post, Post-then, Post-mono, All-snoc, is_on-set_self, is_on-set_off, is_on-off_self,
  is_on-set_other,
}
use ifs_hil.Dut.Session.{Site, Plan, require, de_energise, draws_enough, energise}

-- Every pin of a list of slots is off.
abbrev pub Dark : List Bool → List ℕ → Type 0
Dark pins = All (λ s. is_on pins (s - 1) ≡ false)

-- The port's pins are outputs, the target's relay is closed and those of the other DUTs are open.
abbrev pub IsIsolated : ℕ → List ℕ → Port → Type 0
IsIsolated slot others p =
    (p.outputs ≡ true) × (is_on p.pins (slot - 1) ≡ true) × Dark p.pins others

-- An image is written only to an isolated carrier.
unfoldable pub IsSafe : ℕ → List ℕ → Act → Type 0
IsSafe slot others (write_image p) = IsIsolated slot others p
IsSafe slot others read_port = Unit
IsSafe slot others set_direction = Unit
IsSafe slot others (write_pin s v) = Unit
IsSafe slot others (measure a) = Unit
IsSafe slot others listen = Unit
IsSafe slot others trigger = Unit
IsSafe slot others discover = Unit
IsSafe slot others (write_port pins) = Unit

-- Every act so far is safe, and the port is as `Q` says.
abbrev pub Safe : ℕ → List ℕ → (Port → Type 0) → State → Type 0
Safe slot others Q s = All (IsSafe slot others) s.log × Q s.port

abbrev pub Anyhow : Port → Type 0
Anyhow p = Unit

pub call-Safe :
    (slot : ℕ) (others : List ℕ) (call_ok : ℕ → Bool) (a : Act) (effect : Port → Port)
    (Q : Port → Type 0) (s : State)
    → IsSafe slot others a
    → All (IsSafe slot others) s.log
    → Q (effect s.port)
    → Post (λ _. Safe slot others Q) (Safe slot others Anyhow) (call call_ok a effect s)
unfolding call Post
call-Safe slot others call_ok a effect Q s safe log q =
    let log' = All-snoc (IsSafe slot others) s.log a log safe in
    let s' = record s { calls = suc s.calls; log = s.log ++ a ∷ [] } in
    elim (Bool-cases (call_ok s.calls)) [
      | inl h ↦
          subst
            (λ b.
              Post (λ _. Safe slot others Q) (Safe slot others Anyhow)
                (if b
                  then (ok tt, record s' { port = effect s.port })
                  else (err runtime_error, s')))
            (sym h) (log', q)
      | inr h ↦
          subst
            (λ b.
              Post (λ _. Safe slot others Q) (Safe slot others Anyhow)
                (if b
                  then (ok tt, record s' { port = effect s.port })
                  else (err runtime_error, s')))
            (sym h) (log', tt)
    ]

-- A port set up for switching, with the relays of some slots open.
abbrev pub IsReady : ℕ → List ℕ → Port → Type 0
IsReady slot dark p = (p.outputs ≡ true) × (slot - 1 < length p.pins) × Dark p.pins dark

Dark-set :
    (pins : List Bool) (dark : List ℕ) (j : ℕ) → Dark pins dark → Dark (set pins j false) dark
Dark-set pins [] j h = tt
Dark-set pins (s ∷ dark) j h = (is_on-set_off pins (s - 1) j h.0, Dark-set pins dark j h.1)

Dark-set_other :
    (pins : List Bool) (dark : List ℕ) (slot : ℕ) (v : Bool)
    → 1 ≤ slot
    → All (λ s. (1 ≤ s) × (s ≢ slot)) dark
    → Dark pins dark
    → Dark (set pins (slot - 1) v) dark
Dark-set_other pins [] slot v le ne h = tt
Dark-set_other pins (s ∷ dark) slot v le ne h = (
  is_on-set_other pins (s - 1) (slot - 1) v (λ e. ne.0.1 (pred-injective s slot ne.0.0 le e)) ∙ h.0,
  Dark-set_other pins dark slot v le ne.1 h.1,
)
  where
    pred-injective : (m n : ℕ) → 1 ≤ m → 1 ≤ n → m - 1 ≡ n - 1 → m ≡ n
    pred-injective m n a b e = omega (arith, a, b, e)

-- No relay is at issue in these.
abbrev pub Good : ℕ → List ℕ → {A : Type 0} → (Port → Type 0) → Result A × State → Type 0
Good slot others Q = Post (λ _. Safe slot others Q) (Safe slot others Anyhow)

pub lift-Safe :
    {A : Type 0} (slot : ℕ) (others : List ℕ) (Q : Port → Type 0) (r : Result A) (s : State)
    → Safe slot others Q s
    → Good slot others Q (lift r s)
unfolding Post
lift-Safe slot others Q (ok a) s h = h
lift-Safe slot others Q (err e) s h = (h.0, tt)

pub note-Safe :
    (slot : ℕ) (others : List ℕ) (Q : Port → Type 0) (a : Act) (s : State)
    → IsSafe slot others a
    → Safe slot others Q s
    → Good slot others Q (note a s)
unfolding Post
note-Safe slot others Q a s safe h = (All-snoc (IsSafe slot others) s.log a h.0 safe, h.1)

module _ (site : Site) (plan : Plan) where
  abbrev S : (Port → Type 0) → State → Type 0
  S = Safe plan.slot plan.others

  -- Switching off keeps dark what is dark already.
  pub de_energise-Safe :
      (todo dark : List ℕ) (s : State)
      → S (IsReady plan.slot dark) s
      → Post
          (λ _ s'. S (IsReady plan.slot dark) s' × Dark s'.port.pins todo)
          (S Anyhow)
          (de_energise site plan todo s)
  unfolding de_energise IsSafe Post
  de_energise-Safe [] dark s h = (h, tt)
  de_energise-Safe (t ∷ todo) dark s h =
      let done = λ (_ : Unit {0}) (s' : State).
        S (IsReady plan.slot dark) s' × Dark s'.port.pins (t ∷ todo) in
      let p = s.port in
      Post-then (λ _. S (IsReady plan.slot (t ∷ dark))) done (S Anyhow)
        (λ _. de_energise site plan todo)
        (λ _ s' h'.
          Post-mono (λ _ s'. S (IsReady plan.slot (t ∷ dark)) s' × Dark s'.port.pins todo) done
            (S Anyhow) (S Anyhow) (de_energise site plan todo s').0
            (de_energise site plan todo s').1
            (λ _ s'' g. ((g.0.0, (g.0.1.0, g.0.1.1, g.0.1.2.1)), (g.0.1.2.0, g.1))) (λ s'' g. g)
            (de_energise-Safe todo (t ∷ dark) s' h'))
        (call site.call_ok (write_pin t false) (switch t false)) s
        (call-Safe plan.slot plan.others site.call_ok (write_pin t false) (switch t false)
          (IsReady plan.slot (t ∷ dark)) s tt h.0
          (
            h.1.0,
            subst (λ n. plan.slot - 1 < n) (sym (length-set p.pins (t - 1) false)) h.1.1,
            (is_on-off_self p.pins (t - 1), Dark-set p.pins dark (t - 1) h.1.2),
          ))

  module _ (le : 1 ≤ plan.slot) (apart : All (λ s. (1 ≤ s) × (s ≢ plan.slot)) plan.others) where
    abbrev Isolated : Port → Type 0
    Isolated = IsIsolated plan.slot plan.others

    pub energise-Safe :
        (s : State)
        → S (IsReady plan.slot plan.others) s
        → Good plan.slot plan.others Isolated (energise site plan s)
    unfolding energise IsSafe
    energise-Safe s h =
        Post-then (λ _. S Isolated) (λ _. S Isolated) (S Anyhow) _
          (λ _ s' h'.
            Post-then (λ _. S Isolated) (λ _. S Isolated) (S Anyhow) _
              (λ _ s'' h''.
                lift-Safe plan.slot plan.others Isolated (require (draws_enough site plan s''.port))
                  s'' h'')
              (call site.call_ok (measure plan.ina) (λ p. p)) s'
              (call-Safe plan.slot plan.others site.call_ok (measure plan.ina) (λ p. p) Isolated s'
                tt h'.0 h'.1))
          (call site.call_ok (write_pin plan.slot true) (switch plan.slot true)) s
          (call-Safe plan.slot plan.others site.call_ok (write_pin plan.slot true)
            (switch plan.slot true) Isolated s tt h.0
            (
              h.1.0,
              is_on-set_self s.port.pins (plan.slot - 1) true h.1.1,
              Dark-set_other s.port.pins plan.others plan.slot true le apart h.1.2,
            ))
