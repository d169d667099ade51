-- ===== src/Pico/Restore.antt =====
-- What `temporarily` and the injections of tools/pico_ltc_emulator/host/pico_ltc_client.py leave behind.
use ifs_hil.Prelude.{Bool, true, List, [], ◌∷◌, ◌≡◌, refl, map, inl, inr}
use ifs_hil.Prelude.Text.{Text, lit, rstrip}
use ifs_hil.Prelude.Result.{Result-cases, Result, ok, err}
use ifs_hil.Pico.{
  Client, Io, Wire, Override, accept, cell_line, temp_line, send_recv, overridden, temporarily,
  command, each, cleaned, reset_state,
}

-- The outcome of a block whose cleanup had an outcome of its own.
abbrev pub cleaned_up : {A : Type 0} → Result A → Result Text → Result A
cleaned_up r (ok reply) = r
cleaned_up r (err e) = err e

cleaned-reset_state :
    {A : Type 0} (device : List Text → Text → Wire) (r : Result A) (o : Bool) (log : List Text)
    → o ≡ true
    → cleaned r (reset_state device (record { is_open = o; sent = log })) ≡ (
      cleaned_up r (accept (device log (lit "RESET_STATE"))),
      record { is_open = true; sent = lit "RESET_STATE" ∷ log },
    )
unfolding send_recv rstrip
cleaned-reset_state device r o log h =
    elim (Result-cases (accept (device log (lit "RESET_STATE")))) [
      | inl p ↦ rw (h, p.1) refl
      | inr p ↦ rw (h, p.1) refl
    ]

-- When the block leaves the port open, `temporarily` sends RESET_STATE after everything that the block
-- sent, whether the block returned or raised: an override that the emulator rejects, or an exception of
-- the body, included. The outcome is the block's, unless the reset itself fails, whose exception it is.
pub temporarily-overridden :
    {A : Type 0} (device : List Text → Text → Wire) (cells temps : List Override) (body : Io A)
    (c : Client)
    → (overridden device cells temps body c).1.is_open ≡ true
    → temporarily device cells temps body c ≡ (
      cleaned_up
          (overridden device cells temps body c).0
          (accept (device (overridden device cells temps body c).1.sent (lit "RESET_STATE"))),
      record {
        is_open = true;
        sent = lit "RESET_STATE" ∷ (overridden device cells temps body c).1.sent;
      },
    )
unfolding temporarily send_recv rstrip
temporarily-overridden device cells temps body c h =
    cleaned-reset_state device (overridden device cells temps body c).0
      (overridden device cells temps body c).1.is_open (overridden device cells temps body c).1.sent
      h

-- The log of the lines sent, the last one first, once more lines are sent.
abbrev pub sent_after : List Text → List Text → List Text
sent_after [] log = log
sent_after (l ∷ ls) log = sent_after ls (l ∷ log)

-- The emulator takes every line.
abbrev pub Accepting : (List Text → Text → Wire) → Type 0
Accepting device =
    (log : List Text) (line : Text) → (reply : Text) × (accept (device log line) ≡ ok reply)

module _ (device : List Text → Text → Wire) (accepting : Accepting device) where
  command-Accepting :
      (line : Text) (log : List Text)
      → command device line (record { is_open = true; sent = log })
        ≡ (ok tt, record { is_open = true; sent = rstrip line ∷ log })
  unfolding send_recv
  command-Accepting line log = rw ((accepting log (rstrip line)).1) refl

  each-Accepting :
      {A : Type 0} (line_of : A → Text) (xs : List A) (log : List Text)
      → each (λ x. command device (line_of x)) xs (record { is_open = true; sent = log }) ≡ (
        ok tt,
        record { is_open = true; sent = sent_after (map (λ x. rstrip (line_of x)) xs) log },
      )
  each-Accepting line_of [] log = refl
  each-Accepting line_of (x ∷ xs) log =
      rw (command-Accepting (line_of x) log) (each-Accepting line_of xs (rstrip (line_of x) ∷ log))

  -- On an open port, with an emulator that takes every line, the body of `temporarily` runs once every
  -- override has been sent: those of the cells first, then those of the temperatures, each in its
  -- order. What the body does is the outcome.
  pub overridden-Accepting :
      {A : Type 0} (cells temps : List Override) (body : Io A) (log : List Text)
      → overridden device cells temps body (record { is_open = true; sent = log })
        ≡ body (record {
          is_open = true;
          sent =
              sent_after
                (map (λ (o : Override). rstrip (temp_line o.0 o.1 o.2)) temps)
                (sent_after (map (λ (o : Override). rstrip (cell_line o.0 o.1 o.2)) cells) log);
        })
  unfolding overridden
  overridden-Accepting cells temps body log =
      rw
        (
          each-Accepting (λ (o : Override). cell_line o.0 o.1 o.2) cells log,
          each-Accepting (λ (o : Override). temp_line o.0 o.1 o.2) temps
              (sent_after (map (λ (o : Override). rstrip (cell_line o.0 o.1 o.2)) cells) log),
        )
        refl
