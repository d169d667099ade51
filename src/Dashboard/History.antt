-- ===== src/Dashboard/History.antt =====
-- The histories of `CanTracer`, dashboard/can_tracer.py, under every interleaving of its threads.
use ifs_hil.Prelude.{
  ℕ, zero, suc, ◌-◌, ◌≤◌, ◌<◌, ◌≡◌, refl, subst, List, [], ◌∷◌, ◌++◌, Option, none, some, length,
  get_elem?, drop, All, length-append, length-drop, arith, inl, inr, Option-cases,
}
use ifs_hil.Prelude.Every.{All-append, All-drop, All-set, All-get_elem?, All-weaken}
use ifs_hil.Prelude.Result.{Result-cases}
use ifs_hil.Prelude.Text.{Text}
use ifs_hil.Dashboard.Decode.{decode_ams}
use ifs_hil.Dashboard.Frame.{Frame, Received, parse, frame_of}
use ifs_hil.Dashboard.Tracer.{
  Phase, reading, died, numbered, recorded, Bus, Tracer, frame_received, frame_recorded,
  frame_handed, subscribed, unsubscribed, item_taken, subscribe, unsubscribe, take_item, on_bus,
  start_frame, record_phase, fan_phase, phase_of, new_buses, append_bounded, receive, record_frame,
  fan_out, Event, step, run, new_tracer,
}

-- The numbers of the frames increase.
abbrev pub Ascending : List Frame → Type 0
Ascending [] = Unit
Ascending (f ∷ fs) = All (λ (g : Frame). f.seq < g.seq) fs × Ascending fs

-- A frame on its way has a number that was given out, above every number of the history if it is not
-- recorded yet.
abbrev pub Pending : ℕ → List Frame → Phase → Type 0
Pending next history reading = Unit
Pending next history died = Unit
Pending next history (numbered f) = (f.seq ≤ next) × All (λ (g : Frame). g.seq < f.seq) history
Pending next history (recorded f) = Unit

pub record IsKept (maxlen next : ℕ) (b : Bus) : Type 0 where
  bounded : length b.history ≤ maxlen
  ascending : Ascending b.history
  given : All (λ (g : Frame). g.seq ≤ next) b.history
  pending : Pending next b.history b.phase

-- Every bus keeps at most `history_per_bus` frames, numbered in the order in which they stand.
abbrev pub IsOrdered : Tracer → Type 0
IsOrdered t = All (IsKept t.history_per_bus t.next_id) t.buses

Ascending-append :
    (fs : List Frame) (f : Frame)
    → Ascending fs
    → All (λ (g : Frame). g.seq < f.seq) fs
    → Ascending (fs ++ (f ∷ []))
Ascending-append [] f a h = (tt, tt)
Ascending-append (g ∷ fs) f (b, a) (p, h) =
    (All-append (λ (x : Frame). g.seq < x.seq) fs (f ∷ []) b (p, tt), Ascending-append fs f a h)

Ascending-drop : (n : ℕ) (fs : List Frame) → Ascending fs → Ascending (drop n fs)
Ascending-drop zero fs a = a
Ascending-drop (suc n) [] a = a
Ascending-drop (suc n) (f ∷ fs) (b, a) = Ascending-drop n fs a

-- A frame whose number is above those of the history is recorded in order.
append_bounded-IsKept :
    (maxlen next : ℕ) (b : Bus) (f : Frame)
    → IsKept maxlen next b
    → b.phase ≡ numbered f
    → IsKept maxlen next
        (record { name = b.name; history = append_bounded maxlen b.history f; phase = recorded f })
unfolding append_bounded
append_bounded-IsKept maxlen next b f k e =
    let p : Pending next b.history (numbered f) = subst (Pending next b.history) e k.pending in
    let n : ℕ = suc (length b.history) - maxlen in
    record {
      bounded =
          omega (arith, length-drop n (b.history ++ (f ∷ [])), length-append b.history (f ∷ []));
      ascending = Ascending-drop n _ (Ascending-append b.history f k.ascending p.1);
      given = All-drop _ n _ (All-append _ b.history (f ∷ []) k.given (p.0, tt));
      pending = tt;
    }

Pending-weaken :
    (n m : ℕ) (history : List Frame) (p : Phase) → n ≤ m → Pending n history p → Pending m history p
Pending-weaken n m history reading h q = tt
Pending-weaken n m history died h q = tt
Pending-weaken n m history (numbered f) h (q, a) = (omega (arith, h, q), a)
Pending-weaken n m history (recorded f) h q = tt

IsKept-weaken : (maxlen n m : ℕ) (b : Bus) → n ≤ m → IsKept maxlen n b → IsKept maxlen m b
IsKept-weaken maxlen n m b h k = record {
  bounded = k.bounded;
  ascending = k.ascending;
  given = All-weaken _ _ b.history (λ g q. omega (arith, h, q)) k.given;
  pending = Pending-weaken n m b.history b.phase h k.pending;
}

-- A bus whose thread gets to another point, with its history as it was.
IsKept-phase :
    (maxlen next : ℕ) (b : Bus) (p : Phase)
    → IsKept maxlen next b
    → Pending next b.history p
    → IsKept maxlen next (record b { phase = p })
IsKept-phase maxlen next b p k q = record {
  bounded = k.bounded;
  ascending = k.ascending;
  given = k.given;
  pending = q;
}

-- The number just given out is above those of every history.
Pending-phase_of :
    (maxlen next now : ℕ) (b : Bus) (r : Received)
    → IsKept maxlen next b
    → Pending (suc next) b.history (phase_of (frame_of (suc next) now b.name r))
unfolding frame_of
Pending-phase_of maxlen next now b r k = elim (Result-cases (decode_ams r.can_id r.payload)) [
  | inl p ↦ rw (p.1) (omega arith, All-weaken _ _ b.history (λ g q. omega (arith, q)) k.given)
  | inr p ↦ rw (p.1) tt
]

on_bus-IsOrdered :
    (i : ℕ) (move : Bus → Tracer → Tracer) (t : Tracer)
    → IsOrdered t
    → ((b : Bus) → IsKept t.history_per_bus t.next_id b → IsOrdered (move b t))
    → IsOrdered (on_bus i move t)
on_bus-IsOrdered i move t h f = elim (Option-cases (get_elem? t.buses i)) [
  | inl e ↦ rw (e, on_bus) h
  | inr p ↦ rw (p.1, on_bus) (f p.0 (All-get_elem? _ t.buses i p.0 h p.1))
]

start_frame-IsOrdered :
    (i now : ℕ) (r : Option Received) (p : Phase) (b : Bus) (t : Tracer)
    → IsOrdered t
    → IsKept t.history_per_bus t.next_id b
    → IsOrdered (start_frame i now r p b t)
start_frame-IsOrdered i now none p b t h k = h
start_frame-IsOrdered i now (some r) reading b t h k =
    All-set _ t.buses i _
      (All-weaken _ _ t.buses
        (λ c q. IsKept-weaken t.history_per_bus t.next_id (suc t.next_id) c (omega arith) q) h)
      (IsKept-phase t.history_per_bus (suc t.next_id) b _
        (IsKept-weaken t.history_per_bus t.next_id (suc t.next_id) b (omega arith) k)
        (Pending-phase_of t.history_per_bus t.next_id now b r k))
start_frame-IsOrdered i now (some r) died b t h k = h
start_frame-IsOrdered i now (some r) (numbered f) b t h k = h
start_frame-IsOrdered i now (some r) (recorded f) b t h k = h

record_phase-IsOrdered :
    (i : ℕ) (p : Phase) (b : Bus) (t : Tracer)
    → IsOrdered t
    → IsKept t.history_per_bus t.next_id b
    → b.phase ≡ p
    → IsOrdered (record_phase i p b t)
record_phase-IsOrdered i reading b t h k e = h
record_phase-IsOrdered i died b t h k e = h
record_phase-IsOrdered i (numbered f) b t h k e =
    All-set _ t.buses i _ h (append_bounded-IsKept t.history_per_bus t.next_id b f k e)
record_phase-IsOrdered i (recorded f) b t h k e = h

fan_phase-IsOrdered :
    (i : ℕ) (p : Phase) (b : Bus) (t : Tracer)
    → IsOrdered t
    → IsKept t.history_per_bus t.next_id b
    → IsOrdered (fan_phase i p b t)
fan_phase-IsOrdered i reading b t h k = h
fan_phase-IsOrdered i died b t h k = h
fan_phase-IsOrdered i (numbered f) b t h k = h
fan_phase-IsOrdered i (recorded f) b t h k =
    All-set _ t.buses i _ h (IsKept-phase t.history_per_bus t.next_id b reading k tt)

take_item-IsOrdered : (q : ℕ) (t : Tracer) → IsOrdered t → IsOrdered (take_item q t)
unfolding take_item
take_item-IsOrdered q t h = elim (Option-cases (get_elem? t.queues q)) [
  | inl e ↦ rw (e, take_item) h
  | inr p ↦ rw (p.1, take_item) h
]

step-IsOrdered : (e : Event) (t : Tracer) → IsOrdered t → IsOrdered (step e t)
unfolding step receive record_frame fan_out subscribe unsubscribe
step-IsOrdered (frame_received i now raw) t h =
    on_bus-IsOrdered i (λ b. start_frame i now (parse raw) b.phase b) t h
      (λ b k. start_frame-IsOrdered i now (parse raw) b.phase b t h k)
step-IsOrdered (frame_recorded i) t h =
    on_bus-IsOrdered i (λ b. record_phase i b.phase b) t h
      (λ b k. record_phase-IsOrdered i b.phase b t h k refl)
step-IsOrdered (frame_handed i) t h =
    on_bus-IsOrdered i (λ b. fan_phase i b.phase b) t h
      (λ b k. fan_phase-IsOrdered i b.phase b t h k)
step-IsOrdered (subscribed n) t h = h
step-IsOrdered (unsubscribed q) t h = h
step-IsOrdered (item_taken q) t h = take_item-IsOrdered q t h

run-IsOrdered-from : (es : List Event) (t : Tracer) → IsOrdered t → IsOrdered (run es t)
unfolding run
run-IsOrdered-from [] t h = h
run-IsOrdered-from (e ∷ es) t h = run-IsOrdered-from es (step e t) (step-IsOrdered e t h)

new_buses-IsKept : (maxlen : ℕ) (is : List Text) → All (IsKept maxlen 0) (new_buses is)
new_buses-IsKept maxlen [] = tt
new_buses-IsKept maxlen (i ∷ is) = (
  record { bounded = omega arith; ascending = tt; given = tt; pending = tt },
  new_buses-IsKept maxlen is,
)

-- From the start, whatever frames arrive and however the reader threads and the clients interleave, each
-- bus keeps at most `history_per_bus` frames, and their sequence numbers increase from the oldest to
-- the newest, none above the last number that was given out.
pub run-IsOrdered :
    (interfaces : List Text) (history_per_bus : ℕ) (es : List Event)
    → IsOrdered (run es (new_tracer interfaces history_per_bus))
unfolding new_tracer
run-IsOrdered interfaces history_per_bus es =
    run-IsOrdered-from es _ (new_buses-IsKept history_per_bus interfaces)
