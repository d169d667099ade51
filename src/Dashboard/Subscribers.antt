-- ===== src/Dashboard/Subscribers.antt =====
-- The subscriptions of `CanTracer`, dashboard/can_tracer.py, in every state that it can get into.
use ifs_hil.Prelude.{
  ℕ, suc, ◌≤◌, ◌<◌, ◌≡◌, refl, false, ◌||◌, List, [], ◌∷◌, ◌++◌, Option, none, some, length,
  get_elem?, set, drop, elem, All, length-append, length-set, length-drop, arith, inl, inr,
  Option-cases, Bool-cases, ◌==◌,
}
use ifs_hil.Prelude.Text.{Text}
use ifs_hil.Prelude.Every.{All-append, All-set, All-get_elem?, All-weaken}
use ifs_hil.Dashboard.Frame.{Frame, Received, parse}
use ifs_hil.Dashboard.Tracer.{
  Phase, reading, died, numbered, recorded, Bus, Queue, Tracer, is_full, put, remove, remove_each,
  deliver, hand_out, on_bus, start_frame, record_phase, fan_phase, receive, record_frame, fan_out,
  subscribe, unsubscribe, take_item, Event, frame_received, frame_recorded, frame_handed,
  subscribed, unsubscribed, item_taken, step, run, new_tracer,
}
use ifs_hil.Dashboard.Fanout.{
  IsDistinct, IsDistinct-remove, IsDistinct-remove_each, Delivers, hand_out-Delivers,
}

-- A queue with a bound is within it.
abbrev pub IsBounded : Queue → Type 0
IsBounded q = 0 < q.maxsize → length q.items ≤ q.maxsize

record IsSound (t : Tracer) : Type 0 where
  distinct : IsDistinct t.subscribers
  known : All (λ s. s < length t.queues) t.subscribers
  bounded : All IsBounded t.queues

length-deliver :
    (f : Frame) (ss : List ℕ) (qs : List Queue) → length (deliver f ss qs).0 ≡ length qs
length-deliver f [] qs = refl
length-deliver f (s ∷ ss) qs = elim (Option-cases (get_elem? qs s)) [
  | inl e ↦ rw (e, deliver) (length-deliver f ss qs)
  | inr p ↦ elim (Bool-cases (is_full p.0)) [
    | inl t ↦ rw (p.1, t, deliver) (length-deliver f ss qs)
    | inr t ↦
        rw (p.1, t, deliver)
          (omega (arith, length-deliver f ss (set qs s (put f p.0)), length-set qs s (put f p.0)))
  ]
]

put-IsBounded : (f : Frame) (q : Queue) → is_full q ≡ false → IsBounded (put f q)
put-IsBounded f q h = ground (arith, h, length-append q.items (f ∷ []))

deliver-IsBounded :
    (f : Frame) (ss : List ℕ) (qs : List Queue)
    → All IsBounded qs
    → All IsBounded (deliver f ss qs).0
deliver-IsBounded f [] qs b = b
deliver-IsBounded f (s ∷ ss) qs b = elim (Option-cases (get_elem? qs s)) [
  | inl e ↦ rw (e, deliver) (deliver-IsBounded f ss qs b)
  | inr p ↦ elim (Bool-cases (is_full p.0)) [
    | inl t ↦ rw (p.1, t, deliver) (deliver-IsBounded f ss qs b)
    | inr t ↦
        rw (p.1, t, deliver)
          (deliver-IsBounded f ss (set qs s (put f p.0))
            (All-set IsBounded qs s (put f p.0) b (put-IsBounded f p.0 t)))
  ]
]

All-remove : (P : ℕ → Type 0) (q : ℕ) (ss : List ℕ) → All P ss → All P (remove q ss)
All-remove P q [] h = tt
All-remove P q (s ∷ ss) (p, h) = elim (Bool-cases (s == q)) [
  | inl e ↦ rw e h
  | inr e ↦ rw e (p, All-remove P q ss h)
]

All-remove_each : (P : ℕ → Type 0) (qs ss : List ℕ) → All P ss → All P (remove_each qs ss)
All-remove_each P [] ss h = h
All-remove_each P (q ∷ qs) ss h = All-remove_each P qs (remove q ss) (All-remove P q ss h)

hand_out-IsSound : (f : Frame) (t : Tracer) → IsSound t → IsSound (hand_out f t)
hand_out-IsSound f t k = record {
  distinct = IsDistinct-remove_each (deliver f t.subscribers t.queues).1 t.subscribers k.distinct;
  known = rw (length-deliver f t.subscribers t.queues) (
      All-remove_each (λ s. s < length t.queues) (deliver f t.subscribers t.queues).1 t.subscribers
        k.known);
  bounded = deliver-IsBounded f t.subscribers t.queues k.bounded;
}

elem-All : (n : ℕ) (ss : List ℕ) → All (λ s. s < n) ss → elem n ss ≡ false
elem-All n [] h = refl
elem-All n (s ∷ ss) (p, h) = ground (arith, p, elem-All n ss h)

elem-append : (n j : ℕ) (ss : List ℕ) → elem j (ss ++ (n ∷ [])) ≡ elem j ss || n == j
elem-append n j [] = ground arith
elem-append n j (s ∷ ss) = ground (arith, elem-append n j ss)

IsDistinct-append :
    (n : ℕ) (ss : List ℕ) → IsDistinct ss → All (λ s. s < n) ss → IsDistinct (ss ++ (n ∷ []))
IsDistinct-append n [] d h = (refl, tt)
IsDistinct-append n (s ∷ ss) (e, d) (p, h) =
    (ground (arith, e, p, elem-append n s ss), IsDistinct-append n ss d h)

subscribe-IsSound : (n : ℕ) (t : Tracer) → IsSound t → IsSound (subscribe n t)
unfolding subscribe
subscribe-IsSound n t k =
    let fresh : Queue = record { maxsize = n; items = [] } in
    let longer : length (t.queues ++ (fresh ∷ [])) ≡ suc (length t.queues) =
      omega (arith, length-append t.queues (fresh ∷ [])) in
    record {
      distinct = IsDistinct-append (length t.queues) t.subscribers k.distinct k.known;
      known = rw longer (
          All-append _ t.subscribers (length t.queues ∷ [])
            (All-weaken _ _ t.subscribers (λ s h. omega (arith, h)) k.known) (omega arith, tt));
      bounded = All-append IsBounded t.queues (fresh ∷ []) k.bounded ((λ h. omega arith), tt);
    }

unsubscribe-IsSound : (q : ℕ) (t : Tracer) → IsSound t → IsSound (unsubscribe q t)
unfolding unsubscribe
unsubscribe-IsSound q t k = record {
  distinct = IsDistinct-remove q t.subscribers k.distinct;
  known = All-remove _ q t.subscribers k.known;
  bounded = k.bounded;
}

take_item-IsSound : (q : ℕ) (t : Tracer) → IsSound t → IsSound (take_item q t)
unfolding take_item
take_item-IsSound q t k = elim (Option-cases (get_elem? t.queues q)) [
  | inl e ↦ rw (e, take_item) k
  | inr p ↦
      let u : Queue = p.0 in
      let v : Queue = record u { items = drop 1 u.items } in
      let b : IsBounded u = All-get_elem? IsBounded t.queues q u k.bounded p.1 in
      rw (p.1, take_item)
        (record {
          distinct = k.distinct;
          known = rw (length-set t.queues q v) k.known;
          bounded =
              All-set IsBounded t.queues q v k.bounded
                (λ h. omega (arith, b h, length-drop 1 u.items));
        })
]

start_frame-IsSound :
    (i now : ℕ) (r : Option Received) (p : Phase) (b : Bus) (t : Tracer)
    → IsSound t
    → IsSound (start_frame i now r p b t)
start_frame-IsSound i now none p b t k = k
start_frame-IsSound i now (some r) reading b t k = record {
  distinct = k.distinct;
  known = k.known;
  bounded = k.bounded;
}
start_frame-IsSound i now (some r) died b t k = k
start_frame-IsSound i now (some r) (numbered f) b t k = k
start_frame-IsSound i now (some r) (recorded f) b t k = k

record_phase-IsSound :
    (i : ℕ) (p : Phase) (b : Bus) (t : Tracer) → IsSound t → IsSound (record_phase i p b t)
record_phase-IsSound i reading b t k = k
record_phase-IsSound i died b t k = k
record_phase-IsSound i (numbered f) b t k = record {
  distinct = k.distinct;
  known = k.known;
  bounded = k.bounded;
}
record_phase-IsSound i (recorded f) b t k = k

fan_phase-IsSound :
    (i : ℕ) (p : Phase) (b : Bus) (t : Tracer) → IsSound t → IsSound (fan_phase i p b t)
fan_phase-IsSound i reading b t k = k
fan_phase-IsSound i died b t k = k
fan_phase-IsSound i (numbered f) b t k = k
fan_phase-IsSound i (recorded f) b t k =
    let h : IsSound (hand_out f t) = hand_out-IsSound f t k in
    record { distinct = h.distinct; known = h.known; bounded = h.bounded }

on_bus-IsSound :
    (i : ℕ) (move : Bus → Tracer → Tracer) (t : Tracer)
    → IsSound t
    → ((b : Bus) → IsSound (move b t))
    → IsSound (on_bus i move t)
on_bus-IsSound i move t k f = elim (Option-cases (get_elem? t.buses i)) [
  | inl e ↦ rw (e, on_bus) k
  | inr p ↦ rw (p.1, on_bus) (f p.0)
]

step-IsSound : (e : Event) (t : Tracer) → IsSound t → IsSound (step e t)
unfolding step receive record_frame fan_out
step-IsSound (frame_received i now raw) t k =
    on_bus-IsSound i (λ b. start_frame i now (parse raw) b.phase b) t k
      (λ b. start_frame-IsSound i now (parse raw) b.phase b t k)
step-IsSound (frame_recorded i) t k =
    on_bus-IsSound i (λ b. record_phase i b.phase b) t k (λ b. record_phase-IsSound i b.phase b t k)
step-IsSound (frame_handed i) t k =
    on_bus-IsSound i (λ b. fan_phase i b.phase b) t k (λ b. fan_phase-IsSound i b.phase b t k)
step-IsSound (subscribed n) t k = subscribe-IsSound n t k
step-IsSound (unsubscribed q) t k = unsubscribe-IsSound q t k
step-IsSound (item_taken q) t k = take_item-IsSound q t k

run-IsSound : (es : List Event) (t : Tracer) → IsSound t → IsSound (run es t)
unfolding run
run-IsSound [] t k = k
run-IsSound (e ∷ es) t k = run-IsSound es (step e t) (step-IsSound e t k)

-- In every state that events lead to from the start, a frame that is handed out joins the queue of each
-- subscriber that has room, and changes no other queue; the subscribers afterwards are those of
-- before, less the ones whose queue was full; and no queue with a bound holds more than it.
pub run-Delivers :
    (interfaces : List Text) (history_per_bus : ℕ) (es : List Event) (f : Frame) (j : ℕ)
    → Delivers f (run es (new_tracer interfaces history_per_bus)) j
      × All IsBounded (hand_out f (run es (new_tracer interfaces history_per_bus))).queues
unfolding new_tracer
run-Delivers interfaces history_per_bus es f j =
    let t : Tracer = run es (new_tracer interfaces history_per_bus) in
    let k : IsSound t = run-IsSound es _ (record { distinct = tt; known = tt; bounded = tt }) in
    (hand_out-Delivers f t j k.distinct, (hand_out-IsSound f t k).bounded)
