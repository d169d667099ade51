-- ===== src/Dashboard/Tracer.antt =====
-- `CanTracer` of dashboard/can_tracer.py. A reader thread takes three steps for a frame: it numbers the
-- frame under one lock, records it, and hands it to the subscribers under another; the steps of
-- several threads and of the clients interleave. The socket and the clock are the arguments of a step.
use ifs_hil.Prelude.{
  ℕ, suc, ◌-◌, Bool, true, false, ◌&&◌, List, [], ◌∷◌, ◌++◌, Option, none, some, ltb, leb, ◌==◌,
  if◌then◌else◌, length, get_elem?, set, drop,
}
use ifs_hil.Prelude.Text.{Text, same}
use ifs_hil.Prelude.Result.{Result, ok, err}
use ifs_hil.Dashboard.Frame.{Frame, Received, parse, frame_of}

-- Where a reader thread stands; `died` if an exception left its loop.
pub data Phase : Type 0 where
  reading died : Phase
  numbered recorded : Frame → Phase

pub record Bus : Type 0 where
  pub name : Text
  pub history : List Frame
  pub phase : Phase

-- A client's queue; a `maxsize` of 0 is no bound.
pub record Queue : Type 0 where
  pub maxsize : ℕ
  pub items : List Frame

-- A queue is named by its place among all that were made.
pub record Tracer : Type 0 where
  pub history_per_bus : ℕ
  pub buses : List Bus
  pub next_id : ℕ
  pub queues : List Queue
  pub subscribers : List ℕ

abbrev pub new_bus : Text → Bus
new_bus iface = record { name = iface; history = []; phase = reading }

abbrev pub new_buses : List Text → List Bus
new_buses [] = []
new_buses (i ∷ is) = new_bus i ∷ new_buses is

unfoldable pub new_tracer : List Text → ℕ → Tracer
new_tracer interfaces history_per_bus = record {
  history_per_bus = history_per_bus;
  buses = new_buses interfaces;
  next_id = 0;
  queues = [];
  subscribers = [];
}

-- deque.append, which drops from the left what is over maxlen.
unfoldable pub append_bounded : ℕ → List Frame → Frame → List Frame
append_bounded maxlen frames f = drop (suc (length frames) - maxlen) (frames ++ (f ∷ []))

-- The thread of the i-th bus moves, if it stands where the move starts.
abbrev pub on_bus : ℕ → (Bus → Tracer → Tracer) → Tracer → Tracer
on_bus i move t = elim (get_elem? t.buses i) [ none ↦ t | some b ↦ move b t ]

abbrev pub put_bus : ℕ → Bus → Tracer → Tracer
put_bus i b t = record t { buses = set t.buses i b }

abbrev pub phase_of : Result Frame → Phase
phase_of (ok f) = numbered f
phase_of (err e) = died

abbrev pub number_frame : ℕ → ℕ → Received → Bus → Tracer → Tracer
number_frame i now r b t = record t {
  buses = set t.buses i (record b { phase = phase_of (frame_of (suc t.next_id) now b.name r) });
  next_id = suc t.next_id;
}

abbrev pub start_frame : ℕ → ℕ → Option Received → Phase → Bus → Tracer → Tracer
start_frame i now (some r) reading b t = number_frame i now r b t
start_frame i now (some r) died b t = t
start_frame i now (some r) (numbered f) b t = t
start_frame i now (some r) (recorded f) b t = t
start_frame i now none phase b t = t

unfoldable pub receive : ℕ → ℕ → List ℕ → Tracer → Tracer
unfolding frame_of
receive i now raw = on_bus i (λ b. start_frame i now (parse raw) b.phase b)

abbrev pub record_phase : ℕ → Phase → Bus → Tracer → Tracer
record_phase i (numbered f) b t =
    put_bus i
      (record {
        name = b.name;
        history = append_bounded t.history_per_bus b.history f;
        phase = recorded f;
      })
      t
record_phase i reading b t = t
record_phase i died b t = t
record_phase i (recorded f) b t = t

unfoldable pub record_frame : ℕ → Tracer → Tracer
unfolding append_bounded
record_frame i = on_bus i (λ b. record_phase i b.phase b)

-- put_nowait raises Full.
abbrev pub is_full : Queue → Bool
is_full q = ltb 0 q.maxsize && leb q.maxsize (length q.items)

abbrev pub put : Frame → Queue → Queue
put f q = record q { items = q.items ++ (f ∷ []) }

-- list.remove of the first that is equal; a missing one is passed over.
abbrev pub remove : ℕ → List ℕ → List ℕ
remove q [] = []
remove q (s ∷ ss) = if s == q then ss else s ∷ remove q ss

abbrev pub remove_each : List ℕ → List ℕ → List ℕ
remove_each [] ss = ss
remove_each (q ∷ qs) ss = remove_each qs (remove q ss)

-- The queues after a frame is put into each subscriber's, and the subscribers whose queue was full.
abbrev pub deliver : Frame → List ℕ → List Queue → List Queue × List ℕ
deliver f [] qs = (qs, [])
deliver f (s ∷ ss) qs = elim (get_elem? qs s) [
  | none ↦ deliver f ss qs
  | some q ↦ elim (is_full q) [
    | true ↦ (let r = deliver f ss qs in (r.0, s ∷ r.1))
    | false ↦ deliver f ss (set qs s (put f q))
  ]
]

abbrev pub hand_out : Frame → Tracer → Tracer
hand_out f t =
    let r = deliver f t.subscribers t.queues in
    record t { queues = r.0; subscribers = remove_each r.1 t.subscribers }

abbrev pub fan_phase : ℕ → Phase → Bus → Tracer → Tracer
fan_phase i (recorded f) b t = put_bus i (record b { phase = reading }) (hand_out f t)
fan_phase i reading b t = t
fan_phase i died b t = t
fan_phase i (numbered f) b t = t

unfoldable pub fan_out : ℕ → Tracer → Tracer
fan_out i = on_bus i (λ b. fan_phase i b.phase b)

unfoldable pub subscribe : ℕ → Tracer → Tracer
subscribe maxsize t = record t {
  queues = t.queues ++ (record { maxsize = maxsize; items = [] } ∷ []);
  subscribers = t.subscribers ++ (length t.queues ∷ []);
}

unfoldable pub unsubscribe : ℕ → Tracer → Tracer
unsubscribe q t = record t { subscribers = remove q t.subscribers }

-- A client takes the oldest frame of its queue.
unfoldable pub take_item : ℕ → Tracer → Tracer
take_item q t = elim (get_elem? t.queues q) [
  | none ↦ t
  | some u ↦ record t { queues = set t.queues q (record u { items = drop 1 u.items }) }
]

-- xs[-n:], which is the whole list for n = 0.
abbrev last_n : ℕ → List Frame → List Frame
last_n n frames = if n == 0 then frames else drop (length frames - n) frames

abbrev find_bus : Text → List Bus → Option Bus
find_bus iface [] = none
find_bus iface (b ∷ bs) = if same b.name iface then some b else find_bus iface bs

abbrev history_of_all : List Bus → List Frame
history_of_all [] = []
history_of_all (b ∷ bs) = b.history ++ history_of_all bs

-- A stable sort by the time.
abbrev insert_by_time : Frame → List Frame → List Frame
insert_by_time f [] = f ∷ []
insert_by_time f (g ∷ gs) = elim (leb f.ts_ms g.ts_ms) [
  | true ↦ f ∷ g ∷ gs
  | false ↦ g ∷ insert_by_time f gs
]

abbrev by_time : List Frame → List Frame
by_time [] = []
by_time (f ∷ fs) = insert_by_time f (by_time fs)

unfoldable pub recent : Option Text → ℕ → Tracer → List Frame
recent none n t = last_n n (by_time (history_of_all t.buses))
recent (some iface) n t = elim (find_bus iface t.buses) [
  | none ↦ last_n n (by_time (history_of_all t.buses))
  | some b ↦ last_n n b.history
]

-- What happens to the tracer.
pub data Event : Type 0 where
  frame_received : (bus now : ℕ) (raw : List ℕ) → Event
  frame_recorded frame_handed : (bus : ℕ) → Event
  subscribed : (maxsize : ℕ) → Event
  unsubscribed item_taken : (queue : ℕ) → Event

unfoldable pub step : Event → Tracer → Tracer
unfolding receive record_frame fan_out subscribe unsubscribe take_item
step (frame_received i now raw) t = receive i now raw t
step (frame_recorded i) t = record_frame i t
step (frame_handed i) t = fan_out i t
step (subscribed maxsize) t = subscribe maxsize t
step (unsubscribed q) t = unsubscribe q t
step (item_taken q) t = take_item q t

unfoldable pub run : List Event → Tracer → Tracer
run [] t = t
run (e ∷ es) t = run es (step e t)
