-- ===== src/Dashboard/Fanout.antt =====
-- The subscribers of `CanTracer`, dashboard/can_tracer.py: what a frame does to each of them.
use ifs_hil.Prelude.{
  ℕ, zero, suc, ◌≡◌, refl, Bool, false, not, ◌&&◌, List, [], ◌∷◌, Option, none, some, if◌then◌else◌,
  get_elem?, set, elem, arith, inl, inr, Option-cases, Bool-cases, ◌==◌,
}
use ifs_hil.Dashboard.Frame.{Frame}
use ifs_hil.Dashboard.Tracer.{Queue, Tracer, is_full, put, remove, remove_each, deliver, hand_out}

-- No subscriber stands twice.
abbrev pub IsDistinct : List ℕ → Type 0
IsDistinct [] = Unit
IsDistinct (s ∷ ss) = (elem s ss ≡ false) × IsDistinct ss

-- What a frame does to the queue of a subscriber.
abbrev pub offered : Frame → Option Queue → Option Queue
offered f none = none
offered f (some q) = some (if is_full q then q else put f q)

get_elem?-set :
    (qs : List Queue) (i j : ℕ) (q v : Queue)
    → get_elem? qs i ≡ some q
    → get_elem? (set qs i v) j ≡ (if i == j then some v else get_elem? qs j)
get_elem?-set [] i j q v e = cc
get_elem?-set (x ∷ qs) zero zero q v e = refl
get_elem?-set (x ∷ qs) zero (suc j) q v e = ground arith
get_elem?-set (x ∷ qs) (suc i) zero q v e = ground arith
get_elem?-set (x ∷ qs) (suc i) (suc j) q v e = ground (arith, get_elem?-set qs i j q v e)

-- The queue of a subscriber gets the frame if it has room; any other queue stays as it is.
get_elem?-deliver :
    (f : Frame) (ss : List ℕ) (qs : List Queue) (j : ℕ)
    → IsDistinct ss
    → get_elem? (deliver f ss qs).0 j
      ≡ (if elem j ss then offered f (get_elem? qs j) else get_elem? qs j)
get_elem?-deliver f [] qs j d = refl
get_elem?-deliver f (s ∷ ss) qs j (n, d) = elim (Option-cases (get_elem? qs s)) [
  | inl e ↦ rw (e, deliver) (ground (arith, e, n, get_elem?-deliver f ss qs j d))
  | inr p ↦ elim (Bool-cases (is_full p.0)) [
    | inl t ↦ rw (p.1, t, deliver) (ground (arith, p.1, t, n, get_elem?-deliver f ss qs j d))
    | inr t ↦
        rw (p.1, t, deliver)
          (ground (
            arith,
            p.1,
            t,
            n,
            get_elem?-set qs s j p.0 (put f p.0) p.1,
            get_elem?-deliver f ss (set qs s (put f p.0)) j d,
          ))
  ]
]

abbrev pub full_at : Option Queue → Bool
full_at none = false
full_at (some q) = is_full q

elem-deliver :
    (f : Frame) (ss : List ℕ) (qs : List Queue) (j : ℕ)
    → IsDistinct ss
    → elem j (deliver f ss qs).1 ≡ elem j ss && full_at (get_elem? qs j)
elem-deliver f [] qs j d = refl
elem-deliver f (s ∷ ss) qs j (n, d) = elim (Option-cases (get_elem? qs s)) [
  | inl e ↦ rw (e, deliver) (ground (arith, e, n, elem-deliver f ss qs j d))
  | inr p ↦ elim (Bool-cases (is_full p.0)) [
    | inl t ↦ rw (p.1, t, deliver) (ground (arith, p.1, t, n, elem-deliver f ss qs j d))
    | inr t ↦
        rw (p.1, t, deliver)
          (ground (
            arith,
            p.1,
            t,
            n,
            get_elem?-set qs s j p.0 (put f p.0) p.1,
            elem-deliver f ss (set qs s (put f p.0)) j d,
          ))
  ]
]

elem-remove :
    (q j : ℕ) (ss : List ℕ) → IsDistinct ss → elem j (remove q ss) ≡ elem j ss && not (q == j)
elem-remove q j [] d = refl
elem-remove q j (s ∷ ss) (n, d) = ground (arith, n, elem-remove q j ss d)

pub IsDistinct-remove : (q : ℕ) (ss : List ℕ) → IsDistinct ss → IsDistinct (remove q ss)
IsDistinct-remove q [] d = tt
IsDistinct-remove q (s ∷ ss) (n, d) =
    ground (arith, n, d, elem-remove q s ss d, IsDistinct-remove q ss d)

elem-remove_each :
    (qs : List ℕ) (j : ℕ) (ss : List ℕ)
    → IsDistinct ss
    → elem j (remove_each qs ss) ≡ elem j ss && not (elem j qs)
elem-remove_each [] j ss d = ground arith
elem-remove_each (q ∷ qs) j ss d =
    ground
      (arith, elem-remove q j ss d, elem-remove_each qs j (remove q ss) (IsDistinct-remove q ss d))

pub IsDistinct-remove_each : (qs ss : List ℕ) → IsDistinct ss → IsDistinct (remove_each qs ss)
IsDistinct-remove_each [] ss d = d
IsDistinct-remove_each (q ∷ qs) ss d =
    IsDistinct-remove_each qs (remove q ss) (IsDistinct-remove q ss d)

-- What a frame that is handed out does to one queue and its subscription.
pub record Delivers (f : Frame) (t : Tracer) (j : ℕ) : Type 0 where
  queue_after :
      get_elem? (hand_out f t).queues j
      ≡ (if elem j t.subscribers then offered f (get_elem? t.queues j) else get_elem? t.queues j)
  stays :
      elem j (hand_out f t).subscribers
      ≡ elem j t.subscribers && not (full_at (get_elem? t.queues j))

pub hand_out-Delivers : (f : Frame) (t : Tracer) (j : ℕ) → IsDistinct t.subscribers → Delivers f t j
hand_out-Delivers f t j d = record {
  queue_after = get_elem?-deliver f t.subscribers t.queues j d;
  stays = ground (
    arith,
    elem-remove_each (deliver f t.subscribers t.queues).1 j t.subscribers d,
    elem-deliver f t.subscribers t.queues j d,
  );
}
