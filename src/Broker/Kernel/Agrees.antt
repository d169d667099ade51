-- ===== src/Broker/Kernel/Agrees.antt =====
-- `HardwareManager` of broker/bus.py against `FakeHardwareManager` of broker/fake_bus.py, on the modes of
-- the CAN buses.
use ifs_hil.Prelude.{
  ℕ, zero, suc, ◌<◌, ◌≡◌, refl, ◌∙◌, subst, Bool, true, List, [], ◌∷◌, ◌==◌, if◌then◌else◌, set,
  length, All, length-set, Bool-cases, inl, inr, arith,
}
use ifs_hil.Prelude.Indexed.{index-lt, index-set}
use ifs_hil.Prelude.Result.{Result, ok, index, ◌>>=◌}
use ifs_hil.Broker.Fake.{Fake, Can}
use ifs_hil.Broker.Fake
use ifs_hil.Broker.Kernel.{
  Host, Manager, mode_config, mode_loopback, can_set_mode, can_reset, can_init, can_get_mode,
  new_manager,
}
use ifs_hil.Broker.Kernel.Modes.{
  IsLinks, IsWhole, Settles, Ended, legal_mode, can_get_mode-up, can_set_mode-Settles,
  can_reset-Settles, can_init-Settles,
}

-- A call of a client that changes a mode.
pub data CanCall : Type 0 where
  set_mode : (idx mode : ℕ) → CanCall
  reset : (idx : ℕ) → CanCall
  init : (idx bitrate : ℕ) → CanCall

abbrev bus_of : CanCall → ℕ
bus_of (set_mode idx mode) = idx
bus_of (reset idx) = idx
bus_of (init idx bitrate) = idx

-- One of the three buses, and one of the three modes.
abbrev pub IsLegal : CanCall → Type 0
IsLegal (set_mode idx mode) = (idx < 3) × (legal_mode mode ≡ mode)
IsLegal (reset idx) = idx < 3
IsLegal (init idx bitrate) = idx < 3

abbrev target : CanCall → ℕ
target (set_mode idx mode) = mode
target (reset idx) = mode_config
target (init idx bitrate) = mode_config

module _ {W : Type 0} (h : Host W) where
  abbrev call_real : CanCall → Manager W → Manager W
  call_real (set_mode idx mode) m = (can_set_mode h idx mode m).1
  call_real (reset idx) m = (can_reset h idx m).1
  call_real (init idx bitrate) m = (can_init h idx bitrate m).1

  abbrev pub run_real : List CanCall → Manager W → Manager W
  run_real [] m = m
  run_real (c ∷ cs) m = run_real cs (call_real c m)

set-Moves :
    (idx j : ℕ) (c : Can) (cs : List Can)
    → idx < length cs
    → (index (set cs idx c) j >>= λ d. ok d.mode)
      ≡ (if idx == j then ok c.mode else (index cs j >>= λ d. ok d.mode))
set-Moves idx j c cs lt = rw (index-set cs idx j c lt) (ground arith)

module _ {V : Type 0} where
  abbrev call_fake : CanCall → Fake V → Fake V
  call_fake (set_mode idx mode) f = (Fake.can_set_mode idx mode f).1
  call_fake (reset idx) f = (Fake.can_reset idx f).1
  call_fake (init idx bitrate) f = (Fake.can_init idx f).1

  abbrev pub run_fake : List CanCall → Fake V → Fake V
  run_fake [] f = f
  run_fake (c ∷ cs) f = run_fake cs (call_fake c f)

  -- The mode that the in-memory backend holds for a bus.
  abbrev pub fake_mode : ℕ → Fake V → Result ℕ
  fake_mode idx f = index f.can idx >>= λ c. ok c.mode

  -- A call of the in-memory backend sets the mode of its bus alone.
  record Moves (idx mode : ℕ) (f g : Fake V) : Type 0 where
    count : length g.can ≡ 3
    modes : (j : ℕ) → fake_mode j g ≡ (if idx == j then ok mode else fake_mode j f)

  call_fake-Moves :
      (c : CanCall) (f : Fake V)
      → IsLegal c
      → length f.can ≡ 3
      → Moves (bus_of c) (target c) f (call_fake c f)
  unfolding Fake.can_set_mode Fake.can_reset Fake.can_init
  call_fake-Moves (set_mode idx mode) f h k =
      let b = index-lt f.can idx (omega (arith, h, k)) in
      rw (b.1, call_fake)
        (record {
          count = length-set f.can idx _ ∙ k;
          modes = λ j. set-Moves idx j _ f.can (omega (arith, h, k));
        })
  call_fake-Moves (reset idx) f h k =
      let b = index-lt f.can idx (omega (arith, h, k)) in
      rw (b.1, call_fake)
        (record {
          count = length-set f.can idx _ ∙ k;
          modes = λ j. set-Moves idx j _ f.can (omega (arith, h, k));
        })
  call_fake-Moves (init idx bitrate) f h k =
      let b = index-lt f.can idx (omega (arith, h, k)) in
      rw (b.1, call_fake)
        (record {
          count = length-set f.can idx _ ∙ k;
          modes = λ j. set-Moves idx j _ f.can (omega (arith, h, k));
        })

-- Every `ip link set ... up` succeeds.
abbrev pub AlwaysUp : {W : Type 0} → Host W → Type 0
AlwaysUp {W} h =
    (idx bitrate : ℕ) (loopback : Bool) (w : W) → (h.ip_up idx bitrate loopback w).0 ≡ ok tt

module _ {W : Type 0} (h : Host W) (laws : IsLinks h) (ups : AlwaysUp h) where
  can_set_mode-returns :
      (idx mode : ℕ) (m : Manager W) → idx < 3 → IsWhole m → (can_set_mode h idx mode m).0 ≡ ok true
  unfolding can_set_mode
  can_set_mode-returns idx mode m lt k =
      let b = index-lt m.bus_open idx (omega (arith, lt, k.buses)) in
      elim (Bool-cases (mode == mode_config)) [
        | inl e ↦ rw (e, b.1) refl
        | inr e ↦ rw (e, b.1, ups idx m.bitrate (mode == mode_loopback) (h.ip_down idx m.host)) refl
      ]

  can_reset-returns :
      (idx : ℕ) (m : Manager W) → idx < 3 → IsWhole m → (can_reset h idx m).0 ≡ ok tt
  unfolding can_reset
  can_reset-returns idx m lt k =
      let b = index-lt m.bus_open idx (omega (arith, lt, k.buses)) in rw (b.1) refl

  can_init-returns :
      (idx br : ℕ) (m : Manager W) → idx < 3 → IsWhole m → (can_init h idx br m).0 ≡ ok true
  unfolding can_init
  can_init-returns idx br m lt k =
      let b = index-lt m.bus_open idx (omega (arith, lt, k.buses)) in rw (b.1) refl

  -- The mode of every bus after a call that returned.
  Settles-moves :
      {A : Type 0} (idx mode : ℕ) (a : A) (m : Manager W) (r : Result A × Manager W) (j : ℕ)
      → Settles h idx mode m r
      → r.0 ≡ ok a
      → can_get_mode h j r.1 ≡ (if idx == j then ok mode else can_get_mode h j m)
  Settles-moves idx mode a m r j s e = elim (Bool-cases (idx == j)) [
    | inl t ↦
        let same : idx ≡ j = ground (arith, t) in
        rw t (
          subst (λ i. can_get_mode h i r.1 ≡ ok mode) same
            (subst (λ q. Ended q mode (can_get_mode h idx m) (can_get_mode h idx r.1)) e s.settled))
    | inr t ↦ rw t (s.others j (ground (arith, t)))
  ]

  call_real-moves :
      (c : CanCall) (m : Manager W) (j : ℕ)
      → IsLegal c
      → IsWhole m
      → IsWhole (call_real h c m)
        × (can_get_mode h j (call_real h c m)
            ≡ (if bus_of c == j then ok (target c) else can_get_mode h j m))
  call_real-moves (set_mode idx mode) m j l k =
      let s = can_set_mode-Settles h laws idx mode m l.0 k in
      (
        s.whole,
        subst
            (λ t.
              can_get_mode h j (can_set_mode h idx mode m).1
              ≡ (if idx == j then ok t else can_get_mode h j m))
            l.1
            (Settles-moves idx (legal_mode mode) true m _ j s
              (can_set_mode-returns idx mode m l.0 k)),
      )
  call_real-moves (reset idx) m j l k =
      let s = can_reset-Settles h laws idx m l k in
      (s.whole, Settles-moves idx mode_config tt m _ j s (can_reset-returns idx m l k))
  call_real-moves (init idx br) m j l k =
      let s = can_init-Settles h laws idx br m l k in
      (s.whole, Settles-moves idx mode_config true m _ j s (can_init-returns idx br m l k))

  run_real-refines-from :
      {V : Type 0} (cs : List CanCall) (m : Manager W) (f : Fake V)
      → All IsLegal cs
      → IsWhole m
      → length f.can ≡ 3
      → ((j : ℕ) → j < 3 → can_get_mode h j m ≡ fake_mode j f)
      → (j : ℕ) → j < 3
      → can_get_mode h j (run_real h cs m) ≡ fake_mode j (run_fake cs f)
  run_real-refines-from [] m f l k n agree j lt = agree j lt
  run_real-refines-from (c ∷ cs) m f (l, ls) k n agree j lt =
      let g = call_fake-Moves c f l n in
      run_real-refines-from cs (call_real h c m) (call_fake c f) ls (call_real-moves c m j l k).0
        g.count (λ i lt'. rw (g.modes i, (call_real-moves c m i l k).1, agree i lt') refl) j lt

  new_manager-init :
      {V : Type 0} (zero_v : V) (w : W) (bitrate i : ℕ)
      → i < 3
      → can_get_mode h i (new_manager w bitrate) ≡ fake_mode i (Fake.init zero_v)
  unfolding Fake.init new_manager
  new_manager-init zero_v w bitrate zero lt =
      can_get_mode-up h 0 (new_manager w bitrate) ∙ ground arith
  new_manager-init zero_v w bitrate (suc zero) lt =
      can_get_mode-up h 1 (new_manager w bitrate) ∙ ground arith
  new_manager-init zero_v w bitrate (suc (suc zero)) lt =
      can_get_mode-up h 2 (new_manager w bitrate) ∙ ground arith
  new_manager-init zero_v w bitrate (suc (suc (suc i))) lt = absurd (omega (arith, lt))

  -- A client sees the same modes of the three buses on `HardwareManager` and on `FakeHardwareManager`,
  -- after any calls of `can_set_mode`, `can_reset` and `can_init` for those buses and the modes CONFIG,
  -- NORMAL and LOOPBACK, from the start of both, when `ip link` keeps its promises and never fails to
  -- set a link up.
  pub run_real-Refines :
      {V : Type 0} (zero_v : V) (w : W) (bitrate : ℕ) (cs : List CanCall) (j : ℕ)
      → All IsLegal cs
      → j < 3
      → can_get_mode h j (run_real h cs (new_manager w bitrate))
        ≡ fake_mode j (run_fake cs (Fake.init zero_v))
  unfolding Fake.init new_manager
  run_real-Refines zero_v w bitrate cs j legal lt =
      run_real-refines-from cs (new_manager w bitrate) (Fake.init zero_v) legal
        (record { bytes = refl; buses = refl }) refl (new_manager-init zero_v w bitrate) j lt
