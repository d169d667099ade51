-- ===== src/Broker/Kernel/Modes.antt =====
-- The modes of the CAN buses in `HardwareManager`, broker/bus.py, whatever `ip link` answers.
use ifs_hil.Prelude.{
  ℕ, ◌<◌, ◌≡◌, ◌≢◌, refl, sym, ap, ◌∙◌, ◌⊎◌, Bool, true, false, ◌==◌, if◌then◌else◌, set, length,
  length-set, Bool-cases, inl, inr, arith,
}
use ifs_hil.Prelude.Indexed.{index-lt, index-set}
use ifs_hil.Prelude.Result.{Result, Exc, ok, err, index, Result-cases}
use ifs_hil.Broker.Kernel.{
  Shown, Host, Manager, mode_config, mode_normal, mode_loopback, can_set_mode, can_reset, can_init,
  can_get_mode, to_config, to_up, counted, set_byte, link_down,
}

-- The link is shown, and it is not down.
abbrev pub is_up : Result Shown → Bool
is_up (err e) = false
is_up (ok s) = if s.is_down then false else true

-- What `ip link` promises: a link set down is not up, unless the command fails, which leaves it as it was;
-- one that was set up is, a failure to set it up
-- leaves it as it was, and no command and no frame changes whether another link is up.
pub record IsLinks {W : Type 0} (h : Host W) : Type 0 where
  pub down_shows :
      (idx : ℕ) (w : W)
      → (is_up (h.show idx (h.ip_down idx w)) ≡ false)
        ⊎ (is_up (h.show idx (h.ip_down idx w)) ≡ is_up (h.show idx w))
  pub up_shows :
      (idx bitrate : ℕ) (loopback : Bool) (w : W)
      → (h.ip_up idx bitrate loopback w).0 ≡ ok tt
      → is_up (h.show idx (h.ip_up idx bitrate loopback w).1) ≡ true
  pub up_fails :
      (idx bitrate : ℕ) (loopback : Bool) (w : W) (e : Exc)
      → (h.ip_up idx bitrate loopback w).0 ≡ err e
      → is_up (h.show idx (h.ip_up idx bitrate loopback w).1) ≡ is_up (h.show idx w)
  pub down_others : (idx j : ℕ) (w : W) → idx ≢ j → h.show j (h.ip_down idx w) ≡ h.show j w
  pub up_others :
      (idx j bitrate : ℕ) (loopback : Bool) (w : W)
      → idx ≢ j
      → h.show j (h.ip_up idx bitrate loopback w).1 ≡ h.show j w

-- There are three buses.
pub record IsWhole {W : Type 0} (m : Manager W) : Type 0 where
  pub bytes : length m.mode_bytes ≡ 3
  pub buses : length m.bus_open ≡ 3

abbrev pub legal_mode : ℕ → ℕ
legal_mode mode =
    if mode == mode_config
    then mode_config
    else if mode == mode_loopback
    then mode_loopback
    else mode_normal

module _ {W : Type 0} (h : Host W) where
  -- The mode is the byte of an interface that is up.
  pub can_get_mode-up :
      (idx : ℕ) (m : Manager W)
      → can_get_mode h idx m
        ≡ (if is_up (h.show idx m.host) then index m.mode_bytes idx else ok mode_config)
  unfolding can_get_mode
  can_get_mode-up idx m = elim (Result-cases (h.show idx m.host)) [
    | inl p ↦ rw (p.1) (ground arith)
    | inr p ↦ rw (p.1) refl
  ]

  can_get_mode-same :
      (j : ℕ) (m n : Manager W)
      → h.show j n.host ≡ h.show j m.host
      → index n.mode_bytes j ≡ index m.mode_bytes j
      → can_get_mode h j n ≡ can_get_mode h j m
  unfolding can_get_mode
  can_get_mode-same j m n e b = rw (e, b) refl

  -- A bus whose byte was just set.
  can_get_mode-set :
      (idx byte : ℕ) (m n : Manager W)
      → idx < length m.mode_bytes
      → n.mode_bytes ≡ set m.mode_bytes idx byte
      → can_get_mode h idx n ≡ (if is_up (h.show idx n.host) then ok byte else ok mode_config)
  can_get_mode-set idx byte m n lt e =
      rw (can_get_mode-up idx n, e, index-set m.mode_bytes idx idx byte lt) (ground arith)

  can_get_mode-others :
      (idx j byte : ℕ) (m n : Manager W)
      → idx < length m.mode_bytes
      → idx ≢ j
      → n.mode_bytes ≡ set m.mode_bytes idx byte
      → h.show j n.host ≡ h.show j m.host
      → can_get_mode h j n ≡ can_get_mode h j m
  can_get_mode-others idx j byte m n lt ne e s =
      can_get_mode-same j m n s (rw (e, index-set m.mode_bytes idx j byte lt) (ground (arith, ne)))

-- The mode of a bus after a change of it, by the outcome: the mode that was asked for; or, after a failure,
-- CONFIG, or the mode of before.
abbrev pub Ended : {A : Type 0} → Result A → (mode : ℕ) (before now : Result ℕ) → Type 0
Ended (ok a) mode before now = now ≡ ok mode
Ended (err e) mode before now = (now ≡ ok mode_config) ⊎ (now ≡ before)

-- What a change of the mode of a bus leaves: the mode by its outcome, and the other buses as they were.
pub record Settles {W A : Type 0} (h : Host W) (idx mode : ℕ) (m : Manager W)
    (r : Result A × Manager W) : Type 0 where
  pub whole : IsWhole r.1
  pub settled : Ended r.0 mode (can_get_mode h idx m) (can_get_mode h idx r.1)
  pub others : (j : ℕ) → idx ≢ j → can_get_mode h j r.1 ≡ can_get_mode h j m

module _ {W : Type 0} (h : Host W) (laws : IsLinks h) where
  to_config-Settles :
      {A : Type 0} (idx : ℕ) (a : A) (m : Manager W)
      → idx < 3
      → IsWhole m
      → Settles h idx mode_config m (to_config h idx a m)
  to_config-Settles idx a m lt k =
      let b = index-lt m.bus_open idx (omega (arith, lt, k.buses)) in
      rw (b.1) (record {
        whole = record {
          bytes = length-set m.mode_bytes idx mode_config ∙ k.bytes;
          buses = length-set m.bus_open idx false ∙ k.buses;
        };
        settled =
            can_get_mode-set h idx mode_config m
              (set_byte idx mode_config
                (link_down h idx (record m { bus_open = set m.bus_open idx false })))
              (omega (arith, lt, k.bytes)) refl
            ∙ ground arith;
        others = λ j ne.
            can_get_mode-others h idx j mode_config m _ (omega (arith, lt, k.bytes)) ne refl
              (laws.down_others idx j m.host ne);
      })

  to_up-Settles :
      {A : Type 0} (idx : ℕ) (loopback : Bool) (a : A) (m : Manager W)
      → idx < 3
      → IsWhole m
      → Settles h idx (if loopback then mode_loopback else mode_normal) m (to_up h idx loopback a m)
  to_up-Settles idx loopback a m lt k =
      let b = index-lt m.bus_open idx (omega (arith, lt, k.buses)) in
      let w : W = h.ip_down idx m.host in
      let byte : ℕ = if loopback then mode_loopback else mode_normal in
      let in_range : idx < length m.mode_bytes = omega (arith, lt, k.bytes) in
      let closed : length (set m.bus_open idx false) ≡ 3 =
        length-set m.bus_open idx false ∙ k.buses in
      let shown = λ (j : ℕ) (ne : idx ≢ j).
        laws.up_others idx j m.bitrate loopback w ne ∙ laws.down_others idx j m.host ne in
      elim (Result-cases (h.ip_up idx m.bitrate loopback w).0) [
        | inl p ↦
            let up = laws.up_shows idx m.bitrate loopback w p.1 in
            rw (b.1, p.1)
              (record {
                whole = record {
                  bytes = length-set m.mode_bytes idx byte ∙ k.bytes;
                  buses = closed;
                };
                settled = can_get_mode-set h idx byte m _ in_range refl ∙ rw up refl;
                others = λ j ne. can_get_mode-others h idx j byte m _ in_range ne refl (shown j ne);
              })
        | inr p ↦
            let kept = laws.up_fails idx m.bitrate loopback w p.0 p.1 in
            rw (b.1, p.1)
              (record {
                whole = record { bytes = k.bytes; buses = closed };
                settled = elim (laws.down_shows idx m.host) [
                  | inl down ↦ inl (can_get_mode-up h idx _ ∙ rw (kept ∙ down) refl)
                  | inr stays ↦ inr (
                      can_get_mode-up h idx _
                      ∙ ap (λ b. if b then index m.mode_bytes idx else ok mode_config)
                          (kept ∙ stays)
                      ∙ sym (can_get_mode-up h idx m))
                ];
                others = λ j ne. can_get_mode-same h j m _ (shown j ne) refl;
              })
      ]

  counted-IsWhole : (m : Manager W) → IsWhole m → IsWhole (counted m)
  counted-IsWhole m k = record { bytes = k.bytes; buses = k.buses }

  Settles-counted :
      {A : Type 0} (idx mode br : ℕ) (m : Manager W) (r : Result A × Manager W)
      → Settles h idx mode (record (counted m) { bitrate = br }) r
      → Settles h idx mode m r
  unfolding can_get_mode
  Settles-counted idx mode br m r s = record {
    whole = s.whole;
    settled = s.settled;
    others = s.others;
  }

  -- For a bus of the three, `can_set_mode` leaves the mode that was asked for when it returns, NORMAL for
  -- a mode that is none of the three; when it raises, since the link could not be set up, it leaves CONFIG,
  -- or the mode of before if the link could not be set down either; and it changes the mode of no other bus.
  pub can_set_mode-Settles :
      (idx mode : ℕ) (m : Manager W)
      → idx < 3
      → IsWhole m
      → Settles h idx (legal_mode mode) m (can_set_mode h idx mode m)
  unfolding can_set_mode
  can_set_mode-Settles idx mode m lt k = elim (Bool-cases (mode == mode_config)) [
    | inl e ↦ rw e (
        Settles-counted idx mode_config m.bitrate m _
          (to_config-Settles idx true (counted m) lt (counted-IsWhole m k)))
    | inr e ↦ rw e (
        Settles-counted idx _ m.bitrate m _
          (to_up-Settles idx (mode == mode_loopback) true (counted m) lt (counted-IsWhole m k)))
  ]

  pub can_reset-Settles :
      (idx : ℕ) (m : Manager W)
      → idx < 3
      → IsWhole m
      → Settles h idx mode_config m (can_reset h idx m)
  unfolding can_reset
  can_reset-Settles idx m lt k =
      Settles-counted idx mode_config m.bitrate m _
        (to_config-Settles idx tt (counted m) lt (counted-IsWhole m k))

  pub can_init-Settles :
      (idx bitrate : ℕ) (m : Manager W)
      → idx < 3
      → IsWhole m
      → Settles h idx mode_config m (can_init h idx bitrate m)
  unfolding can_init
  can_init-Settles idx bitrate m lt k = Settles-counted idx mode_config bitrate m _ (
      to_config-Settles idx true (record (counted m) { bitrate = bitrate }) lt
        (record { bytes = k.bytes; buses = k.buses }))
