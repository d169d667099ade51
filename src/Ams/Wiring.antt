-- ===== src/Ams/Wiring.antt =====
-- The emulator is well wired from its construction on, and its setters keep it so.
use ifs_hil.Prelude.{
  ℕ, zero, suc, ◌+◌, ◌*◌, ◌≤◌, ◌<◌, ◌≡◌, refl, subst, List, [], ◌∷◌, ◌++◌, arith, length,
  length-append, All,
}
use mathlib.Core.List.{append_assoc}
use ifs_hil.Prelude.Result.{ok, index}
use ifs_hil.Ams.Map.{bms_canid, bms_voltage_poll_id, bms_temp_poll_id}
use ifs_hil.Ams.Emulator.{Slave, voltage, temperature, Poll, Emulator, build, init, new_slave}
use ifs_hil.Ams.Polling.{poll_id_of, IsPoll, IsWired}

index-append :
    (pre : List Slave) (s : Slave) (post : List Slave) → index (pre ++ s ∷ post) (length pre) ≡ ok s
index-append [] s post = refl
index-append (x ∷ pre) s post = index-append pre s post

voltage_id : (m : ℕ) → m < 5 → bms_voltage_poll_id m ≡ ok (300 + m * 30)
unfolding bms_voltage_poll_id bms_canid
voltage_id m h = ground arith

temp_id : (m : ℕ) → m < 5 → bms_temp_poll_id m ≡ ok (300 + m * 30 + 20)
unfolding bms_temp_poll_id bms_canid
temp_id m h = ground arith

-- With `left` modules to go after the slaves `pre`, the table refers to the slaves to come.
build_lem :
    (left m : ℕ) (pre : List Slave)
    → length pre ≡ m
    → m + left ≤ 5
    → (slaves : List Slave) × (polls : List Poll) × (build left m ≡ ok (slaves, polls))
      × All (IsPoll (pre ++ slaves)) polls
unfolding build poll_id_of
build_lem zero m pre e h = ([], [], refl, tt)
build_lem (suc left) m pre e h =
    let s : Slave = new_slave m in
    let (slaves, polls, made, wired) =
      build_lem left (m + 1) (pre ++ s ∷ []) (omega (arith, length-append pre (s ∷ [])))
        (omega arith) in
    let v = voltage_id m (omega arith) in
    let t = temp_id m (omega arith) in
    let here : index (pre ++ s ∷ slaves) m ≡ ok s =
      subst (λ k. index (pre ++ s ∷ slaves) k ≡ ok s) e (index-append pre s slaves) in
    (
      s ∷ slaves,
      record { poll_id = 300 + m * 30; kind = voltage; slave = m }
          ∷ record { poll_id = 300 + m * 30 + 20; kind = temperature; slave = m }
          ∷ polls,
      rw v (rw t (rw made)),
      (
        record { target = s; present = here; its_id = v },
        (
          record { target = s; present = here; its_id = t },
          subst (λ l. All (IsPoll l) polls) (append_assoc pre (s ∷ []) slaves) wired,
        ),
      ),
    )

-- An emulator of up to five modules is built without an error and is well wired.
pub init-IsWired : (n : ℕ) → n ≤ 5 → (e : Emulator) × (init n ≡ ok e) × IsWired e
unfolding init
init-IsWired n h =
    let (slaves, polls, made, wired) = build_lem n 0 [] refl (omega arith) in
    (
      record {
        slaves = slaves;
        polls = polls;
        voltage_replies = 0;
        temp_replies = 0;
        unknown_rx = 0;
      },
      rw made,
      wired,
    )
