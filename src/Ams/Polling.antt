-- ===== src/Ams/Polling.antt =====
-- The polling loop of the slave emulator: it never dies, and who answers which poll.
use ifs_hil.Prelude.{
  ℕ, zero, suc, ◌+◌, ◌*◌, ◌≤◌, ◌<◌, ◌≡◌, ◌≢◌, refl, sym, ap, subst, ◌∙◌, ◌⊎◌, inl, inr, Bool, true,
  false, List, [], ◌∷◌, Option, none, some, arith, length, All, ◌==◌, ==_iff, if◌then◌else◌,
  Bool-cases,
}
use ifs_hil.Prelude.Result.{Result, ok, index}
use ifs_hil.Ams.Map.{
  bms_canid, bms_voltage_poll_id, bms_voltage_resp_id, bms_temp_poll_id, bms_temp_resp_id,
}
use ifs_hil.Ams.Emulator.{
  Slave, Msg, PollKind, voltage, temperature, resp_id, resp_payload, frames_from, response_frames,
  Poll, Emulator, build, init, assign, set_cell, find, without, stop_module, Rx, nothing, message,
  burst, answer, count_reply, step,
}

unfoldable pub poll_id_of : PollKind → ℕ → Result ℕ
poll_id_of voltage m = bms_voltage_poll_id m
poll_id_of temperature m = bms_temp_poll_id m

-- A poll names a slave that is there, under the identifier of that slave.
pub record IsPoll (slaves : List Slave) (p : Poll) : Type 0 where
  pub target : Slave
  pub present : index slaves p.slave ≡ ok target
  pub its_id : poll_id_of p.kind target.number ≡ ok p.poll_id

abbrev pub IsWired : Emulator → Type 0
IsWired e = All (IsPoll e.slaves) e.polls

poll_in_range : (k : PollKind) (m n : ℕ) → poll_id_of k m ≡ ok n → m < 5
unfolding poll_id_of bms_voltage_poll_id bms_temp_poll_id bms_canid
poll_in_range voltage m n h = ground arith
poll_in_range temperature m n h = ground arith

resp_ok : (k : PollKind) (m fi : ℕ) → m < 5 → fi < 5 → (n : ℕ) × (resp_id k m fi ≡ ok n)
unfolding resp_id bms_voltage_resp_id bms_temp_resp_id bms_canid
resp_ok voltage m fi h k = (300 + m * 30 + 1 + fi, ground arith)
resp_ok temperature m fi h k = (300 + m * 30 + 21 + fi, ground arith)

-- The answer number j carries the identifier and the payload of that number.
abbrev pub AreAnswers : PollKind → Slave → ℕ → List Msg → Type 0
AreAnswers k s fi [] = Unit
AreAnswers k s fi (f ∷ fs) =
    (resp_id k s.number fi ≡ ok f.id)
    × (f.payload ≡ resp_payload k s fi)
    × AreAnswers k s (fi + 1) fs

frames_lem :
    (k : PollKind) (s : Slave) (left fi : ℕ)
    → s.number < 5
    → fi + left ≤ 5
    → (fs : List Msg) × (frames_from k s left fi ≡ ok fs)
      × (length fs ≡ left)
      × AreAnswers k s fi fs
unfolding frames_from
frames_lem k s zero fi h b = ([], refl, refl, tt)
frames_lem k s (suc left) fi h b =
    let (n, e) = resp_ok k s.number fi h (omega arith) in
    let (fs, rest, len, answers) = frames_lem k s left (fi + 1) h (omega arith) in
    (
      record { id = n; payload = resp_payload k s fi } ∷ fs,
      rw e (rw rest),
      ap suc len,
      (e, refl, answers),
    )

find_lem :
    (n : ℕ) (ps : List Poll) {slaves : List Slave} {p : Poll}
    → All (IsPoll slaves) ps
    → find n ps ≡ some p
    → IsPoll slaves p × (p.poll_id ≡ n)
find_lem n [] w h = cc
find_lem n (q ∷ ps) {slaves} {p} w h = elim (Bool-cases (q.poll_id == n)) [
  | inl e ↦
      let same : q ≡ p = ground arith in
      (subst (IsPoll slaves) same w.0, ap (λ (x : Poll). x.poll_id) (sym same) ∙ (==_iff _ _).0 e)
  | inr e ↦ find_lem n ps w.1 (ground arith)
]

burst_all : (fs : List Msg) → burst (λ _. true) fs ≡ (fs, true)
unfolding burst
burst_all [] = refl
burst_all (f ∷ fs) = rw (burst_all fs)

-- A poll in the table of a well-wired emulator is answered, on a bus that takes every frame, by the
-- five frames of the slave whose identifier was polled; one reply is counted and nothing else
-- changes.
pub step-answers :
    (e : Emulator) (n : ℕ) (p : Poll)
    → IsWired e
    → find n e.polls ≡ some p
    → (s : Slave) × (fs : List Msg) × (step (λ _. true) e (message false n)
        ≡ ok (count_reply p.kind e, fs))
      × (poll_id_of p.kind s.number ≡ ok n)
      × (length fs ≡ 5)
      × AreAnswers p.kind s 0 fs
unfolding step response_frames
step-answers e n p w h =
    let (is_poll, same) = find_lem n e.polls w h in
    let in_range = poll_in_range p.kind is_poll.target.number p.poll_id is_poll.its_id in
    let (fs, made, len, answers) = frames_lem p.kind is_poll.target 5 0 in_range (omega arith) in
    (
      is_poll.target,
      fs,
      rw h (rw is_poll.present (rw made (rw (burst_all fs)))),
      is_poll.its_id ∙ ap ok same,
      len,
      answers,
    )

-- Whatever arrives and whichever frames the bus takes, a turn of the loop does not raise, and the
-- emulator stays well wired.
pub step-total :
    (takes : Msg → Bool) (e : Emulator) (rx : Rx)
    → IsWired e
    → (e' : Emulator) × (fs : List Msg) × (step takes e rx ≡ ok (e', fs)) × IsWired e'
unfolding step response_frames
step-total takes e nothing w = (e, [], refl, w)
step-total takes e (message true n) w = (e, [], refl, w)
step-total takes e (message false n) w = go (find n e.polls) refl
  where
    counted : (k : PollKind) (all : Bool) → IsWired (if all then count_reply k e else e)
    counted k false = w
    counted voltage true = w
    counted temperature true = w

    go :
        (o : Option Poll)
        → find n e.polls ≡ o
        → (e' : Emulator) × (fs : List Msg) × (ifs_hil.Ams.Emulator.respond takes o e ≡ ok (e', fs))
          × IsWired e'
    go none h = (record e { unknown_rx = e.unknown_rx + 1 }, [], refl, w)
    go (some p) h =
        let (is_poll, same) = find_lem n e.polls w h in
        let in_range = poll_in_range p.kind is_poll.target.number p.poll_id is_poll.its_id in
        let (fs, made, len, answers) =
          frames_lem p.kind is_poll.target 5 0 in_range (omega arith) in
        (
          if (burst takes fs).1 then count_reply p.kind e else e,
          (burst takes fs).0,
          rw is_poll.present (rw made),
          counted p.kind (burst takes fs).1,
        )

find-without :
    (n j : ℕ) (ps : List Poll) → find j (without n ps) ≡ (if n == j then none else find j ps)
find-without n j [] = ground arith
find-without n j (p ∷ ps) = ground (arith, find-without n j ps)

-- A stopped module is silent: a frame with the identifier of either of its polls is counted as unknown
-- and answered by no frame.
pub stop_module-silent :
    (m v t : ℕ) (e : Emulator) (takes : Msg → Bool) (n : ℕ)
    → bms_voltage_poll_id m ≡ ok v
    → bms_temp_poll_id m ≡ ok t
    → (n ≡ v) ⊎ (n ≡ t)
    → (e' : Emulator) × (stop_module m e ≡ ok e')
      × (step takes e' (message false n) ≡ ok (record e' { unknown_rx = e.unknown_rx + 1 }, []))
unfolding stop_module step
stop_module-silent m v t e takes n hv ht which =
    let gone : find n (without t (without v e.polls)) ≡ none =
      ground (arith, find-without t n (without v e.polls), find-without v n e.polls) in
    (record e { polls = without t (without v e.polls) }, rw hv (rw ht), rw gone)

-- Stopping a module changes no cell and no temperature, and leaves every other poll as it was.
pub stop_module-others :
    (m v t n : ℕ) (e : Emulator)
    → bms_voltage_poll_id m ≡ ok v
    → bms_temp_poll_id m ≡ ok t
    → n ≢ v
    → n ≢ t
    → (e' : Emulator) × (stop_module m e ≡ ok e')
      × (e'.slaves ≡ e.slaves)
      × (find n e'.polls ≡ find n e.polls)
unfolding stop_module
stop_module-others m v t n e hv ht nv nt = (
  record e { polls = without t (without v e.polls) },
  rw hv (rw ht),
  refl,
  ground (arith, find-without t n (without v e.polls), find-without v n e.polls),
)
