-- ===== src/Tests/Modules.antt =====
-- The accumulator's frames and the slave emulator, tools/firmware_test/ams/, at concrete values.
use ifs_hil.Prelude.{◌≡◌, refl, true, false, List, [], ◌∷◌, length, replicate}
use ifs_hil.Prelude.Int.{pos}
use ifs_hil.Prelude.Result.{ok}
use ifs_hil.Ams.Map.{bms_canid, bms_voltage_poll_id, bms_temp_poll_id}
use ifs_hil.Ams.Emulator.{
  Slave, Msg, voltage, temperature, Poll, Emulator, message, step, count_reply,
}
use ifs_hil.Ams.Polling.{IsWired, AreAnswers, poll_id_of, step-answers, step-total}

abbrev slave : Slave
slave = record { number = 1; cell_mv = replicate 19 (pos 3700); temp_c = replicate 38 (pos 25) }

abbrev polls : List Poll
polls =
    record { poll_id = 330; kind = voltage; slave = 0 }
    ∷ record { poll_id = 350; kind = temperature; slave = 0 }
    ∷ []

abbrev bench : Emulator
bench = record {
  slaves = slave ∷ [];
  polls = polls;
  voltage_replies = 0;
  temp_replies = 0;
  unknown_rx = 0;
}

bench-IsWired : IsWired bench
unfolding poll_id_of bms_voltage_poll_id bms_temp_poll_id bms_canid
bench-IsWired = (
  record { target = slave; present = refl; its_id = refl },
  (record { target = slave; present = refl; its_id = refl }, tt),
)

step-answers_example :
    (s : Slave) × (fs : List Msg) × (step (λ _. true) bench (message false 330)
      ≡ ok (count_reply voltage bench, fs))
    × (poll_id_of voltage s.number ≡ ok 330)
    × (length fs ≡ 5)
    × AreAnswers voltage s 0 fs
step-answers_example =
    step-answers bench 330 (record { poll_id = 330; kind = voltage; slave = 0 }) bench-IsWired refl

step-total_example :
    (e' : Emulator) × (fs : List Msg) × (step (λ _. false) bench (message false 350) ≡ ok (e', fs))
    × IsWired e'
step-total_example = step-total (λ _. false) bench (message false 350) bench-IsWired
