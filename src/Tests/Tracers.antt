-- ===== src/Tests/Tracers.antt =====
-- The CAN tracer of the dashboard, dashboard/can_tracer.py, at concrete frames.
use ifs_hil.Prelude.{ℕ, ◌≡◌, false, List, [], ◌∷◌, none, All}
use ifs_hil.Prelude.Text.{Text, lit}
use ifs_hil.Ams.Telemetry.{decode_telem_status, decode_telem_pack, decode_telem_temps}
use ifs_hil.Dashboard.Decode.{decode_ams}
use ifs_hil.Dashboard.Mirror.{shown, status_view, pack_view, temps_view, decode_ams-Mirrors}
use ifs_hil.Dashboard.Frame.{Frame}
use ifs_hil.Dashboard.Tracer.{
  Event, frame_received, frame_recorded, frame_handed, subscribed, run, new_tracer, hand_out,
}
use ifs_hil.Dashboard.History.{IsOrdered, run-IsOrdered}
use ifs_hil.Dashboard.Fanout.{Delivers}
use ifs_hil.Dashboard.Subscribers.{IsBounded, run-Delivers}

abbrev status_bytes : List ℕ
status_bytes = 3 ∷ 1 ∷ 0x1F ∷ 0 ∷ 0x0E ∷ 0x10 ∷ 0x0E ∷ 0xA6 ∷ []

decode_ams-Mirrors_example :
    (decode_ams 0x4A0 status_bytes ≡ shown status_view (decode_telem_status status_bytes))
    × (decode_ams 0x4A1 status_bytes ≡ shown pack_view (decode_telem_pack status_bytes))
    × (decode_ams 0x4A2 status_bytes
        ≡ shown (temps_view 0 0x0E 0x0E) (decode_telem_temps status_bytes))
decode_ams-Mirrors_example = decode_ams-Mirrors status_bytes

-- A frame with identifier 0x4A0 as the kernel gives it.
abbrev raw : List ℕ
raw = 0xA0 ∷ 0x04 ∷ 0 ∷ 0 ∷ 8 ∷ 0 ∷ 0 ∷ 0 ∷ status_bytes

-- Two threads interleave, on histories of one frame.
abbrev events : List Event
events =
    subscribed 1
    ∷ frame_received 0 100 raw
    ∷ frame_received 1 101 raw
    ∷ frame_recorded 1
    ∷ frame_recorded 0
    ∷ frame_handed 0
    ∷ frame_received 0 102 raw
    ∷ frame_recorded 0
    ∷ []

abbrev interfaces : List Text
interfaces = lit "can0" ∷ lit "can1" ∷ []

run-IsOrdered_example : IsOrdered (run events (new_tracer interfaces 1))
run-IsOrdered_example = run-IsOrdered interfaces 1 events

abbrev sent : Frame
sent = record {
  seq = 4;
  ts_ms = 103;
  bus = lit "can0";
  id_shown = lit "0x4A0";
  id_int = 0x4A0;
  ext = false;
  dlc = 0;
  shown = [];
  decoded = none;
}

run-Delivers_example :
    Delivers sent (run events (new_tracer interfaces 1)) 0
    × All IsBounded (hand_out sent (run events (new_tracer interfaces 1))).queues
run-Delivers_example = run-Delivers interfaces 1 events sent 0
