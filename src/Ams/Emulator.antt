-- ===== src/Ams/Emulator.antt =====
-- The slave emulator of tools/firmware_test/ams/bms_emulator.py. The poll table of the source refers
-- to the slaves themselves, so here it holds their positions in the list: a later change of a cell is
-- seen by the next answer.
use ifs_hil.Prelude.{
  ℕ, zero, suc, ◌+◌, ◌*◌, ◌/◌, ◌%◌, Bool, true, false, List, [], ◌∷◌, Option, none, some, ◌==◌,
  if◌then◌else◌, set, slice, replicate, map,
}
use ifs_hil.Prelude.Int.{ℤ, pos, negsuc, wrap, add_ℕ}
use ifs_hil.Prelude.Result.{Result, ok, err, index_error, index, ◌>>=◌}
use ifs_hil.Ams.Map.{
  bms_voltage_poll_id, bms_voltage_resp_id, bms_temp_poll_id, bms_temp_resp_id, cells_per_module,
  temps_per_module, cells_per_frame, temps_per_frame,
}

pub record Slave : Type 0 where
  pub number : ℕ
  pub cell_mv : List ℤ
  pub temp_c : List ℤ

pub record Msg : Type 0 where
  pub id : ℕ
  pub payload : List ℕ

-- `buf[2k] = (mv >> 8) & 0xFF; buf[2k+1] = mv & 0xFF` for the cells of a frame, from the k-th on.
abbrev pub fill_cells : ℕ → List ℤ → List ℕ → List ℕ
fill_cells k [] buf = buf
fill_cells k (mv ∷ rest) buf =
    let v = wrap 65536 mv in
    fill_cells (k + 1) rest (set (set buf (2 * k) (v / 256)) (2 * k + 1) (v % 256))

-- `t & 0xFF if t >= 0 else (256 + t) & 0xFF`
abbrev pub temp_byte : ℤ → ℕ
temp_byte (pos n) = n % 256
temp_byte (negsuc n) = wrap 256 (add_ℕ (negsuc n) 256)

abbrev pub fill_temps : ℕ → List ℤ → List ℕ → List ℕ
fill_temps k [] buf = buf
fill_temps k (t ∷ rest) buf = fill_temps (k + 1) rest (set buf k (temp_byte t))

unfoldable pub cell_payload : List ℤ → ℕ → List ℕ
cell_payload cells fi =
    fill_cells 0 (slice (fi * cells_per_frame) ((fi + 1) * cells_per_frame) cells) (replicate 8 0)

unfoldable pub temp_payload : List ℤ → ℕ → List ℕ
temp_payload temps fi =
    fill_temps 0 (slice (fi * temps_per_frame) ((fi + 1) * temps_per_frame) temps) (replicate 8 0)

pub data PollKind : Type 0 where
  voltage temperature : PollKind

unfoldable pub resp_id : PollKind → ℕ → ℕ → Result ℕ
resp_id voltage m fi = bms_voltage_resp_id m fi
resp_id temperature m fi = bms_temp_resp_id m fi

unfoldable pub resp_payload : PollKind → Slave → ℕ → List ℕ
resp_payload voltage s fi = cell_payload s.cell_mv fi
resp_payload temperature s fi = temp_payload s.temp_c fi

-- The loop over the frame numbers, with `left` frames to go.
unfoldable pub frames_from : PollKind → Slave → ℕ → ℕ → Result (List Msg)
frames_from kind s zero fi = ok []
frames_from kind s (suc left) fi = do
  n ← resp_id kind s.number fi
  rest ← frames_from kind s left (fi + 1)
  ok (record { id = n; payload = resp_payload kind s fi } ∷ rest)

-- `voltage_response_frames` and `temperature_response_frames`
unfoldable pub response_frames : PollKind → Slave → Result (List Msg)
unfolding frames_from
response_frames kind s = frames_from kind s 5 0

pub record Poll : Type 0 where
  pub poll_id : ℕ
  pub kind : PollKind
  pub slave : ℕ

pub record Emulator : Type 0 where
  pub slaves : List Slave
  pub polls : List Poll
  pub voltage_replies : ℕ
  pub temp_replies : ℕ
  pub unknown_rx : ℕ

abbrev pub new_slave : ℕ → Slave
new_slave m = record {
  number = m;
  cell_mv = replicate cells_per_module (pos 3700);
  temp_c = replicate temps_per_module (pos 25);
}

-- `__init__`, with `left` modules to go: it raises on more modules than the bus has addresses for.
unfoldable pub build : ℕ → ℕ → Result (List Slave × List Poll)
build zero m = ok ([], [])
build (suc left) m = do
  v ← bms_voltage_poll_id m
  t ← bms_temp_poll_id m
  rest ← build left (m + 1)
  ok (
    new_slave m ∷ rest.0,
    record { poll_id = v; kind = voltage; slave = m }
        ∷ record { poll_id = t; kind = temperature; slave = m }
        ∷ rest.1,
  )

unfoldable pub init : ℕ → Result Emulator
unfolding build
init num_modules = do
  (slaves, polls) ← build num_modules 0
  ok (record {
    slaves = slaves;
    polls = polls;
    voltage_replies = 0;
    temp_replies = 0;
    unknown_rx = 0;
  })

-- `xs[i] = v`, which raises out of range.
abbrev pub assign {ℓ} : {A : Type ℓ} → List A → ℕ → A → Result (List A)
assign [] i v = err index_error
assign (x ∷ xs) zero v = ok (v ∷ xs)
assign (x ∷ xs) (suc i) v = do rest ← assign xs i v; ok (x ∷ rest)

unfoldable pub set_cell : ℕ → ℕ → ℤ → Emulator → Result Emulator
set_cell m cell mv e = do
  s ← index e.slaves m
  cells ← assign s.cell_mv cell mv
  slaves ← assign e.slaves m (record s { cell_mv = cells })
  ok (record e { slaves = slaves })

unfoldable pub set_temp : ℕ → ℕ → ℤ → Emulator → Result Emulator
set_temp m sensor c e = do
  s ← index e.slaves m
  temps ← assign s.temp_c sensor c
  slaves ← assign e.slaves m (record s { temp_c = temps })
  ok (record e { slaves = slaves })

unfoldable pub set_all_cells : ℤ → Emulator → Emulator
set_all_cells mv e = record e {
  slaves = map (λ (s : Slave). record s { cell_mv = replicate cells_per_module mv }) e.slaves;
}

unfoldable pub set_all_temps : ℤ → Emulator → Emulator
set_all_temps c e = record e {
  slaves = map (λ (s : Slave). record s { temp_c = replicate temps_per_module c }) e.slaves;
}

abbrev pub find : ℕ → List Poll → Option Poll
find n [] = none
find n (p ∷ ps) = if p.poll_id == n then some p else find n ps

-- `self._lookup.pop(pid, None)`
abbrev pub without : ℕ → List Poll → List Poll
without n [] = []
without n (p ∷ ps) = let rest = without n ps in if p.poll_id == n then rest else p ∷ rest

-- A dead module: both of its polls leave the table.
unfoldable pub stop_module : ℕ → Emulator → Result Emulator
stop_module m e = do
  v ← bms_voltage_poll_id m
  t ← bms_temp_poll_id m
  ok (record e { polls = without t (without v e.polls) })

-- What a receive call of the loop yields: nothing or an error, or a message.
pub data Rx : Type 0 where
  nothing : Rx
  message : (extended : Bool) (id : ℕ) → Rx

-- The sending loop: it stops at the first frame that the bus does not take.
unfoldable pub burst : (Msg → Bool) → List Msg → List Msg × Bool
burst takes [] = ([], true)
burst takes (f ∷ fs) =
    let (sent, all) = burst takes fs in if takes f then (f ∷ sent, all) else ([], false)

abbrev pub count_reply : PollKind → Emulator → Emulator
count_reply voltage e = record e { voltage_replies = e.voltage_replies + 1 }
count_reply temperature e = record e { temp_replies = e.temp_replies + 1 }

unfoldable pub answer : (Msg → Bool) → Poll → Emulator → Result (Emulator × List Msg)
unfolding burst response_frames
answer takes p e = do
  s ← index e.slaves p.slave
  frames ← response_frames p.kind s
  ok (let (sent, all) = burst takes frames in (if all then count_reply p.kind e else e, sent))

abbrev pub respond : (Msg → Bool) → Option Poll → Emulator → Result (Emulator × List Msg)
respond takes none e = ok (record e { unknown_rx = e.unknown_rx + 1 }, [])
respond takes (some p) e = answer takes p e

-- One turn of `_run`: the new state, and the frames that went out.
unfoldable pub step : (Msg → Bool) → Emulator → Rx → Result (Emulator × List Msg)
unfolding answer
step takes e nothing = ok (e, [])
step takes e (message true n) = ok (e, [])
step takes e (message false n) = respond takes (find n e.polls) e
