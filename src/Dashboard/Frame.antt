-- ===== src/Dashboard/Frame.antt =====
-- The frame that dashboard/can_tracer.py makes of the 16 bytes that the kernel gives.
use ifs_hil.Prelude.{
  ℕ, ◌+◌, ◌%◌, ◌^◌, Bool, List, Option, none, some, ltb, if◌then◌else◌, length, slice,
}
use ifs_hil.Prelude.Bytes.{from_le, bit}
use ifs_hil.Prelude.Text.{Text}
use ifs_hil.Prelude.Result.{Result, ok, err}
use ifs_hil.Dashboard.Decode.{Decoded, decode_ams, format_data, id_text}

pub record Frame : Type 0 where
  pub seq : ℕ
  pub ts_ms : ℕ
  pub bus : Text
  pub id_shown : Text
  pub id_int : ℕ
  pub ext : Bool
  pub dlc : ℕ
  pub shown : Text
  pub decoded : Option Decoded

-- What is read from the kernel's 16 bytes, before it is numbered.
pub record Received : Type 0 where
  pub can_id : ℕ
  pub extended : Bool
  pub size : ℕ
  pub payload : List ℕ

-- The flags of the identifier: bit 31 is extended, bit 29 an error frame.
abbrev received_of : ℕ → ℕ → List ℕ → Option Received
received_of can_id_raw dlc raw =
    if bit can_id_raw 29
    then none
    else some (record {
      can_id = can_id_raw % (if bit can_id_raw 31 then 2 ^ 29 else 2 ^ 11);
      extended = bit can_id_raw 31;
      size = dlc;
      payload = slice 8 (8 + dlc) raw;
    })

-- `none` where the loop goes on to the next read.
unfoldable pub parse : List ℕ → Option Received
parse raw =
    if ltb (length raw) 8
    then none
    else received_of (from_le (slice 0 4 raw)) (from_le (slice 4 5 raw)) raw

abbrev with_decoded : Result (Option Decoded) → (Option Decoded → Frame) → Result Frame
with_decoded (ok d) f = ok (f d)
with_decoded (err e) f = err e

unfoldable pub frame_of : ℕ → ℕ → Text → Received → Result Frame
frame_of seq now iface r = with_decoded (decode_ams r.can_id r.payload) (λ d. record {
  seq = seq;
  ts_ms = now;
  bus = iface;
  id_shown = id_text r.extended r.can_id;
  id_int = r.can_id;
  ext = r.extended;
  dlc = r.size;
  shown = format_data r.payload;
  decoded = d;
})
