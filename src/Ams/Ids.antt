-- ===== src/Ams/Ids.antt =====
-- No two frames of the BMS bus share an identifier.
use ifs_hil.Prelude.{ℕ, ◌+◌, ◌*◌, ◌<◌, ◌≡◌, refl, arith}
use ifs_hil.Prelude.Result.{Result, ok}
use ifs_hil.Ams.Map.{
  bms_canid, bms_voltage_poll_id, bms_voltage_resp_id, bms_temp_poll_id, bms_temp_resp_id,
}

-- The four kinds of frame; a response has a frame number.
pub data Kind : Type 0 where
  voltage_poll temp_poll : Kind
  voltage_resp temp_resp : ℕ → Kind

unfoldable pub id_of : ℕ → Kind → Result ℕ
id_of m voltage_poll = bms_voltage_poll_id m
id_of m temp_poll = bms_temp_poll_id m
id_of m (voltage_resp fi) = bms_voltage_resp_id m fi
id_of m (temp_resp fi) = bms_temp_resp_id m fi

-- The place of a frame within the identifiers of its module.
abbrev offset : Kind → ℕ
offset voltage_poll = 0
offset temp_poll = 20
offset (voltage_resp fi) = 1 + fi
offset (temp_resp fi) = 21 + fi

abbrev IsFrame : Kind → Type 0
IsFrame voltage_poll = Unit
IsFrame temp_poll = Unit
IsFrame (voltage_resp fi) = fi < 5
IsFrame (temp_resp fi) = fi < 5

id_of-ok :
    (m : ℕ) (k : Kind) (n : ℕ)
    → id_of m k ≡ ok n
    → (n ≡ 300 + m * 30 + offset k) × (m < 5) × IsFrame k
unfolding id_of bms_canid bms_voltage_poll_id bms_voltage_resp_id bms_temp_poll_id bms_temp_resp_id
id_of-ok m voltage_poll n h = (ground arith, ground arith, tt)
id_of-ok m temp_poll n h = (ground arith, ground arith, tt)
id_of-ok m (voltage_resp fi) n h = ground arith
id_of-ok m (temp_resp fi) n h = ground arith

offset-injective : (k l : Kind) → IsFrame k → IsFrame l → offset k ≡ offset l → k ≡ l
offset-injective voltage_poll voltage_poll p q e = refl
offset-injective voltage_poll temp_poll p q e = absurd (omega arith)
offset-injective voltage_poll (voltage_resp j) p q e = absurd (omega arith)
offset-injective voltage_poll (temp_resp j) p q e = absurd (omega arith)
offset-injective temp_poll voltage_poll p q e = absurd (omega arith)
offset-injective temp_poll temp_poll p q e = refl
offset-injective temp_poll (voltage_resp j) p q e = absurd (omega arith)
offset-injective temp_poll (temp_resp j) p q e = absurd (omega arith)
offset-injective (voltage_resp i) voltage_poll p q e = absurd (omega arith)
offset-injective (voltage_resp i) temp_poll p q e = absurd (omega arith)
offset-injective (voltage_resp i) (voltage_resp j) p q e = ground arith
offset-injective (voltage_resp i) (temp_resp j) p q e = absurd (omega arith)
offset-injective (temp_resp i) voltage_poll p q e = absurd (omega arith)
offset-injective (temp_resp i) temp_poll p q e = absurd (omega arith)
offset-injective (temp_resp i) (voltage_resp j) p q e = absurd (omega arith)
offset-injective (temp_resp i) (temp_resp j) p q e = ground arith

offset-lt : (k : Kind) → IsFrame k → offset k < 30
offset-lt voltage_poll p = omega arith
offset-lt temp_poll p = omega arith
offset-lt (voltage_resp i) p = omega arith
offset-lt (temp_resp i) p = omega arith

-- Two frames of the bus with the same identifier are one frame: the same module, the same kind and
-- the same frame number.
pub id_of-injective :
    (m m' : ℕ) (k k' : Kind) (n : ℕ) → id_of m k ≡ ok n → id_of m' k' ≡ ok n → (m ≡ m') × (k ≡ k')
id_of-injective m m' k k' n h h' =
    let (e, _, f) = id_of-ok m k n h in
    let (e', _, f') = id_of-ok m' k' n h' in
    let lt = offset-lt k f in
    let lt' = offset-lt k' f' in (omega arith, offset-injective k k' f f' (omega arith))
