-- ===== src/Bench/Probe.antt =====
-- `probe` of tools/bench.py, the passive one: what each kind of peripheral answers is a parameter.
use ifs_hil.Prelude.{
  ℕ, zero, suc, Bool, true, false, not, ◌&&◌, List, [], ◌∷◌, ◌++◌, map, Option, none, some,
  if◌then◌else◌, keep, ◌==◌, ltb,
}
use ifs_hil.Prelude.Text.{Text}

abbrev pub ina_candidates : List ℕ
ina_candidates = 0x40 ∷ 0x41 ∷ 0x44 ∷ 0x45 ∷ []

abbrev pub tca_candidates : List ℕ
tca_candidates = 0x20 ∷ 0x21 ∷ 0x22 ∷ []

abbrev pub dac_candidates : List ℕ
dac_candidates = 0 ∷ 1 ∷ 2 ∷ 3 ∷ []

abbrev pub dac_devid_expected : ℕ
dac_devid_expected = 0x0417

abbrev pub dac_devid_retries : ℕ
dac_devid_retries = 3

-- What `ip` prints of a link that it knows; sample points in ten-thousandths.
pub record Live : Type 0 where
  pub dev : Text
  pub bitrate : Option ℕ
  pub sample_point : Option ℕ

-- The broker's answers, `none` where a call raises. `devid idx k` is the answer to the read number k,
-- from 0, of the DAC idx.
pub record Client : Type 0 where
  pub pwr_ok : Option Bool
  pub ina_present : ℕ → Option Bool
  pub tca_present : ℕ → Option Bool
  pub devid : ℕ → ℕ → Option ℕ
  pub nrf_present : Option Bool
  pub can : List Live

pub record DacRead : Type 0 where
  pub idx : ℕ
  pub dev_id : ℕ
  pub attempts : ℕ
  pub seen : List ℕ

pub data Warning : Type 0 where
  psu_off retried bad_devid : Warning

pub record Found : Type 0 where
  pub psu_ok : Option Bool
  pub ina : List ℕ
  pub tca : List ℕ
  pub dac : List DacRead
  pub dac_devid_retries : List DacRead
  pub dac_bad_devid : List ℕ
  pub nrf24 : Bool
  pub can : List Live
  pub warnings : List Warning

abbrev is_true : Option Bool → Bool
is_true none = false
is_true (some b) = b

-- One turn of the retry loop: an answer replaces the identifier and is recorded.
abbrev pub again : DacRead → Option ℕ → DacRead
again r none = record { idx = r.idx; dev_id = r.dev_id; attempts = suc r.attempts; seen = r.seen }
again r (some v) = record {
  idx = r.idx;
  dev_id = v;
  attempts = suc r.attempts;
  seen = r.seen ++ v ∷ [];
}

abbrev pub is_expected : DacRead → Bool
is_expected r = r.dev_id == dac_devid_expected

-- The `while` loop; with the number of retries as fuel it always ends by its own test.
unfoldable pub retry : ℕ → (ℕ → Option ℕ) → DacRead → DacRead
retry zero read r = r
retry (suc fuel) read r =
    let more = retry fuel read (again r (read r.attempts)) in
    if not (is_expected r) && ltb r.attempts dac_devid_retries then more else r

abbrev pub first_read : ℕ → (ℕ → Option ℕ) → Option ℕ → Option DacRead
first_read idx read none = none
first_read idx read (some v) =
    some
      (retry dac_devid_retries read (record { idx = idx; dev_id = v; attempts = 1; seen = v ∷ [] }))

unfoldable pub read_dac : ℕ → (ℕ → Option ℕ) → Option DacRead
read_dac idx read = first_read idx read (read 0)

abbrev collect : List (Option DacRead) → List DacRead
collect [] = []
collect (none ∷ rs) = collect rs
collect (some r ∷ rs) = r ∷ collect rs

abbrev warn_psu : Option Bool → List Warning
warn_psu (some false) = psu_off ∷ []
warn_psu (some true) = []
warn_psu none = []

abbrev warn_if {ℓ} : {A : Type ℓ} → List A → Warning → List Warning
warn_if [] w = []
warn_if (x ∷ xs) w = w ∷ []

unfoldable pub probe : Client → Found
probe client =
    let dacs = collect (map (λ idx. read_dac idx (client.devid idx)) dac_candidates) in
    let retries = keep (λ r. ltb 1 r.attempts) dacs in
    let bad = keep (λ r. not (is_expected r)) dacs in
    record {
      psu_ok = client.pwr_ok;
      ina = keep (λ a. is_true (client.ina_present a)) ina_candidates;
      tca = keep (λ a. is_true (client.tca_present a)) tca_candidates;
      dac = dacs;
      dac_devid_retries = retries;
      dac_bad_devid = map (λ r. r.idx) bad;
      nrf24 = is_true client.nrf_present;
      can = client.can;
      warnings =
          warn_psu client.pwr_ok
          ++ warn_if (keep is_expected retries) retried
          ++ warn_if bad bad_devid;
    }
