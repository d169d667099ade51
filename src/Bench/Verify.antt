-- ===== src/Bench/Verify.antt =====
-- `cmd_verify` of tools/bench.py: the problems it reports, in its order.
use ifs_hil.Prelude.{
  ℕ, Bool, true, false, not, ◌&&◌, ◌||◌, List, [], ◌∷◌, ◌++◌, map, Option, none, some,
  if◌then◌else◌, keep, elem, ◌==◌,
}
use ifs_hil.Prelude.Text.{Text, lit, same, among}
use ifs_hil.Bench.Desc.{Desc, Route, CanSpec, Expect}
use ifs_hil.Bench.Probe.{Live, Found, Client, probe}

pub data Peripheral : Type 0 where
  ina tca dac : Peripheral

pub data Problem : Type 0 where
  declared_missing : Peripheral → List ℕ → Problem
  undeclared : Peripheral → List ℕ → Problem
  nrf24_differs : Problem
  invalid_devid : ℕ → List Text → Problem
  pack_current : List ℕ → Problem
  no_radio : Problem
  can_absent bitrate_differs sample_point_differs : (role : Text) → Problem

-- `a - b` of sets.
abbrev pub minus : List ℕ → List ℕ → List ℕ
minus a b = keep (λ x. not (elem x b)) a

-- `[problem] if xs else []`
abbrev pub report_if {ℓ} : {A : Type ℓ} → List A → Problem → List Problem
report_if [] p = []
report_if (x ∷ xs) p = p ∷ []

abbrev pub when : Bool → Problem → List Problem
when true p = p ∷ []
when false p = []

-- The body of the loop over ("ina", "tca", "dac").
unfoldable pub compare_sets : Peripheral → List ℕ → List ℕ → List Problem
compare_sets key want got =
    report_if (minus want got) (declared_missing key (minus want got))
    ++ report_if (minus got want) (undeclared key (minus got want))

abbrev pub flag_differs : Bool → Bool → Bool
flag_differs true b = not b
flag_differs false b = b

abbrev pub compare_nrf24 : Option Bool → Bool → List Problem
compare_nrf24 none got = []
compare_nrf24 (some want) got = when (flag_differs want got) nrf24_differs

abbrev drives : ℕ → Route → Bool
drives idx r = elim r.dac [ none ↦ false | some d ↦ d == idx ]

-- `users[idx]`, the routes that name the DAC.
abbrev users : List Route → ℕ → List Text
users routing idx = map (λ r. r.name) (keep (drives idx) routing)

abbrev is_pack : Route → Bool
is_pack r = same r.name (lit "pack_current") || same r.name (lit "current_heartbeat")

-- `pack_dacs & bad_dacs`
abbrev pack_dacs : List Route → List ℕ → List ℕ
pack_dacs routing bad = keep (λ idx. drives_pack routing idx) bad
  where
    drives_pack : List Route → ℕ → Bool
    drives_pack [] idx = false
    drives_pack (r ∷ rs) idx = (is_pack r && drives idx r) || drives_pack rs idx

-- `bad` is in increasing order, as `probe` lists it.
unfoldable pub dac_problems : List Text → List Route → List ℕ → List Problem
dac_problems caps routing [] = []
dac_problems caps routing (i ∷ bad) =
    map (λ idx. invalid_devid idx (users routing idx)) (i ∷ bad)
    ++ (if among (lit "stim-pack-current") caps
        then report_if (pack_dacs routing (i ∷ bad)) (pack_current (pack_dacs routing (i ∷ bad)))
        else [])

abbrev pub find_live : Text → List Live → Option Live
find_live dev [] = none
find_live dev (l ∷ ls) = if same l.dev dev then some l else find_live dev ls

-- Tests of two values of which either may be absent.
abbrev pub both : Option ℕ → Option ℕ → (ℕ → ℕ → Bool) → Bool
both none b test = false
both (some a) none test = false
both (some a) (some b) test = test a b

-- `far a b` is `abs(a - b) > SAMPLE_POINT_TOL` on the floats that the two sample points are read as, here named by
-- their ten-thousandths; floats are a parameter.
abbrev pub link_problems : (ℕ → ℕ → Bool) → CanSpec → Option Live → List Problem
link_problems far spec none = can_absent spec.role ∷ []
link_problems far spec (some live) =
    when (both spec.bitrate live.bitrate (λ a b. not (a == b))) (bitrate_differs spec.role)
    ++ when (both spec.sample_point live.sample_point far) (sample_point_differs spec.role)

unfoldable pub can_problems : (ℕ → ℕ → Bool) → List CanSpec → List Live → List Problem
can_problems far [] lives = []
can_problems far (spec ∷ specs) lives =
    link_problems far spec (find_live spec.dev lives) ++ can_problems far specs lives

unfoldable pub problems : (ℕ → ℕ → Bool) → Desc → Expect → Found → List Problem
problems far desc expect found =
    compare_sets ina expect.ina found.ina
    ++ (compare_sets tca expect.tca found.tca
        ++ (compare_sets dac expect.dac (map (λ r. r.idx) found.dac)
            ++ (compare_nrf24 expect.nrf24 found.nrf24
                ++ (dac_problems desc.capabilities desc.routing found.dac_bad_devid
                    ++ (when (among (lit "radio-nrf24") desc.capabilities && not found.nrf24)
                          no_radio
                        ++ can_problems far desc.can found.can)))))

abbrev pub exit_code : List Problem → ℕ
exit_code [] = 0
exit_code (p ∷ ps) = 1

abbrev pub verify_expect : (ℕ → ℕ → Bool) → Desc → Found → Option Expect → ℕ
verify_expect far desc found none = 1
verify_expect far desc found (some expect) = exit_code (problems far desc expect found)

-- The exit code; without an `expect` block there is nothing to verify, which fails.
unfoldable pub verify : (ℕ → ℕ → Bool) → Desc → Client → ℕ
verify far desc client = verify_expect far desc (probe client) desc.expect
