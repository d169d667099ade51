-- ===== src/Bench/Resolve.antt =====
-- `cmd_resolve` of tools/bench.py: matching a set of capabilities to a bench.
use ifs_hil.Prelude.{
  Bool, true, false, not, List, [], ◌∷◌, ◌++◌, map, Option, none, some, if◌then◌else◌, keep, all_of,
}
use ifs_hil.Prelude.Text.{Text, lit, strip, split_on, among, is_empty}
use ifs_hil.Bench.Desc.{Desc, find_bench}

-- `{c.strip() for c in caps.split(",") if c.strip()}`; the order and repetition of a set are not used.
unfoldable pub required : Text → List Text
required caps = keep (λ c. not (is_empty c)) (map strip (split_on b',' caps))

-- `required - set(capabilities)`
abbrev pub missing : List Text → Desc → List Text
missing req d = keep (λ c. not (among c d.capabilities)) req

-- `required <= caps`
abbrev pub satisfies : List Text → Desc → Bool
satisfies req d = all_of (λ c. among c d.capabilities) req

pub data Outcome : Type 0 where
  unknown_bench : Outcome
  lacks : List Text → Outcome
  nothing_asked : Outcome
  no_match : Outcome
  chosen : (bench : Desc) (labels : List Text) (candidates : List Desc) → Outcome

abbrev pub is_none_left : List Text → Bool
is_none_left [] = true
is_none_left (c ∷ cs) = false

-- Python's `sorted`, on the benches by identifier and on names: parameters.
module _ (sort_benches : List Desc → List Desc) (sort_names : List Text → List Text) where
  unfoldable pub runner_labels : Desc → List Text
  runner_labels d =
      (elim d.base_labels [ none ↦ lit "self-hosted" ∷ lit "hil-bench" ∷ [] | some base ↦ base ])
      ++ (d.id ∷ sort_names d.capabilities)

  abbrev pub pick : List Desc → Outcome
  pick [] = no_match
  pick (d ∷ ds) = chosen d (runner_labels d) (d ∷ ds)

  abbrev pub pinned : List Text → Option Desc → Outcome
  pinned req none = unknown_bench
  pinned req (some d) =
      if is_none_left (missing req d) then pick (d ∷ []) else lacks (missing req d)

  abbrev pub by_capability : List Text → List Desc → Outcome
  by_capability [] benches = nothing_asked
  by_capability (c ∷ req) benches = pick (keep (satisfies (c ∷ req)) (sort_benches benches))

  -- `caps` is the text of --capabilities, `bench` that of --bench, empty if not given. Every outcome but
  -- `chosen` exits with 1.
  unfoldable pub resolve : Text → Text → List Desc → Outcome
  resolve caps [] benches = by_capability (required caps) benches
  resolve caps (c ∷ bench) benches = pinned (required caps) (find_bench (c ∷ bench) benches)
