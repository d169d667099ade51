-- ===== src/Dut/Gates.antt =====
-- What has passed when `flash` of tools/flash_dut.py reports an image as flashed.
use ifs_hil.Prelude.{
  ◌≡◌, ◌≢◌, refl, sym, ap, subst, ◌∙◌, Bool, true, false, ◌||◌, ◌⊎◌, ◌≤◌, ltb, arith, List, [], ◌∷◌,
  Option, none, some, if◌then◌else◌, Bool-cases, inl, inr,
}
use ifs_hil.Prelude.Text.{Text, lit, lower}
use ifs_hil.Prelude.Inside.{Inside, or_cases, contains-Inside}
use ifs_hil.Prelude.Result.{Result, ok, err, runtime_error, ◌>>=◌}
use ifs_hil.Bench.Desc.{Desc}
use ifs_hil.Dut.Target.{
  Profile, Version, is_old, assert_flasher_recent, identify, node_rows, is_appless, is_product,
}
use ifs_hil.Dut.Port.{State, Step, ◌then◌, continue, lift, call, read_port}
use ifs_hil.Dut.Session.{
  Site, Plan, acu_bitrate, require, into_bootloader, write, attempt, session, make_plan, carry_out,
  flash,
}

-- A step that ends with a value tells `G`.
pub record Tells {A : Type 0} (G : Type 0) (m : Step A) : Type 0 where
  pub at : (s : State) (a : A) → (m s).0 ≡ ok a → G

module _ {A B : Type 0} {G : Type 0} where
  continue-Tells :
      (r : Result A) (f : A → Step B) (s : State) (b : B)
      → ((a : A) → Tells G (f a))
      → (continue r f s).0 ≡ ok b
      → G
  continue-Tells (ok a) f s b k h = (k a).at s b h
  continue-Tells (err e) f s b k h = absurd (cc h)

  -- What a later step, or the first one, tells.
  pub later : (m : Step A) {f : A → Step B} → ((a : A) → Tells G (f a)) → Tells G (m then f)
  unfolding ◌then◌
  later m {f} k = record { at = λ s b h. continue-Tells (m s).0 f (m s).1 b k h }

  continue-first :
      (m : Step A) (f : A → Step B) (s : State) (r : Result A) (t : State) (b : B)
      → (m s).0 ≡ r
      → Tells G m
      → (continue r f t).0 ≡ ok b
      → G
  continue-first m f s (ok a) t b e k h = k.at s a e
  continue-first m f s (err x) t b e k h = absurd (cc h)

  first : {m : Step A} (f : A → Step B) → Tells G m → Tells G (m then f)
  unfolding ◌then◌
  first {m} f k = record { at = λ s b h. continue-first m f s (m s).0 (m s).1 b refl k h }

pub lift-Tells :
    {A : Type 0} {G : Type 0} (r : Result A) → ((a : A) → r ≡ ok a → G) → Tells G (lift r)
lift-Tells r k = record { at = λ s a h. k a h }

pub require-ok : (b : Bool) (u : Unit {0}) → require b ≡ ok u → b ≡ true
require-ok true u h = refl
require-ok false u h = absurd (cc h)

pub recent-ok :
    (o : Option Version) (v : Version)
    → assert_flasher_recent o ≡ ok v
    → (o ≡ some v) × (is_old v ≡ false)
unfolding assert_flasher_recent
recent-ok none v h = absurd (cc h)
recent-ok (some w) v h = elim (Bool-cases (is_old w)) [
  | inl old ↦ absurd (cc (ap (λ b. if b then err runtime_error else ok w) old, h))
  | inr new ↦
      let e : w ≡ v = cc (ap (λ b. if b then err runtime_error else ok w) new, h) in
      (ap some e, sym (ap is_old e) ∙ new)
]

-- Version 2.8.0 or later.
abbrev pub IsRecent : Version → Type 0
IsRecent v = (3 ≤ v.major) ⊎ ((v.major ≡ 2) × (8 ≤ v.minor))

pub is_old-IsRecent : (v : Version) → is_old v ≡ false → IsRecent v
is_old-IsRecent v h = elim (Bool-cases (ltb 2 v.major)) [
  | inl e ↦ inl (ground (arith, e))
  | inr e ↦ inr (ground (arith, e, h), ground (arith, e, h))
]

-- The row of a node fits a wanted product: none is wanted, or the row has it, or reports that there is no app.
abbrev pub Fits : Option Text → Text → Type 0
Fits none row = Unit
Fits (some []) row = Unit
Fits (some (c ∷ want)) row = Inside (c ∷ want) row ⊎ Inside (lit "no app installed") (lower row)

-- Exactly one node answers, and its row fits.
abbrev pub OneNode : Option Text → List Text → Type 0
OneNode want rows = (row : Text) × (rows ≡ row ∷ []) × Fits want row

fit-Fits :
    (want : Option Text) (row : Text)
    → (is_appless row || is_product want row) ≡ true
    → Fits want row
fit-Fits none row h = tt
fit-Fits (some []) row h = tt
fit-Fits (some (c ∷ want)) row h = elim (or_cases (is_appless row) _ h) [
  | inl a ↦ inr (contains-Inside (lit "no app installed") (lower row) a)
  | inr p ↦ inl (contains-Inside (c ∷ want) row p)
]

pub identify-ok :
    (want : Option Text) (rows : List Text) (row : Text)
    → identify want rows ≡ ok row
    → OneNode want rows
unfolding identify
identify-ok want [] row h = absurd (cc h)
identify-ok want (r ∷ []) row h = elim (Bool-cases (is_appless r || is_product want r)) [
  | inl fit ↦ (r, refl, fit-Fits want r fit)
  | inr bad ↦ absurd (cc (ap (λ b. if b then ok r else err runtime_error) bad, h))
]
identify-ok want (r ∷ other ∷ rows) row h = absurd (cc h)

module _ (site : Site) (plan : Plan) where
  abbrev Identified : Type 0
  Identified = OneNode plan.profile.bl_product (node_rows site.lines)

  attempt-identity : Tells Identified (attempt site plan)
  unfolding attempt into_bootloader
  attempt-identity = later _ λ _. later _ λ _. later _ λ _. first _ (
      later _ λ _. later _ λ _.
        later _ λ _.
          later _ λ _. lift-Tells _ (identify-ok plan.profile.bl_product (node_rows site.lines)))

  attempt-written : Tells (site.write_ok ≡ true) (attempt site plan)
  unfolding attempt write
  attempt-written = later _ λ _.
      later _ λ _.
        later _ λ _. later _ λ _. later _ λ _. first _ (lift-Tells _ (require-ok site.write_ok))

  session-Tells :
      (G : Type 0) (restore_relays : Bool)
      → Tells G (attempt site plan)
      → Tells G (session site plan restore_relays)
  unfolding session ◌then◌
  session-Tells G restore_relays k = record {
    at = λ s b h.
        continue-Tells (call site.call_ok read_port (λ p. p) s).0 _ _ b
          (λ _. record { at = λ s' b' h'. k.at s' b' h' }) h;
  }

  -- What has passed before an image counts as flashed.
  pub record Passed : Type 0 where
    pub version : Version
    pub is_version : site.version ≡ some version
    pub is_recent : IsRecent version
    pub broker : site.broker ≡ true
    pub identity : OneNode plan.profile.bl_product (node_rows site.lines)
    pub written : site.write_ok ≡ true

  abbrev Recent : Type 0
  Recent = (v : Version) × (site.version ≡ some v) × (is_old v ≡ false)

  carry_out-Passed :
      (restore_relays : Bool) → Tells Passed (carry_out site false restore_relays plan)
  unfolding carry_out
  carry_out-Passed restore_relays = record {
    at = λ s b h.
        let version : Recent =
          (first _ (
              lift-Tells (assert_flasher_recent site.version)
                (λ v e. (v, (recent-ok site.version v e).0, (recent-ok site.version v e).1)))).at
            s b h in
        record {
          version = version.0;
          is_version = version.1;
          is_recent = is_old-IsRecent version.0 version.2;
          broker = (later _ λ _. first _ (lift-Tells _ (require-ok site.broker))).at s b h;
          identity =
              (later _ λ _. later _ λ _. session-Tells _ restore_relays attempt-identity).at s b h;
          written =
              (later _ λ _. later _ λ _. session-Tells _ restore_relays attempt-written).at s b h;
        };
  }

-- With a plan made, and not in a dry run: when the flash returns and reports the image as flashed,
-- can-flasher was 2.8.0 or later, the broker was there, exactly one node answered, whose row has the profile's product or
-- reports no app, or the profile names no product, and can-flasher wrote and verified the image.
pub flash-Passed :
    (profiles : Text → Option Profile) (benches : List Desc) (site : Site)
    (dut bench expect_sha : Text) (restore_relays : Bool) (s : State) (plan : Plan)
    → make_plan profiles benches site dut bench expect_sha ≡ ok plan
    → (flash profiles benches site dut bench expect_sha false restore_relays s).0 ≡ ok true
    → Passed site plan
unfolding flash ◌then◌
flash-Passed profiles benches site dut bench expect_sha restore_relays s plan planned h =
    (carry_out-Passed site plan restore_relays).at s true
      (subst (λ r. (continue r (carry_out site false restore_relays) s).0 ≡ ok true) planned h)

dry-lift : {A : Type 0} (r : Result A) → ((r >>= λ _. ok false) ≢ ok true)
dry-lift (ok a) e = cc
dry-lift (err x) e = cc

dry-made :
    (site : Site) (restore_relays : Bool) (r : Result Plan) (s : State)
    → (((lift r then carry_out site true restore_relays) s).1 ≡ s)
      × (((lift r then carry_out site true restore_relays) s).0 ≢ ok true)
unfolding carry_out ◌then◌
dry-made site restore_relays (ok plan) s = (refl, dry-lift (acu_bitrate plan.desc))
dry-made site restore_relays (err x) s = (refl, λ e. cc)
