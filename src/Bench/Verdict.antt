-- ===== src/Bench/Verdict.antt =====
-- When `bench doctor` of tools/bench.py has nothing to complain of, and what it prints.
use ifs_hil.Prelude.{
  ℕ, zero, suc, ◌≡◌, ◌≢◌, refl, ap, ◌↔◌, Bool, true, false, not, ◌&&◌, List, [], ◌∷◌, ◌++◌, none,
  arith, All, if◌then◌else◌,
}
use ifs_hil.Prelude.Int.{ℤ, pos, negsuc}
use ifs_hil.Prelude.Text.{Text, lit, same, same_iff, among, words, contains}
use ifs_hil.Bench.Host.{
  Host, sh, is_zero, required_groups, boot_config, config_lines, module_check, compared,
}
use ifs_hil.Bench.Doctor.{controllers_check, is_enabled, is_active, restart_policy, host_checks}
use ifs_hil.Bench.Report.{
  runner_units, units_checks, is_configured, runner_checks, checks_of, unserved, doctor_checks,
  Line, returned, refused, report, cmd_doctor,
}
use ifs_hil.Prelude.Iff.{negated_iff, and_to, ◌⊗◌, same_to, all_of_iff, All-append_iff}
use ifs_hil.Bench.Printed.{verdicts, AreHeaded, report-IsReport}
use ifs_hil.Bench.Documented.{
  Succeeds, IsUp, IsPatched, IsBound, IsServed, IsKept, HostPasses, Passes, pins,
}
use ifs_hil.Bench.Pinout.{Shows-iff}
use ifs_hil.Bench.Bound.{bound_at}

is_zero_iff : (rc : ℤ) → (is_zero rc ≡ true) ↔ (rc ≡ pos 0)
is_zero_iff (pos n) = (λ h. ap pos (ground (arith, h)), λ h. ap is_zero h)
is_zero_iff (negsuc n) = (λ h. cc, λ h. ap is_zero h)

compared_iff :
    (a b : Text) (rc : ℤ) → ((compared a (rc, b)).ok ≡ true) ↔ ((rc ≡ pos 0) × (b ≢ []) × (a ≢ b))
compared_iff a [] (pos zero) = (λ h. absurd (cc h), λ h. absurd (h.1 refl))
compared_iff a (c ∷ b) (pos zero) =
    let differ = negated_iff _ (same_iff a (c ∷ b)) in
    (λ h. (refl, (λ e. cc), differ.0 h), λ h. differ.1 h.2)
compared_iff a b (pos (suc n)) =
    let z : is_zero (pos (suc n)) ≡ false = ground arith in
    (λ h. absurd (cc (h, z)), λ h. absurd (cc (h.0)))
compared_iff a b (negsuc n) = (λ h. absurd (cc h), λ h. absurd (cc (h.0)))

module _ (host : Host) where
  IsPatched-iff : ((module_check host).ok ≡ true) ↔ IsPatched host
  unfolding module_check
  IsPatched-iff = compared_iff _ _ _

  IsBound-iff : ((controllers_check host).ok ≡ true) ↔ IsBound host
  unfolding controllers_check
  IsBound-iff = bound_at _

  IsUp-iff :
      (u : Text)
      → ((same (is_enabled host u) (lit "enabled") && same (is_active host u) (lit "active"))
          ≡ true)
        ↔ IsUp host u
  IsUp-iff u = and_to _ (same_iff _ _) (same_iff _ _)

  units_iff :
      (us : List Text) → All (λ c. c.ok ≡ true) (units_checks host us) ↔ All (IsServed host) us
  units_iff [] = same_to
  units_iff (u ∷ us) =
      let up = IsUp-iff u in
      let kept = same_iff (restart_policy host u) (lit "always") in
      let rest = units_iff us in
      (
        (λ h. ((up.0 h.0, kept.0 h.1.0), rest.0 h.1.1)),
        (λ h. (up.1 h.0.0, (kept.1 h.0.1, rest.1 h.1))),
      )

  unserved_iff :
      (b : Bool) → All (λ c. c.ok ≡ true) (if b then unserved host ∷ [] else []) ↔ (not b ≡ true)
  unserved_iff true = (λ h. cc (h.0), λ h. absurd (cc h))
  unserved_iff false = (λ h. refl, λ h. tt)

  IsKept-iff : (us : List Text) → All (λ c. c.ok ≡ true) (checks_of host us) ↔ IsKept host us
  IsKept-iff [] =
      let configured = is_zero_iff (sh host (lit "test -f \"$HOME/actions-runner/.runner\"")).0 in
      let free = negated_iff (is_configured host) configured in
      let none_failed = unserved_iff (is_configured host) in
      (λ h. free.0 (none_failed.0 h), λ h. none_failed.1 (free.1 h))
  IsKept-iff (u ∷ us) = units_iff (u ∷ us)

  Succeeds-iff : (cmd : Text) → (is_zero (sh host cmd).0 ≡ true) ↔ Succeeds host cmd
  Succeeds-iff cmd = is_zero_iff (sh host cmd).0

  host_iff : All (λ c. c.ok ≡ true) (host_checks host) ↔ HostPasses host
  unfolding host_checks
  host_iff =
      let all =
        Succeeds-iff _
        ⊗ all_of_iff (λ g. among g (words (sh host (lit "id -nG")).1)) required_groups
        ⊗ Succeeds-iff _
        ⊗ all_of_iff (λ l. contains l (sh host (lit "cat " ++ boot_config ++ lit " 2>/dev/null")).1)
            config_lines
        ⊗ IsPatched-iff
        ⊗ IsBound-iff
        ⊗ same_to
        ⊗ IsUp-iff (lit "hil-psu-on")
        ⊗ IsUp-iff (lit "hil-can-up")
        ⊗ IsUp-iff (lit "hil-broker")
        ⊗ IsUp-iff (lit "hil-dashboard")
        ⊗ Succeeds-iff _
        ⊗ Succeeds-iff _
        ⊗ Shows-iff (lit "7") (pins host) (lit "op") (lit "lo") refl
        ⊗ Shows-iff (lit "8") (pins host) (lit "ip") (lit "hi") refl
        ⊗ Succeeds-iff _
        ⊗ same_iff _ _
        ⊗ Succeeds-iff _
        ⊗ same_to in
      (
        (λ h.
            let (
              p,
              (
                g,
                (
                  o,
                  (
                    c,
                    (
                      m,
                      (b, (s, (u1, (u2, (u3, (u4, (d1, (d2, (on, (okay, (k, (w, (f, t))))))))))))),
                    ),
                  ),
                ),
              ),
            ) =
              all.0 h in
            record {
              packages = p;
              groups = g;
              overlay = o;
              config = c;
              patched = m;
              bound = b;
              sudoers = s;
              services = (u1, (u2, (u3, (u4, tt))));
              spidev = d1;
              i2c = d2;
              ps_on = on;
              pwr_ok = okay;
              socket = k;
              dashboard = w;
              flasher = f;
            }),
        (λ d.
            let (u1, (u2, (u3, (u4, t)))) = d.services in
            all.1 (
              d.packages,
              (
                d.groups,
                (
                  d.overlay,
                  (
                    d.config,
                    (
                      d.patched,
                      (
                        d.bound,
                        (
                          d.sudoers,
                          (
                            u1,
                            (
                              u2,
                              (
                                u3,
                                (
                                  u4,
                                  (
                                    d.spidev,
                                    (
                                      d.i2c,
                                      (
                                        d.ps_on,
                                        (d.pwr_ok, (d.socket, (d.dashboard, (d.flasher, tt)))),
                                      ),
                                    ),
                                  ),
                                ),
                              ),
                            ),
                          ),
                        ),
                      ),
                    ),
                  ),
                ),
              ),
            )),
      )

  checks_iff :
      (include : Bool)
      → All (λ c. c.ok ≡ true) (host_checks host ++ (if include then runner_checks host else []))
        ↔ Passes host include
  unfolding runner_units
  checks_iff true =
      let split = All-append_iff (λ c. c.ok ≡ true) (host_checks host) (runner_checks host) in
      let each = host_iff ⊗ IsKept-iff (runner_units host) in
      (λ h. each.0 (split.0 h), λ d. split.1 (each.1 d))
  checks_iff false =
      let split = All-append_iff (λ c. c.ok ≡ true) (host_checks host) [] in
      (λ h. host_iff.0 (split.0 h).0, λ d. split.1 (host_iff.1 d, tt))

-- On Linux the command prints every check once, in order, under the heading of its section, and its exit status
-- is 0 exactly when the host passes: what the named commands of the shell print and return is what `Passes` says,
-- the units of the runner counting unless --host-only is given.
pub cmd_doctor-Passes :
    (host_only : Bool) (host : Host)
    → host.linux ≡ true
    → (ls : List Line) × (code : ℕ) × (cmd_doctor host_only host ≡ returned ls code)
      × (verdicts ls ≡ doctor_checks host (not host_only))
      × AreHeaded none ls
      × ((code ≡ 0) ↔ Passes host (not host_only))
unfolding cmd_doctor doctor_checks
cmd_doctor-Passes host_only host h =
    let cs = doctor_checks host (not host_only) in
    let r = report-IsReport host_only cs in
    let (all_in, all_out) = checks_iff host (not host_only) in
    (
      _,
      _,
      ap (λ b. if b then report host_only cs else refused) h,
      r.0,
      r.1,
      ((λ z. all_in (r.2.0 z)), (λ d. r.2.1 (all_out d))),
    )
