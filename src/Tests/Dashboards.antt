-- ===== src/Tests/Dashboards.antt =====
-- Requests to the dashboard, dashboard/app.py, at concrete values.
use ifs_hil.Prelude.{Bool, not, ◌==◌, refl, ℕ, true, false, List, [], ◌∷◌, none, arith}
use ifs_hil.Prelude.Text.{lit}
use ifs_hil.Broker.Fake
use ifs_hil.Dashboard.Web.{
  Request, carrier, supply, dac, tca_pin, can_mode, new_app, init_relays, serve_each,
}
use ifs_hil.Dashboard.Web.Relays.{IsShown, serve_each-Shows}

abbrev requests : List (Request ℕ)
requests =
    supply true
    ∷ carrier 2 true
    ∷ carrier 4 true
    ∷ carrier 9 true
    ∷ dac 1 0 none
    ∷ tca_pin 0x21 1 6 true
    ∷ can_mode 0 (lit "loopback")
    ∷ carrier 2 false
    ∷ []

-- The seventh call, the second of a carrier request, does not reach the broker.
abbrev reached : ℕ → Bool
reached n = not (n == 6)

serve_each-Shows_example :
    IsShown (serve_each requests (init_relays (new_app reached (Fake.init 0))).1)
unfolding Fake.init new_app init_relays Fake.tca_set_direction Fake.tca_write_port
serve_each-Shows_example =
    serve_each-Shows reached (Fake.init 0) 0 requests refl refl (ground arith)
