-- ===== src/Tests/Kernels.antt =====
-- The broker on a host whose links do what they are told at concrete values; broker/.
use ifs_hil.Prelude.{
  inl, ℕ, ◌≡◌, refl, Bool, true, false, not, List, [], ◌∷◌, none, some, if◌then◌else◌, ◌==◌, All,
  arith,
}
use ifs_hil.Prelude.Result.{ok}
use ifs_hil.Broker.Kernel.{Host, Manager, new_manager, can_set_mode, can_get_mode}
use ifs_hil.Broker.Kernel.Modes.{IsLinks, Settles, can_set_mode-Settles}
use ifs_hil.Broker.Kernel.Agrees.{
  CanCall, set_mode, reset, init, run_real, run_fake, fake_mode, run_real-Refines,
}
use ifs_hil.Broker.Fake
use ifs_hil.Broker.Selects.{
  IsServed, IsLeft, open_dacs, open_adcs, open_nrf, dac_spidev, dac_pins, adc_spidev, adc_pins,
  nrf_spidev, nrf_cs, open-IsServed,
}

-- Which links are up.
abbrev Links : Type 0
Links = ℕ → Bool

abbrev put_link : ℕ → Bool → Links → Links
put_link idx b w j = if idx == j then b else w j

abbrev host : Host Links
host = record {
  show = λ idx w. ok (record { is_down = not (w idx); tx_errors = none; rx_errors = none });
  ip_down = λ idx w. put_link idx false w;
  ip_up = λ idx br loopback w. (ok tt, put_link idx true w);
  open_bus = λ idx w. ok tt;
  exchange = λ idx msg w. (ok (some msg), w);
}

host-IsLinks : IsLinks host
host-IsLinks = record {
  down_shows = λ idx w. inl (ground arith);
  up_shows = λ idx br loopback w h. ground arith;
  up_fails = λ idx br loopback w e h. cc;
  down_others = λ idx j w ne. ground (arith, ne);
  up_others = λ idx j br loopback w ne. ground (arith, ne);
}

abbrev all_down : Links
all_down idx = false

abbrev manager : Manager Links
manager = new_manager all_down 500000

can_set_mode-Settles_example : Settles host 1 0x40 manager (can_set_mode host 1 0x40 manager)
unfolding new_manager
can_set_mode-Settles_example =
    can_set_mode-Settles host host-IsLinks 1 0x40 manager (omega arith)
      (record { bytes = refl; buses = refl })

abbrev calls : List CanCall
calls = init 1 500000 ∷ set_mode 1 0x00 ∷ set_mode 2 0x40 ∷ reset 2 ∷ []

run_real-Refines_example :
    can_get_mode host 1 (run_real host calls manager)
    ≡ fake_mode {V = ℕ} 1 (run_fake calls (Fake.init 0))
run_real-Refines_example =
    run_real-Refines host host-IsLinks (λ idx br loopback w. refl) 0 all_down 500000 calls 1
      (omega arith) (omega arith)

-- The overlay provides the nodes of the DACs alone.
abbrev dacs_there : ℕ → Bool
dacs_there dev =
    if dev == 4 then true else if dev == 5 then true else if dev == 6 then true else dev == 7

open-IsServed_example :
    (All (IsServed dacs_there) (open_dacs dacs_there) × IsLeft dacs_there dac_spidev dac_pins)
    × (All (IsServed dacs_there) (open_adcs dacs_there) × IsLeft dacs_there adc_spidev adc_pins)
    × (IsServed dacs_there (open_nrf dacs_there)
        × IsLeft dacs_there (nrf_spidev ∷ []) (nrf_cs ∷ []))
open-IsServed_example = open-IsServed dacs_there
