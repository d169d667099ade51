-- ===== src/Broker/Selects.antt =====
-- The chip selects of `HardwareManager`, broker/bus.py: which pins it claims, and which device node and
-- which pin each driver is given, by the nodes that the overlay provides. Pins as in
-- tools/hw_config.py.
use ifs_hil.Prelude.{
  ℕ, ◌≡◌, Bool, true, false, List, [], ◌∷◌, ◌++◌, map, Option, none, some, if◌then◌else◌, all_of,
  elem, All, Bool-cases, inl, inr, arith,
}

-- A driver's handle: /dev/spidev0.N, and the pin that it moves itself, if any.
pub record Handle : Type 0 where
  pub spidev : ℕ
  pub cs_pin : Option ℕ

abbrev pub dac_spidev : List ℕ
dac_spidev = 4 ∷ 5 ∷ 6 ∷ 7 ∷ []

abbrev pub adc_spidev : List ℕ
adc_spidev = 8 ∷ 9 ∷ 10 ∷ []

abbrev pub nrf_spidev : ℕ
nrf_spidev = 11

-- The device that is shared where the nodes are missing, CFG.SPI_DEVICE.
abbrev pub shared_spidev : ℕ
shared_spidev = 3

abbrev pub dac_pins : List ℕ
dac_pins = 22 ∷ 23 ∷ 24 ∷ 25 ∷ []

abbrev pub adc_pins : List ℕ
adc_pins = 19 ∷ 20 ∷ 21 ∷ []

abbrev pub nrf_cs : ℕ
nrf_cs = 26

abbrev pub nrf_ce : ℕ
nrf_ce = 13

abbrev pub own_handle : ℕ → Handle
own_handle d = record { spidev = d; cs_pin = none }

abbrev pub shared_handle : ℕ → Handle
shared_handle pin = record { spidev = shared_spidev; cs_pin = some pin }

module _ (is_there : ℕ → Bool) where
  -- `_kernel_cs_available`
  abbrev pub kernel_cs_available : List ℕ → Bool
  kernel_cs_available devs = all_of is_there devs

  abbrev unless_kernel : List ℕ → List ℕ → List ℕ
  unless_kernel devs pins = if kernel_cs_available devs then [] else pins

  -- The pins that `__init__` sets up as outputs.
  unfoldable pub claimed_pins : List ℕ
  claimed_pins =
      unless_kernel dac_spidev dac_pins
      ++ (unless_kernel adc_spidev adc_pins
          ++ (unless_kernel (nrf_spidev ∷ []) (nrf_cs ∷ []) ++ (nrf_ce ∷ [])))

  abbrev handles : List ℕ → List ℕ → List Handle
  handles devs pins =
      if kernel_cs_available devs then map own_handle devs else map shared_handle pins

  -- `_open_dacs`
  unfoldable pub open_dacs : List Handle
  open_dacs = handles dac_spidev dac_pins

  unfoldable pub open_adcs : List Handle
  open_adcs = handles adc_spidev adc_pins

  unfoldable pub open_nrf : Handle
  open_nrf =
      if kernel_cs_available (nrf_spidev ∷ []) then own_handle nrf_spidev else shared_handle nrf_cs

  -- A driver that moves its select moves a pin that was set up; one that does not has its own node.
  abbrev pub IsServed : Handle → Type 0
  IsServed d = elim d.cs_pin as (λ o. Type 0) [
    | none ↦ is_there d.spidev ≡ true
    | some pin ↦ elem pin claimed_pins ≡ true
  ]

  -- The pins of a group whose nodes are there are left to the kernel.
  abbrev pub IsLeft : List ℕ → List ℕ → Type 0
  IsLeft devs pins = kernel_cs_available devs ≡ true → All (λ p. elem p claimed_pins ≡ false) pins

  open_dacs-IsServed : All IsServed open_dacs × IsLeft dac_spidev dac_pins
  unfolding claimed_pins open_dacs
  open_dacs-IsServed = elim (Bool-cases (kernel_cs_available dac_spidev)) [
    | inl e ↦ rw e (ground (arith, e), λ h. ground arith)
    | inr e ↦ rw e (ground arith, λ h. cc)
  ]

  open_adcs-IsServed : All IsServed open_adcs × IsLeft adc_spidev adc_pins
  unfolding claimed_pins open_adcs
  open_adcs-IsServed = elim (Bool-cases (kernel_cs_available adc_spidev)) [
    | inl e ↦ rw e (ground (arith, e), λ h. ground arith)
    | inr e ↦ rw e (ground arith, λ h. cc)
  ]

  open_nrf-IsServed : IsServed open_nrf × IsLeft (nrf_spidev ∷ []) (nrf_cs ∷ [])
  unfolding claimed_pins open_nrf
  open_nrf-IsServed = elim (Bool-cases (kernel_cs_available (nrf_spidev ∷ []))) [
    | inl e ↦ rw e (ground (arith, e), λ h. ground arith)
    | inr e ↦ rw e (ground arith, λ h. cc)
  ]

  -- Whichever device nodes the overlay provides, each driver of the converters and of the radio either has
  -- a node that is there, so that the kernel moves its select, or moves a pin that was set up; and
  -- no select of a group whose nodes are all there is set up.
  pub open-IsServed :
      (All IsServed open_dacs × IsLeft dac_spidev dac_pins)
      × (All IsServed open_adcs × IsLeft adc_spidev adc_pins)
      × (IsServed open_nrf × IsLeft (nrf_spidev ∷ []) (nrf_cs ∷ []))
  open-IsServed = (open_dacs-IsServed, open_adcs-IsServed, open_nrf-IsServed)
