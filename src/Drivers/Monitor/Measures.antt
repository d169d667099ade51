-- ===== src/Drivers/Monitor/Measures.antt =====
-- What the driver of tools/ina226.py makes of the registers of its chip, and of a chip that is absent.
use ifs_hil.Prelude.{
  ℕ, ◌+◌, ◌*◌, ◌/◌, ◌%◌, ◌<◌, ◌≡◌, inl, inr, refl, ap, ◌∙◌, false, ◌&&◌, List, [], ◌∷◌, ◌==◌,
  Bool-cases, arith,
}
use ifs_hil.Prelude.Int.{ℤ, pos, negsuc, InRange, wrap}
use ifs_hil.Prelude.Result.{Result, Exc, ok, err, os_error, ◌>>=◌}
use ifs_hil.Drivers.Monitor.{
  I2c, word_of, signed16, caught, chain, read_reg, write_reg, configure, init, is_present,
  bus_voltage, shunt_voltage, current, power, snapshot,
}

-- A bus with the monitor on it: words are sent high byte first, and reading changes no register.
pub record IsMonitor {S : Type 0} (bus : I2c S) (reg : S → ℕ → ℕ) : Type 0 where
  pub width : (a : ℕ) (s : S) → reg s a < 65536
  pub answers : (a : ℕ) (s : S) → (bus.read_block a s).0 ≡ ok (reg s a / 256, reg s a % 256)
  pub keeps : (a b : ℕ) (s : S) → reg (bus.read_block a s).1 b ≡ reg s b

-- A bus on which the monitor does not answer.
pub record IsAbsent {S : Type 0} (bus : I2c S) : Type 0 where
  pub unread : (a : ℕ) (s : S) → (bus.read_block a s).0 ≡ err os_error
  pub unwritten : (a : ℕ) (bs : List ℕ) (s : S) → (bus.write_block a bs s).0 ≡ err os_error

signed16-wrap : (z : ℤ) (n : ℕ) → InRange 65536 z → n ≡ wrap 65536 z → signed16 n ≡ z
signed16-wrap (pos k) n h e = ground (arith, h, e)
signed16-wrap (negsuc k) n h e = ground (arith, h, e)

module _ {S : Type 0} (bus : I2c S) (reg : S → ℕ → ℕ) (laws : IsMonitor bus reg) where
  read_reg-known : (a : ℕ) (s : S) → (read_reg bus a s).0 ≡ ok (reg s a)
  unfolding read_reg
  read_reg-known a s =
      let whole : reg s a / 256 * 256 + reg s a % 256 ≡ reg s a = omega arith in
      rw (laws.answers a s) (ap ok whole)

  read_reg-keeps : (a b : ℕ) (s : S) → reg (read_reg bus a s).1 b ≡ reg s b
  unfolding read_reg
  read_reg-keeps a b s = laws.keeps a b s

  chain-read :
      {A : Type 0} (a : ℕ) (s : S) (f : ℕ → S → Result A × S)
      → chain (read_reg bus a s) f ≡ f (reg s a) (read_reg bus a s).1
  chain-read a s f = ap (λ r. chain (r, (read_reg bus a s).1) f) (read_reg-known a s)

  -- A reading that is turned into a quantity, in front of what follows.
  quantity :
      {A B : Type 0} (a : ℕ) (s : S) (g : ℕ → A) (v : A) (f : A → S → Result B × S)
      → g (reg s a) ≡ v
      → chain (chain (read_reg bus a s) (λ raw t. (ok (g raw), t))) f ≡ f v (read_reg bus a s).1
  quantity a s g v f e =
      ap (λ m. chain m f) (chain-read a s (λ raw t. (ok (g raw), t)))
      ∙ ap (λ w. f w (read_reg bus a s).1) e

  is_present-known :
      (s : S) → (is_present bus s).0 ≡ ok (reg s 0xFE == 0x5449 && reg s 0xFF == 0x2260)
  unfolding is_present
  is_present-known s =
      let t : S = (read_reg bus 0xFE s).1 in
      ap (λ m. (caught false m).0) (chain-read 0xFE s _)
      ∙ elim (Bool-cases (reg s 0xFE == 0x5449)) [
        | inl e ↦ rw e (
            ap (λ m. (caught false m).0) (chain-read 0xFF t (λ die u. (ok (die == 0x2260), u)))
            ∙ ap (λ n. ok (n == 0x2260)) (read_reg-keeps 0xFE 0xFF s))
        | inr e ↦ rw e refl
      ]

  snapshot-known :
      {V : Type 0} (volts shunt_volts amps : ℤ → V) (watts : ℕ → V) (shunt flow : ℤ) (s : S)
      → InRange 65536 shunt
      → InRange 65536 flow
      → reg s 0x01 ≡ wrap 65536 shunt
      → reg s 0x04 ≡ wrap 65536 flow
      → (snapshot bus volts shunt_volts amps watts s).0
        ≡ ok (record {
          bus_voltage = volts (pos (reg s 0x02));
          shunt_voltage = shunt_volts shunt;
          current = amps flow;
          power = watts (reg s 0x03);
        })
  unfolding snapshot bus_voltage shunt_voltage current power
  snapshot-known volts shunt_volts amps watts shunt flow s h k e f =
      let s1 : S = (read_reg bus 0x02 s).1 in
      let s2 : S = (read_reg bus 0x01 s1).1 in
      let s3 : S = (read_reg bus 0x04 s2).1 in
      let at1 = signed16-wrap shunt (reg s1 0x01) h (read_reg-keeps 0x02 0x01 s ∙ e) in
      let at4 =
        signed16-wrap flow (reg s2 0x04) k
          (read_reg-keeps 0x01 0x04 s1 ∙ read_reg-keeps 0x02 0x04 s ∙ f) in
      let at3 =
        read_reg-keeps 0x04 0x03 s2 ∙ read_reg-keeps 0x01 0x03 s1 ∙ read_reg-keeps 0x02 0x03 s in
      ap (λ m. m.0)
        (quantity 0x02 s (λ raw. volts (pos raw)) _ _ refl
          ∙ quantity 0x01 s1 (λ raw. shunt_volts (signed16 raw)) _ _ (ap shunt_volts at1)
          ∙ quantity 0x04 s2 (λ raw. amps (signed16 raw)) _ _ (ap amps at4)
          ∙ quantity 0x03 s3 (λ raw. watts raw) _ _ (ap watts at3))

chain-raises :
    {A B S : Type 0} (m : Result A × S) (e : Exc) (f : A → S → Result B × S)
    → m.0 ≡ err e
    → chain m f ≡ (err e, m.1)
chain-raises m e f h = ap (λ r. chain (r, m.1) f) h

read_reg-raises :
    {S : Type 0} (bus : I2c S)
    → IsAbsent bus
    → (a : ℕ) (s : S) → (read_reg bus a s).0 ≡ err os_error
unfolding read_reg
read_reg-raises bus gone a s = ap (λ r. r >>= λ raw. ok (word_of raw)) (gone.unread a s)

-- With the monitor on the bus, is_present tells whether both identifiers are those of an INA226, and a
-- snapshot has the bus voltage and the power of the unsigned registers and the shunt voltage and the current
-- of the two's complement ones, over their whole range. On a bus where it does not answer the driver is
-- still set up, is_present is False, and only a snapshot raises OSError.
pub snapshot-measures :
    {S V : Type 0} (bus absent : I2c S) (reg : S → ℕ → ℕ) (volts shunt_volts amps : ℤ → V)
    (watts : ℕ → V) (cal : ℕ) (shunt flow : ℤ) (s : S)
    → IsMonitor bus reg
    → IsAbsent absent
    → InRange 65536 shunt
    → InRange 65536 flow
    → reg s 0x01 ≡ wrap 65536 shunt
    → reg s 0x04 ≡ wrap 65536 flow
    → ((is_present bus s).0 ≡ ok (reg s 0xFE == 0x5449 && reg s 0xFF == 0x2260))
      × ((snapshot bus volts shunt_volts amps watts s).0
          ≡ ok (record {
            bus_voltage = volts (pos (reg s 0x02));
            shunt_voltage = shunt_volts shunt;
            current = amps flow;
            power = watts (reg s 0x03);
          }))
      × ((init absent cal s).0 ≡ ok tt)
      × ((is_present absent s).0 ≡ ok false)
      × ((snapshot absent volts shunt_volts amps watts s).0 ≡ err os_error)
unfolding snapshot bus_voltage shunt_voltage current power init configure is_present write_reg
    read_reg
snapshot-measures bus absent reg volts shunt_volts amps watts cal shunt flow s laws gone h k e f = (
  is_present-known bus reg laws s,
  snapshot-known bus reg laws volts shunt_volts amps watts shunt flow s h k e f,
  ap (λ m. (caught tt m).0)
      (chain-raises (write_reg absent 0x00 0x4527 s) _ _
        (gone.unwritten 0x00 (0x45 ∷ 0x27 ∷ []) s)),
  ap (λ m. (caught false m).0)
      (chain-raises (read_reg absent 0xFE s) _ _ (read_reg-raises absent gone 0xFE s)),
  ap (λ m. m.0)
      (chain-raises (bus_voltage absent volts shunt_volts amps watts s) _ _ (
        ap (λ m. m.0)
          (chain-raises (read_reg absent 0x02 s) _ _ (read_reg-raises absent gone 0x02 s)))),
)
