-- ===== src/Broker/Readback.antt =====
-- What was written to an expander of the in-memory backend, broker/fake_bus.py, is read back.
use ifs_hil.Prelude.{
  ℕ, ◌%◌, ◌≡◌, ◌≢◌, refl, sym, ap, ◌∙◌, inl, inr, List, [], ◌∷◌, Bool-cases, ◌==◌, ==_iff, arith,
}
use ifs_hil.Prelude.Result.{ok}
use ifs_hil.Broker.Fake.{
  Ports, at_key, insert, Tca, Fake, find_tca, replace, tca_read_port, tca_write_port,
}

pub at_key-insert : (k v : ℕ) (ps : Ports) → at_key k (insert k v ps) ≡ ok v
at_key-insert k v [] = ground arith
at_key-insert k v (p ∷ ps) = ground (arith, at_key-insert k v ps)

pub find_tca-replace :
    (addr : ℕ) (t t' : Tca) (ts : List Tca)
    → find_tca addr ts ≡ ok t
    → t'.addr ≡ addr
    → find_tca addr (replace t' ts) ≡ ok t'
find_tca-replace addr t t' [] h e = cc
find_tca-replace addr t t' (u ∷ us) h e = ground (arith, find_tca-replace addr t t' us)

pub find_tca-addr : (addr : ℕ) (t : Tca) (ts : List Tca) → find_tca addr ts ≡ ok t → t.addr ≡ addr
find_tca-addr addr t [] h = cc
find_tca-addr addr t (u ∷ us) h = elim (Bool-cases (u.addr == addr)) [
  | inl e ↦
      let same : u ≡ t = ground (arith, h, e) in
      ap (λ (x : Tca). x.addr) (sym same) ∙ (==_iff _ _).0 e
  | inr e ↦ find_tca-addr addr t us (ground (arith, h, e))
]

-- Replacing an expander leaves the others.
pub find_tca-others :
    (addr : ℕ) (t : Tca) (ts : List Tca)
    → t.addr ≢ addr
    → find_tca addr (replace t ts) ≡ find_tca addr ts
find_tca-others addr t [] ne = refl
find_tca-others addr t (u ∷ us) ne = ground (arith, ne, find_tca-others addr t us ne)

-- A write to a port of an expander that is there is read back from that port as its low eight bits.
pub tca_read_port-tca_write_port :
    {V : Type 0} (addr port value : ℕ) (f : Fake V) (t : Tca)
    → find_tca addr f.tca ≡ ok t
    → (tca_read_port addr port (tca_write_port addr port value f).1).0 ≡ ok (value % 256)
unfolding tca_read_port tca_write_port
tca_read_port-tca_write_port addr port value f t h =
    let t' : Tca = record t { outputs = insert port (value % 256) t.outputs } in
    rw h (
      rw (find_tca-replace addr t t' f.tca h (find_tca-addr addr t f.tca h))
        (at_key-insert port (value % 256) t.outputs))
