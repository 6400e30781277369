-- ===== src/Netip/Laws.antt =====
-- Facts about addresses and prefixes that the components use.
use native.Mathlib.Nat.{mul-div_cancel, pow-suc}
use bound_gate_vpn.Prelude.{
  ℕ, zero, suc, ◌<◌, ◌*◌, ◌-◌, ◌^◌, ap, ◌==◌, ◌≡◌, refl, true, false, arith,
}
use bound_gate_vpn.Netip.{
  Addr, invalid, v4, v6, less, unmap, Prefix, none, prefix, contains, masked, high_bits,
}

-- The order on addresses is total and strict.
pub less_total : (a b : Addr) → less a b ≡ false → less b a ≡ false → a ≡ b
less_total invalid b h k = ground arith
less_total (v4 x) b h k = ground arith
less_total (v6 x) b h k = ground arith

pub less_asym : (a b : Addr) → less a b ≡ true → less b a ≡ false
less_asym a b h = ground arith

pub unmap_idem : (a : Addr) → unmap (unmap a) ≡ unmap a
unmap_idem invalid = refl
unmap_idem (v4 x) = refl
unmap_idem (v6 x) = ground arith

pub pow2_pos : (k : ℕ) → 0 < 2 ^ k
pow2_pos zero = ground arith
pow2_pos (suc k) = rw (pow-suc 2 k) (let below = pow2_pos k in omega arith)

pub high_bits-masked :
    (len n a : ℕ) → high_bits len n (high_bits len n a * 2 ^ (len - n)) ≡ high_bits len n a
high_bits-masked len n a = mul-div_cancel (high_bits len n a) (pow2_pos (len - n))

-- Masking keeps what a prefix contains.
pub contains-masked : (p : Prefix) (a : Addr) → contains (masked p) a ≡ contains p a
unfolding contains masked
contains-masked (prefix (v4 x) n) (v4 y) = ap (λ b. b == high_bits 32 n y) (high_bits-masked 32 n x)
contains-masked (prefix (v6 x) n) (v6 y) =
    ap (λ b. b == high_bits 128 n y) (high_bits-masked 128 n x)
contains-masked none a = refl
contains-masked (prefix invalid n) a = refl
contains-masked (prefix (v4 x) n) invalid = refl
contains-masked (prefix (v4 x) n) (v6 y) = refl
contains-masked (prefix (v6 x) n) invalid = refl
contains-masked (prefix (v6 x) n) (v4 y) = refl
