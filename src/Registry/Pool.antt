-- ===== src/Registry/Pool.antt =====
-- The overlay pool lies inside private ranges.
use native.Mathlib.Nat.{div-div-eq-div-mul, pow-suc}
use bound_gate_vpn.Prelude.{
  ℕ, suc, zero, ◌+◌, ◌-◌, ◌*◌, ◌/◌, ◌^◌, ◌≡◌, ◌≤◌, refl, sym, ap, ◌∙◌, subst, true, ◌&&◌, arith,
  leb, List, [], ◌∷◌, IsIn, inl, inr, Bool-cases,
}
use bound_gate_vpn.Netip.{Addr, v4, v6, invalid, Prefix, prefix, none, bits_succ, contains}
use bound_gate_vpn.Registry.{private_pool, private_ranges, in_ranges}

in_ranges-IsIn :
    (a : Addr) (bits : ℕ) (rs : List Prefix)
    → in_ranges a bits rs ≡ true
    → (r : Prefix) × IsIn r rs × (bits_succ r ≤ bits + 1) × (contains r a ≡ true)
unfolding in_ranges
in_ranges-IsIn a bits [] h = absurd (ground arith)
in_ranges-IsIn a bits (r ∷ rs) h =
    elim (Bool-cases (leb (bits_succ r) (bits + 1) && contains r a)) [
      | inl here ↦ (r, inl refl, ground arith, ground arith)
      | inr other ↦
          let (q, there, small, has) = in_ranges-IsIn a bits rs (ground (arith, other, h)) in
          (q, inr there, small, has)
    ]

pow_sum : (k d : ℕ) → 2 ^ (k + d) ≡ 2 ^ k * 2 ^ d
pow_sum k zero = let same : k + 0 ≡ k = omega arith in rw same (omega arith)
pow_sum k (suc d) =
    let same : k + suc d ≡ suc (k + d) = omega arith in
    let moved : 2 ^ k * 2 ^ d * 2 ≡ 2 ^ k * (2 ^ d * 2) = omega arith in
    ap (λ j. 2 ^ j) same
    ∙ pow-suc 2 (k + d)
    ∙ ap (λ x. x * 2) (pow_sum k d)
    ∙ moved
    ∙ ap (λ x. 2 ^ k * x) (sym (pow-suc 2 d))

-- Addresses that agree in their high bits agree in fewer of them.
same_div : (a b k d : ℕ) → a / 2 ^ k ≡ b / 2 ^ k → a / 2 ^ (k + d) ≡ b / 2 ^ (k + d)
same_div a b k d h =
    let split : (x : ℕ) → x / 2 ^ k / 2 ^ d ≡ x / 2 ^ (k + d) =
      λ x. div-div-eq-div-mul x (2 ^ k) (2 ^ d) ∙ ap (λ m. x / m) (sym (pow_sum k d)) in
    sym (split a) ∙ ap (λ x. x / 2 ^ d) h ∙ split b

coarser :
    (a b m n : ℕ)
    → m ≤ n
    → a / 2 ^ (32 - n) ≡ b / 2 ^ (32 - n)
    → a / 2 ^ (32 - m) ≡ b / 2 ^ (32 - m)
coarser a b m n h e =
    let k : ℕ = 32 - n in
    let d : ℕ = 32 - m - k in
    let same : k + d ≡ 32 - m = omega arith in
    subst (λ j. a / 2 ^ j ≡ b / 2 ^ j) same (same_div a b k d e)

contains-contains :
    (r : Prefix) (a b : ℕ) (n : ℕ)
    → bits_succ r ≤ n + 1
    → contains r (v4 a) ≡ true
    → contains (prefix (v4 a) n) (v4 b) ≡ true
    → contains r (v4 b) ≡ true
unfolding contains
contains-contains (prefix (v4 x) m) a b n h r_has p_has =
    let low = coarser a b m n (omega (arith, h)) (ground (arith, p_has)) in
    ground (arith, r_has, low)
contains-contains none a b n h r_has p_has = absurd (ground arith)
contains-contains (prefix (v6 x) m) a b n h r_has p_has = absurd (ground arith)
contains-contains (prefix invalid m) a b n h r_has p_has = absurd (ground arith)

-- Every IPv4 address of an accepted overlay pool lies in one of the private ranges.
pub private_pool-IsIn :
    (p : Prefix) (b : ℕ)
    → private_pool p ≡ true
    → contains p (v4 b) ≡ true
    → (r : Prefix) × IsIn r private_ranges × (contains r (v4 b) ≡ true)
unfolding private_pool
private_pool-IsIn (prefix (v4 a) n) b h has =
    let (r, there, small, r_has) = in_ranges-IsIn (v4 a) n private_ranges (ground (arith, h)) in
    (r, there, contains-contains r a b n small r_has has)
private_pool-IsIn none b h has = absurd (ground arith)
private_pool-IsIn (prefix (v6 a) n) b h has = absurd (ground arith)
private_pool-IsIn (prefix invalid n) b h has = absurd (ground arith)
