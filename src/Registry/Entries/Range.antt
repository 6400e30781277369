-- ===== src/Registry/Entries/Range.antt =====
-- Which addresses an entry matches, and what every parsed entry satisfies.
use native.Mathlib.Nat.{le-div_iff_mul-le}
use bound_gate_vpn.Prelude.{
  ℕ, ◌+◌, ◌-◌, ◌*◌, ◌/◌, ◌^◌, ◌≡◌, ◌≤◌, ◌<◌, refl, arith, false, not, ◌&&◌, Option, Option-cases,
  none, some, ltb, ◌==◌, Bytes, inl, inr, ◌⊎◌, sym, ap, ◌∙◌, subst, Bool-cases,
}
use bound_gate_vpn.Prelude.Text.{atoi, cut_at}
use bound_gate_vpn.Netip.{
  Addr, invalid, v4, v6, less, unmap, is_4in6, Prefix, prefix, masked, contains, high_bits,
}
use bound_gate_vpn.Netip.Laws.{pow2_pos, high_bits-masked}
use bound_gate_vpn.Registry.Entries.{
  AddrEntry, is_4, matches, last_of, prefix_addr, prefix_entry, span, port_pair, parse_ports,
}

-- The numbers with the same high bits are those between the first and the last of them.
between :
    (q y size : ℕ)
    → 0 < size
    → (not (ltb y (q * size)) && not (ltb (q * size + (size - 1)) y)) ≡ (q == y / size)
between q y size pos =
    let next : (q + 1) * size ≡ q * size + size = omega arith in
    ground (
      arith,
      le-div_iff_mul-le {k = size} {x = q} {y = y} pos,
      le-div_iff_mul-le {k = size} {x = q + 1} {y = y} pos,
      next,
    )

-- The ports that an entry matches are none or an ascending range of ports.
abbrev pub PortsOk : AddrEntry → Type 0
PortsOk e =
    ((e.port ≡ 0) × (e.port_to ≡ 0)) ⊎ ((1 ≤ e.port) × (e.port ≤ e.port_to) × (e.port_to ≤ 65_535))

-- The addresses of an entry are of one family, the first not above the last.
abbrev pub AddrsOk : AddrEntry → Type 0
AddrsOk e = (is_4 e.lo ≡ is_4 e.hi) × (less e.hi e.lo ≡ false)

port_pair-ok :
    (a b : Option ℕ) (lo hi : ℕ)
    → port_pair a b ≡ some (lo, hi)
    → (1 ≤ lo) × (lo ≤ hi) × (hi ≤ 65_535)
unfolding port_pair
port_pair-ok none b lo hi h = absurd (ground arith)
port_pair-ok (some a) none lo hi h = absurd (ground arith)
port_pair-ok (some a) (some b) lo hi h = ground arith

pub parse_ports-ok :
    (s : Bytes) (lo hi : ℕ) → parse_ports s ≡ some (lo, hi) → (1 ≤ lo) × (lo ≤ hi) × (hi ≤ 65_535)
unfolding parse_ports
parse_ports-ok s lo hi h = elim (Option-cases (cut_at b'-' s)) [
  | inl e ↦ port_pair-ok (atoi s) (atoi s) lo hi (ground arith)
  | inr (x, e) ↦ port_pair-ok (atoi x.0) (atoi x.1) lo hi (ground arith)
]

pub some_same : {A : Type 0} (x y : A) → some x ≡ some y → x ≡ y
some_same x y h = ground arith

-- The entry of a prefix whose numbers have the high bits q.
abbrev pub block : (ℕ → Addr) → ℕ → ℕ → AddrEntry
block at q size = span (at (q * size)) (at (q * size + (size - 1)))

pub prefix_entry_4 :
    (x n : ℕ) → prefix_entry (prefix (v4 x) n) ≡ some (block v4 (high_bits 32 n x) (2 ^ (32 - n)))
unfolding prefix_entry masked last_of
prefix_entry_4 x n =
    ap
      (λ q.
        some (
          span (v4 (high_bits 32 n x * 2 ^ (32 - n))) (v4 (q * 2 ^ (32 - n) + (2 ^ (32 - n) - 1)))))
      (high_bits-masked 32 n x)

pub prefix_entry_6 :
    (x n : ℕ) (e : AddrEntry)
    → prefix_entry (prefix (v6 x) n) ≡ some e
    → block v6 (high_bits 128 n x) (2 ^ (128 - n)) ≡ e
unfolding prefix_entry masked last_of
prefix_entry_6 x n e h = elim (Bool-cases (is_4in6 (v6 x))) [
  | inl mapped ↦ absurd (ground arith)
  | inr other ↦
      let made : some
            (span (prefix_addr (masked (prefix (v6 x) n))) (last_of (masked (prefix (v6 x) n))))
          ≡ some e =
        ground arith in
      ap
        (λ q.
          span (v6 (high_bits 128 n x * 2 ^ (128 - n)))
            (v6 (q * 2 ^ (128 - n) + (2 ^ (128 - n) - 1))))
        (sym (high_bits-masked 128 n x))
      ∙ some_same _ e made
]

matches_invalid : (a : Addr) (port : ℕ) → matches (span invalid invalid) a port ≡ false
unfolding matches
matches_invalid invalid port = refl
matches_invalid (v4 y) port = ground arith
matches_invalid (v6 y) port = ground arith

matches-block_4 :
    (q size : ℕ) (a : Addr) (port : ℕ)
    → unmap a ≡ a
    → matches (block v4 q size) a port
      ≡ elim a [ v4 y ↦ not (ltb y (q * size)) && not (ltb (q * size + (size - 1)) y) | _ ↦ false ]
unfolding matches
matches-block_4 q size invalid port h = refl
matches-block_4 q size (v4 y) port h = ground arith
matches-block_4 q size (v6 y) port h = rw (h) (ground arith)

matches-block_6 :
    (q size : ℕ) (a : Addr) (port : ℕ)
    → unmap a ≡ a
    → matches (block v6 q size) a port
      ≡ elim a [ v6 y ↦ not (ltb y (q * size)) && not (ltb (q * size + (size - 1)) y) | _ ↦ false ]
unfolding matches
matches-block_6 q size invalid port h = refl
matches-block_6 q size (v4 y) port h = ground arith
matches-block_6 q size (v6 y) port h = rw (h) (ground arith)

inside_4 :
    (x n : ℕ) (a : Addr)
    → (elim a [
      | v4 y ↦
          not (ltb y (high_bits 32 n x * 2 ^ (32 - n)))
          && not (ltb (high_bits 32 n x * 2 ^ (32 - n) + (2 ^ (32 - n) - 1)) y)
      | _ ↦ false
    ])
      ≡ contains (prefix (v4 x) n) a
unfolding contains
inside_4 x n invalid = refl
inside_4 x n (v4 y) = between (high_bits 32 n x) y (2 ^ (32 - n)) (pow2_pos (32 - n))
inside_4 x n (v6 y) = refl

inside_6 :
    (x n : ℕ) (a : Addr)
    → (elim a [
      | v6 y ↦
          not (ltb y (high_bits 128 n x * 2 ^ (128 - n)))
          && not (ltb (high_bits 128 n x * 2 ^ (128 - n) + (2 ^ (128 - n) - 1)) y)
      | _ ↦ false
    ])
      ≡ contains (prefix (v6 x) n) a
unfolding contains
inside_6 x n invalid = refl
inside_6 x n (v4 y) = refl
inside_6 x n (v6 y) = between (high_bits 128 n x) y (2 ^ (128 - n)) (pow2_pos (128 - n))

-- The entry of a prefix matches, at every port, the addresses that the prefix contains and no
-- others, where the address is not a mapped one and prefixes around mapped addresses have no entry.
pub matches-prefix_entry :
    (p : Prefix) (e : AddrEntry) (a : Addr) (port : ℕ)
    → prefix_entry p ≡ some e
    → unmap a ≡ a
    → matches e a port ≡ contains p a
unfolding contains prefix_entry masked last_of
matches-prefix_entry Prefix.none e a port h same =
    subst (λ x. matches x a port ≡ false) (some_same _ e h) (matches_invalid a port)
matches-prefix_entry (prefix invalid n) e a port h same =
    subst (λ x. matches x a port ≡ false) (some_same _ e h) (matches_invalid a port)
matches-prefix_entry (prefix (v4 x) n) e a port h same =
    let made = some_same _ e (sym (prefix_entry_4 x n) ∙ h) in
    subst (λ i. matches i a port ≡ contains (prefix (v4 x) n) a) made
      (matches-block_4 (high_bits 32 n x) (2 ^ (32 - n)) a port same ∙ inside_4 x n a)
matches-prefix_entry (prefix (v6 x) n) e a port h same =
    subst (λ i. matches i a port ≡ contains (prefix (v6 x) n) a) (prefix_entry_6 x n e h)
      (matches-block_6 (high_bits 128 n x) (2 ^ (128 - n)) a port same ∙ inside_6 x n a)
