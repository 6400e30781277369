-- ===== src/Acl/Owners.antt =====
-- Which node owns an address.
use bound_gate_vpn.Prelude.{
  ℕ, ◌≡◌, ◌≤◌, ◌<◌, refl, inl, inr, ◌⊎◌, arith, true, Bool-cases, Option-cases, none, some, ◌&&◌,
  List, [], ◌∷◌, IsIn, ltb, ap, sym, subst, ◌∙◌,
}
use bound_gate_vpn.Netip.{Addr, same_addr_iff, Prefix, prefix, contains, bits_succ}
use bound_gate_vpn.Registry.{Node, Announced, Snapshot}
use bound_gate_vpn.Acl.Base.{snapshot_nodes}
use bound_gate_vpn.Acl.Evaluate.{by_overlay, Best, better, longest, owner_of}

-- A node announces a network that contains the address, with `bits` one more than its length.
abbrev pub Announces : Addr → ℕ → Node → Type 0
Announces a bits n =
    (p : Announced) × IsIn p n.prefixes × (contains p.prefix a ≡ true) × (bits_succ p.prefix ≡ bits)

-- The outcome of going through a node's networks.
abbrev Kept : Addr → Node → List Announced → Best → Best → Type 0
Kept a n ps best b =
    (b ≡ best)
    ⊎ ((p : Announced) × IsIn p ps
        × (contains p.prefix a ≡ true)
        × (b ≡ (some n, bits_succ p.prefix)))

better_grows :
    (a : Addr) (n : Node) (ps : List Announced) (best : Best) → best.1 ≤ (better a n ps best).1
unfolding better
better_grows a n [] best = ground arith
better_grows a n (p ∷ ps) best =
    ground (arith, better_grows a n ps best, better_grows a n ps (some n, bits_succ p.prefix))

better-IsIn :
    (a : Addr) (n : Node) (ps : List Announced) (best : Best) (p : Announced)
    → IsIn p ps
    → contains p.prefix a ≡ true
    → bits_succ p.prefix ≤ (better a n ps best).1
unfolding better
better-IsIn a n [] best p i h = absurd i
better-IsIn a n (q ∷ ps) best p (inl e) h =
    ground (arith, better_grows a n ps best, better_grows a n ps (some n, bits_succ q.prefix))
better-IsIn a n (q ∷ ps) best p (inr i) h =
    ground
      (arith, better-IsIn a n ps best p i h, better-IsIn a n ps (some n, bits_succ q.prefix) p i h)

Kept-later :
    (a : Addr) (n : Node) (p : Announced) (ps : List Announced) (best b : Best)
    → Kept a n ps best b
    → Kept a n (p ∷ ps) best b
Kept-later a n p ps best b (inl e) = inl e
Kept-later a n p ps best b (inr (q, i, h, e)) = inr (q, inr i, h, e)

Kept-now :
    (a : Addr) (n : Node) (p : Announced) (ps : List Announced) (best b : Best)
    → contains p.prefix a ≡ true
    → Kept a n ps (some n, bits_succ p.prefix) b
    → Kept a n (p ∷ ps) best b
Kept-now a n p ps best b h (inl e) = inr (p, inl refl, h, e)
Kept-now a n p ps best b h (inr (q, i, g, e)) = inr (q, inr i, g, e)

better-Kept :
    (a : Addr) (n : Node) (ps : List Announced) (best : Best)
    → Kept a n ps best (better a n ps best)
unfolding better
better-Kept a n [] best = inl refl
better-Kept a n (p ∷ ps) best =
    elim (Bool-cases (contains p.prefix a && ltb best.1 (bits_succ p.prefix))) [
      | inl h ↦ rw (h) (
          Kept-now a n p ps best _ (ground arith) (better-Kept a n ps (some n, bits_succ p.prefix)))
      | inr h ↦ rw (h) (Kept-later a n p ps best _ (better-Kept a n ps best))
    ]

longest_grows : (a : Addr) (ns : List Node) (best : Best) → best.1 ≤ (longest a ns best).1
unfolding longest
longest_grows a [] best = ground arith
longest_grows a (n ∷ ns) best =
    ground
      (arith, better_grows a n n.prefixes best, longest_grows a ns (better a n n.prefixes best))

longest-IsIn :
    (a : Addr) (ns : List Node) (best : Best) (n : Node) (bits : ℕ)
    → IsIn n ns
    → Announces a bits n
    → bits ≤ (longest a ns best).1
unfolding longest
longest-IsIn a [] best n bits i h = absurd i
longest-IsIn a (m ∷ ns) best n bits (inl e) (p, i, c, same) =
    let here : bits_succ p.prefix ≤ (better a m m.prefixes best).1 =
      better-IsIn a m m.prefixes best p (subst (λ x. IsIn p x.prefixes) (sym e) i) c in
    ground (arith, longest_grows a ns (better a m m.prefixes best))
longest-IsIn a (m ∷ ns) best n bits (inr there) h =
    longest-IsIn a ns (better a m m.prefixes best) n bits there h

-- The outcome of going through the nodes.
abbrev Found : Addr → List Node → Best → Best → Type 0
Found a ns best b = (b ≡ best) ⊎ ((n : Node) × IsIn n ns × Announces a b.1 n × (b.0 ≡ some n))

Found-now :
    (a : Addr) (n : Node) (ns : List Node) (best mid b : Best)
    → Kept a n n.prefixes best mid
    → b ≡ mid
    → Found a (n ∷ ns) best b
Found-now a n ns best mid b (inl e) same = inl (same ∙ e)
Found-now a n ns best mid b (inr (p, i, c, e)) same =
    inr (n, inl refl, (p, i, c, sym (ap (λ x. x.1) (same ∙ e))), ap (λ x. x.0) (same ∙ e))

longest-Found : (a : Addr) (ns : List Node) (best : Best) → Found a ns best (longest a ns best)
unfolding longest
longest-Found a [] best = inl refl
longest-Found a (n ∷ ns) best = elim (longest-Found a ns (better a n n.prefixes best)) [
  | inl e ↦ Found-now a n ns best _ _ (better-Kept a n n.prefixes best) e
  | inr (m, i, h, e) ↦ inr (m, inr i, h, e)
]

by_overlay-some :
    (a : Addr) (ns : List Node) (n : Node)
    → by_overlay a ns ≡ some n
    → IsIn n ns × (n.overlay_ip ≡ a)
unfolding by_overlay
by_overlay-some a [] n h = absurd (ground arith)
by_overlay-some a (m ∷ ns) n h =
    ground (arith, by_overlay-some a ns n, same_addr_iff m.overlay_ip a)

-- How a node comes to own an address of a snapshot: its overlay address, or the longest network.
abbrev pub Owns : Snapshot → Addr → Node → Type 0
Owns s a n =
    (n.overlay_ip ≡ a)
    ⊎ ((bits : ℕ) × Announces a bits n
        × ((m : Node) (other : ℕ) → IsIn m (snapshot_nodes s) → Announces a other m → other ≤ bits))

longest-Owns :
    (s : Snapshot) (a : Addr) (n : Node)
    → (longest a (snapshot_nodes s) (none, 0)).0 ≡ some n
    → IsIn n (snapshot_nodes s) × Owns s a n
longest-Owns s a n h = elim (longest-Found a (snapshot_nodes s) (none, 0)) [
  | inl e ↦ absurd (ground arith)
  | inr (m, i, said, e) ↦
      let same : m ≡ n = ground arith in
      subst (λ x. IsIn x (snapshot_nodes s) × Owns s a x) same
        (i, inr (_, said, longest-IsIn a (snapshot_nodes s) (none, 0)))
]

-- The node that Owner returns is one of the snapshot, and either the address is its overlay address,
-- or it announces a network that contains the address, and no node of the snapshot announces a
-- longer one that does.
pub owner_of-Owns :
    (s : Snapshot) (a : Addr) (n : Node)
    → owner_of (some s) a ≡ some n
    → IsIn n (snapshot_nodes s) × Owns s a n
unfolding owner_of
owner_of-Owns s a n h = elim (Option-cases (by_overlay a (snapshot_nodes s))) [
  | inl e ↦ longest-Owns s a n (ground arith)
  | inr (m, e) ↦
      let (i, same) = by_overlay-some a (snapshot_nodes s) n (ground arith) in (i, inl same)
]

contains_bits : (p : Prefix) (a : Addr) → contains p a ≡ true → 0 < bits_succ p
unfolding contains
contains_bits Prefix.none a c = absurd (ground arith)
contains_bits (prefix b n) a c = ground arith

announced_bits : (a : Addr) (bits : ℕ) (n : Node) → Announces a bits n → 0 < bits
announced_bits a bits n (p, i, c, same) = subst (λ x. 0 < x) same (contains_bits p.prefix a c)

-- An address that lies in a network which some node of the snapshot announces has an owner.
pub owner_of-some :
    (s : Snapshot) (a : Addr) (m : Node) (bits : ℕ)
    → IsIn m (snapshot_nodes s)
    → Announces a bits m
    → (n : Node) × (owner_of (some s) a ≡ some n)
unfolding owner_of
owner_of-some s a m bits i h = elim (Option-cases (by_overlay a (snapshot_nodes s))) [
  | inl e ↦ elim (longest-Found a (snapshot_nodes s) (none, 0)) [
    | inl same ↦ absurd (
        ground (
          arith,
          announced_bits a bits m h,
          longest-IsIn a (snapshot_nodes s) (none, 0) m bits i h,
        ))
    | inr (n, j, said, same) ↦ (n, ground arith)
  ]
  | inr (n, e) ↦ (n, ground arith)
]
