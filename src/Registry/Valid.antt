-- ===== src/Registry/Valid.antt =====
-- What a snapshot that passes Validate satisfies.
use bound_gate_vpn.Prelude.{
  ◌≡◌, ◌≢◌, ◌<◌, refl, arith, Bool, true, false, not, ◌&&◌, ◌||◌, Option, Option-cases, none, some,
  inl, inr, ltb, if◌then◌else◌, Bytes, bytes_eq, Eq, List, [], ◌∷◌, length, All, ◌==◌,
}
use bound_gate_vpn.Netip.{is_valid, addr_eq, Prefix, contains, bits_succ}
use bound_gate_vpn.Registry.{Announced, Node, Snapshot, is_valid_prefix, is_ipv4, private_pool}
use bound_gate_vpn.Registry.Changes.{is_seen}
use bound_gate_vpn.Registry.Validate.{
  overlaps, Issue, Seen, nothing_seen, see, check_prefixes, check_node, check_nodes, checked_nodes,
  validate, is_zero,
}

-- A network that a node may announce: a default route, or one outside the pool.
abbrev pub Apart : Prefix → Announced → Type 0
Apart pool p =
    (is_valid_prefix p ≡ true) × (1 < bits_succ p.prefix → overlaps p.prefix pool ≡ false)

-- A node of a valid snapshot.
abbrev pub NodeOk : Prefix → Node → Type 0
NodeOk pool n =
    (n.id ≢ [])
    × (is_zero n.spki ≡ false)
    × (contains pool n.overlay_ip ≡ true)
    × All (Apart pool) n.prefixes

-- Two nodes that share nothing that names a node.
abbrev pub Differ : Node → Node → Type 0
Differ n m = (m.spki ≢ n.spki) × (m.overlay_ip ≢ n.overlay_ip) × (m.id ≢ n.id)

abbrev pub AllDiffer : List Node → Type 0
AllDiffer [] = Unit
AllDiffer (n ∷ ns) = All (Differ n) ns × AllDiffer ns

abbrev Fresh : Seen → Node → Type 0
Fresh seen n =
    (is_seen n.spki seen.keys ≡ false)
    × (is_seen n.overlay_ip seen.addrs ≡ false)
    × (is_seen n.id seen.ids ≡ false)

set_id : (s : Bytes) → (length s == 0) ≡ false → s ≢ []
set_id [] h e = ground arith
set_id (c ∷ s) h e = ground arith

-- A test that Validate gets past.
passed :
    (t : Bool) (e : Issue) (o : Option Issue)
    → (if t then some e else o) ≡ none
    → (t ≡ false) × (o ≡ none)
passed true e o h = absurd (ground arith)
passed false e o h = (refl, h)

check_prefixes-Apart :
    (pool : Prefix) (ps : List Announced) → check_prefixes pool ps ≡ none → All (Apart pool) ps
unfolding check_prefixes
check_prefixes-Apart pool [] h = tt
check_prefixes-Apart pool (p ∷ ps) h =
    let (good, h1) = passed (not (is_valid_prefix p)) _ _ h in
    let (apart, h2) = passed (ltb 1 (bits_succ p.prefix) && overlaps p.prefix pool) _ _ h1 in
    ((ground arith, λ b. ground arith), check_prefixes-Apart pool ps h2)

check_node-NodeOk :
    (pool : Prefix) (seen : Seen) (n : Node)
    → check_node pool seen n ≡ none
    → NodeOk pool n × Fresh seen n
unfolding check_node
check_node-NodeOk pool seen n h =
    let (named, h1) = passed (length n.id == 0 || is_zero n.spki) _ _ h in
    let (inside, h2) =
      passed (not (is_valid n.overlay_ip) || not (contains pool n.overlay_ip)) _ _ h1 in
    let (key, h3) = passed (is_seen n.spki seen.keys) _ _ h2 in
    let (addr, h4) = passed (is_seen n.overlay_ip seen.addrs) _ _ h3 in
    let (id, h5) = passed (is_seen n.id seen.ids) _ _ h4 in
    (
      (
        set_id n.id (ground arith),
        ground arith,
        ground arith,
        check_prefixes-Apart pool n.prefixes h5,
      ),
      (key, addr, id),
    )

not_seen :
    {A : Type 0} ⦃e : Eq A⦄ (x y : A) (ys : List A)
    → is_seen x (y ∷ ys) ≡ false
    → (x ≢ y) × (is_seen x ys ≡ false)
unfolding is_seen
not_seen ⦃e⦄ x y ys h = (λ same. ground (arith, e.beq_iff y x, same), ground arith)

-- What has been seen before a node is seen still leaves the later ones fresh.
Fresh-later : (seen : Seen) (n m : Node) → Fresh (see n seen) m → Differ n m × Fresh seen m
Fresh-later seen n m (key, addr, id) =
    let (k, ks) = not_seen m.spki n.spki seen.keys key in
    let (a, others) = not_seen m.overlay_ip n.overlay_ip seen.addrs addr in
    let (i, ids) = not_seen m.id n.id seen.ids id in ((k, a, i), (ks, others, ids))

All-later :
    (seen : Seen) (n : Node) (ns : List Node)
    → All (Fresh (see n seen)) ns
    → All (Differ n) ns × All (Fresh seen) ns
All-later seen n [] h = (tt, tt)
All-later seen n (m ∷ ns) (f, fs) =
    let (d, g) = Fresh-later seen n m f in
    let (ds, gs) = All-later seen n ns fs in ((d, ds), (g, gs))

check_nodes-ok :
    (pool : Prefix) (seen : Seen) (ns : List Node)
    → check_nodes pool seen ns ≡ none
    → All (NodeOk pool) ns × AllDiffer ns × All (Fresh seen) ns
unfolding check_nodes
check_nodes-ok pool seen [] h = (tt, tt, tt)
check_nodes-ok pool seen (n ∷ ns) h = elim (Option-cases (check_node pool seen n)) [
  | inr (e, bad) ↦ absurd (ground arith)
  | inl good ↦
      let (ok, fresh) = check_node-NodeOk pool seen n good in
      let (oks, differ, later) = check_nodes-ok pool (see n seen) ns (ground arith) in
      let (ds, fs) = All-later seen n ns later in ((ok, oks), (ds, differ), (fresh, fs))
]

-- A snapshot that passes Validate: its pool is private, each of its nodes has an ID and a key, an
-- overlay address inside the pool and no announced network that overlaps the pool but a default
-- route, and no two of them share a key, an overlay address or an ID. Its own record counts as a
-- node when it has an ID.
pub validate-ok :
    (s : Snapshot)
    → validate s ≡ none
    → (private_pool s.pool ≡ true)
      × All (NodeOk s.pool) (checked_nodes s)
      × AllDiffer (checked_nodes s)
unfolding validate
validate-ok s h =
    let (valid, h1) = passed (not (is_ipv4 s.pool)) _ _ h in
    let (private, h2) = passed (not (private_pool s.pool)) _ _ h1 in
    let (ok, differ, fresh) = check_nodes-ok s.pool nothing_seen (checked_nodes s) h2 in
    (ground arith, ok, differ)
