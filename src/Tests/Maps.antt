-- ===== src/Tests/Maps.antt =====
-- A snapshot with one peer, a forwarding table and a map of learned names.
use bound_gate_vpn.Prelude.{
  ℕ, ◌-◌, ◌≡◌, ◌≢◌, ◌≤◌, ◌<◌, ◌↔◌, refl, inl, inr, true, false, none, some, arith, Bytes, [], ◌∷◌,
  IsIn, All, nat_eq,
}
use bound_gate_vpn.Prelude.Assoc.{lookup}
use bound_gate_vpn.Netip.{Addr, v4, Prefix, prefix, contains, bits_succ, masked, addr_eq}
use bound_gate_vpn.Registry.{
  Node, Session, Snapshot, Holder, holder_lookup, lookup_spki, last_node, is_stale, max_age,
}
use bound_gate_vpn.Registry.Lookup.{grace_period, holder_lookup-eq-some, holder_lookup-peer}
use bound_gate_vpn.Forward.{
  PrefixEntry, Table, lookup_writer, lookup_prefix, first_match, floor_of, attach_prefix,
  detach_prefix,
}
use bound_gate_vpn.Forward.Order.{
  IsSorted, size, Serves, Announces, attach_prefix-IsSorted, detach_prefix-Serves,
}
use bound_gate_vpn.Forward.Longest.{lookup_writer-IsLongest, lookup_writer-none}
use bound_gate_vpn.Dnsmap.{new_map, learn, names}
use bound_gate_vpn.Dnsmap.Bounds.{Bounded, new_map-Bounded, learn-Bounded}
use bound_gate_vpn.Dnsmap.Peers.{Unique, names-learn}

abbrev key : Bytes
key = 1 ∷ 2 ∷ 3 ∷ []

abbrev node : Node
node = record {
  id = b'n' ∷ [];
  name = [];
  spki = key;
  platform = [];
  key_kind = [];
  hardware_bound = true;
  kind = [];
  roles = [];
  overlay_ip = v4 0x0a000001;
  prefixes = [];
  public_addr = [];
  tags = [];
  approved_at = 0;
  key_version = 1;
  binding = [];
  signature = [];
  signed_by = [];
}

abbrev session : Session
session = record {
  id = b's' ∷ [];
  node_id = b'n' ∷ [];
  subject = [];
  email = [];
  username = [];
  groups = [];
  expires_at = 100;
}

abbrev snapshot : Snapshot
snapshot = record {
  version = 1;
  generated_at = 0;
  policies = [];
  lists = [];
  signer_chain = [];
  revocations = [];
  max_age_seconds = 60;
  self = node;
  peers = node ∷ [];
  sessions = session ∷ [];
  pool = Prefix.none;
}

abbrev holder : Holder
holder = record { snapshot = some snapshot; fetched = 5 }

holder-admits : holder_lookup holder key 20 ≡ some node
unfolding holder_lookup lookup_spki last_node is_stale max_age
holder-admits = refl

holder_lookup-eq-some_example :
    (s : Snapshot) × (holder.snapshot ≡ some s)
    × (20 - holder.fetched ≤ grace_period s)
    × IsIn node s.peers
    × (node.spki ≡ key)
holder_lookup-eq-some_example = holder_lookup-eq-some holder key 20 node holder-admits

holder_lookup-peer_example :
    (m : Node) × (holder_lookup holder node.spki 20 ≡ some m) × (m.spki ≡ node.spki)
holder_lookup-peer_example =
    holder_lookup-peer holder snapshot 20 node refl (omega arith) (omega arith) (inl refl)

-- An exit node announces everything, a subnet router 192.168.0.0/16; the pool is 10.0.0.0/8 and the
-- node itself has 172.16.0.0/12.
abbrev routes : Table ℕ
routes = record {
  hosts = [];
  prefixes =
      record { prefix = prefix (v4 0xc0a80000) 16; pw = 1 }
      ∷ record { prefix = prefix (v4 0) 0; pw = 2 }
      ∷ [];
  pool = prefix (v4 0x0a000000) 8;
  own = prefix (v4 0xac100000) 12 ∷ [];
}

routes-IsSorted : IsSorted routes.prefixes
routes-IsSorted = ((omega arith, tt), (tt, tt))

no_owner : (a : Addr) → lookup a routes.hosts ≡ none
unfolding lookup
no_owner a = refl

printer-routed : lookup_writer (v4 0xc0a80102) routes ≡ some 1
unfolding lookup_writer lookup_prefix first_match floor_of lookup contains
printer-routed = refl

lookup_writer-IsLongest_example :
    (contains routes.pool (v4 0xc0a80102) ≡ false)
    × (e : PrefixEntry ℕ) × IsIn e routes.prefixes
    × (e.pw ≡ 1)
    × (contains e.prefix (v4 0xc0a80102) ≡ true)
    × All (λ o. contains o (v4 0xc0a80102) ≡ true → bits_succ o < size e) routes.own
    × All (λ f. contains f.prefix (v4 0xc0a80102) ≡ true → size f ≤ size e) routes.prefixes
lookup_writer-IsLongest_example =
    lookup_writer-IsLongest (v4 0xc0a80102) routes 1 routes-IsSorted (no_owner (v4 0xc0a80102))
      printer-routed

own-unrouted : lookup_writer (v4 0xac100203) routes ≡ none
unfolding lookup_writer lookup_prefix first_match floor_of lookup contains
own-unrouted = refl

own-outside : contains routes.pool (v4 0xac100203) ≡ false
unfolding contains
own-outside = refl

exit-contains : contains (prefix (v4 0) 0) (v4 0xac100203) ≡ true
unfolding contains
exit-contains = refl

lookup_writer-none_example :
    (o : Prefix) × IsIn o routes.own × (contains o (v4 0xac100203) ≡ true) × (1 ≤ bits_succ o)
lookup_writer-none_example =
    lookup_writer-none (v4 0xac100203) routes routes-IsSorted (no_owner (v4 0xac100203)) own-outside
      own-unrouted (record { prefix = prefix (v4 0) 0; pw = 2 }) (inr (inl refl)) exit-contains

attach_prefix-IsSorted_example :
    IsSorted (attach_prefix (prefix (v4 0x08000000) 24) 3 routes).prefixes
    × IsSorted (detach_prefix (prefix (v4 0x08000000) 24) 3 routes).0.prefixes
attach_prefix-IsSorted_example =
    attach_prefix-IsSorted (prefix (v4 0x08000000) 24) 3 routes routes-IsSorted

detach_prefix-Serves_example :
    let p = prefix (v4 0) 0 in
    let r = detach_prefix p 2 routes in
    ((f : PrefixEntry ℕ)
      → IsIn f r.0.prefixes ↔ (IsIn f routes.prefixes × (¬ Announces (masked p) 2 f)))
    × ((r.1 ≡ true) ↔ Serves (masked p) r.0.prefixes)
    × (r.0.hosts ≡ routes.hosts)
    × (r.0.pool ≡ routes.pool)
    × (r.0.own ≡ routes.own)
detach_prefix-Serves_example = detach_prefix-Serves (prefix (v4 0) 0) 2 routes

abbrev phone : Bytes
phone = b'p' ∷ []

abbrev laptop : Bytes
laptop = b'l' ∷ []

learn-Bounded_example : Bounded (learn phone (b'x' ∷ []) (v4 7 ∷ []) 0 5 (new_map 100))
learn-Bounded_example =
    learn-Bounded phone (b'x' ∷ []) (v4 7 ∷ []) 0 5 (new_map 100) (new_map-Bounded 100)

new_map-Unique : Unique (new_map 100).m
unfolding new_map
new_map-Unique = tt

others : laptop ≢ phone
others = λ same. ground (arith, same)

names-learn_example :
    Unique (learn phone (b'x' ∷ []) (v4 7 ∷ []) 0 5 (new_map 100)).m
    × (names laptop (v4 7) 9 (learn phone (b'x' ∷ []) (v4 7 ∷ []) 0 5 (new_map 100))
        ≡ names laptop (v4 7) 9 (new_map 100))
names-learn_example =
    names-learn phone laptop (b'x' ∷ []) (v4 7 ∷ []) (v4 7) 0 5 9 (new_map 100) new_map-Unique
      others (omega arith)
