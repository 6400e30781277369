-- ===== src/Registry/Validate.antt =====
-- Snapshot.Validate
use bound_gate_vpn.Prelude.{
  min, Bool, false, not, ◌&&◌, ◌||◌, Option, none, some, ltb, ◌==◌, if◌then◌else◌, Bytes, bytes_eq,
  List, [], ◌∷◌, length, all_of,
}
use bound_gate_vpn.Netip.{
  Addr, v4, v6, is_valid, addr_eq, Prefix, prefix, bits_succ, contains, high_bits,
}
use bound_gate_vpn.Registry.{Announced, Node, Snapshot, is_valid_prefix, is_ipv4, private_pool}
use bound_gate_vpn.Registry.Changes.{is_seen}

-- netip's Overlaps, of addresses in their ranges
unfoldable pub overlaps : Prefix → Prefix → Bool
overlaps (prefix (v4 a) m) (prefix (v4 b) n) = high_bits 32 (min m n) a == high_bits 32 (min m n) b
overlaps (prefix (v6 a) m) (prefix (v6 b) n) =
    high_bits 128 (min m n) a == high_bits 128 (min m n) b
overlaps _ _ = false

-- The errors of Validate, in the order of its tests.
pub data Issue : Type 0 where
  bad_pool public_pool no_identity not_inside : Issue
  duplicate_key duplicate_addr duplicate_id bad_prefix overlaps_pool : Issue

-- seenKey, seenIP and seenID
pub record Seen : Type 0 where
  pub keys : List Bytes
  pub addrs : List Addr
  pub ids : List Bytes

abbrev pub nothing_seen : Seen
nothing_seen = record { keys = []; addrs = []; ids = [] }

abbrev pub see : Node → Seen → Seen
see n seen = record {
  keys = n.spki ∷ seen.keys;
  addrs = n.overlay_ip ∷ seen.addrs;
  ids = n.id ∷ seen.ids;
}

-- SPKIHash.IsZero
abbrev pub is_zero : Bytes → Bool
is_zero k = all_of (λ b. b == 0) k

unfoldable pub check_prefixes : Prefix → List Announced → Option Issue
check_prefixes pool [] = none
check_prefixes pool (p ∷ ps) =
    let rest = check_prefixes pool ps in
    if not (is_valid_prefix p)
    then some bad_prefix
    else if ltb 1 (bits_succ p.prefix) && overlaps p.prefix pool
    then some overlaps_pool
    else rest

-- check
unfoldable pub check_node : Prefix → Seen → Node → Option Issue
check_node pool seen n =
    let prefixes = check_prefixes pool n.prefixes in
    if length n.id == 0 || is_zero n.spki
    then some no_identity
    else if not (is_valid n.overlay_ip) || not (contains pool n.overlay_ip)
    then some not_inside
    else if is_seen n.spki seen.keys
    then some duplicate_key
    else if is_seen n.overlay_ip seen.addrs
    then some duplicate_addr
    else if is_seen n.id seen.ids
    then some duplicate_id
    else prefixes

unfoldable pub check_nodes : Prefix → Seen → List Node → Option Issue
check_nodes pool seen [] = none
check_nodes pool seen (n ∷ ns) =
    let rest = check_nodes pool (see n seen) ns in
    elim (check_node pool seen n) [ some e ↦ some e | none ↦ rest ]

-- The nodes that Validate checks.
abbrev pub checked_nodes : Snapshot → List Node
checked_nodes s = if length s.self.id == 0 then s.peers else s.self ∷ s.peers

-- Validate
unfoldable pub validate : Snapshot → Option Issue
validate s =
    if not (is_ipv4 s.pool)
    then some bad_pool
    else if not (private_pool s.pool)
    then some public_pool
    else check_nodes s.pool nothing_seen (checked_nodes s)
