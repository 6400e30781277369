-- ===== src/Tests/Policies.antt =====
-- A snapshot with one peer, one policy and two lists.
use bound_gate_vpn.Prelude.{
  ◌⊎◌, ℕ, ◌≡◌, refl, true, none, some, inl, inr, arith, Bytes, [], ◌∷◌, IsIn, All, ◌↔◌, ◌≢◌,
}
use bound_gate_vpn.Netip.{same_prefix, v4, prefix, contains, masked}
use bound_gate_vpn.Registry.{
  Node, Session, Snapshot, NamedList, mode_routed, peer, lookup_spki, last_node, session_for,
  private_pool, in_ranges, is_valid_prefix,
}
use bound_gate_vpn.Registry.Entries.{
  Texts, AddrEntry, entry, parse_addr_entry, prefix_entry, matches, last_of, parse_range,
  parse_ports, port_pair, split_ports, read_parts,
}
use bound_gate_vpn.Registry.Entries.Range.{AddrsOk, PortsOk, matches-prefix_entry}
use bound_gate_vpn.Registry.Entries.Parsing.{parse_addr_entry-ok}
use bound_gate_vpn.Registry.Changes.{is_seen, same_node, same_policy_attrs}
use bound_gate_vpn.Registry.Validate.{
  validate, check_nodes, check_node, check_prefixes, overlaps, checked_nodes,
}
use bound_gate_vpn.Registry.Valid.{NodeOk, AllDiffer, validate-ok}
use bound_gate_vpn.Acl.Word
use bound_gate_vpn.Acl.Entities.{node_entity, node_uid, user_uid}
use bound_gate_vpn.Acl.Lists.{
  Request, add_entries, add_entry, add_name, add_by, compile_list, has_name, has, CompiledList,
  plain_name,
}
use bound_gate_vpn.Acl.Base.{snapshot_nodes}
use bound_gate_vpn.Acl.Engine.{
  Library, new, add_policies, add_policy, add_statements, add_statement,
}
use bound_gate_vpn.Acl.Evaluate.{
  evaluate, evaluate_once, finish, decide_node, ask, principal_of, owner_of, by_overlay, longest,
  better, by_name, layered, top_of,
}
use bound_gate_vpn.Acl.Owners.{Owns, owner_of-Owns}
use bound_gate_vpn.Acl.Overlay.{owner_of-peer}
use bound_gate_vpn.Acl.Attributes.{node_entity-same}
use bound_gate_vpn.Acl.Names.{NamesOnly, Holds, has_name-compile_list}
use bound_gate_vpn.Acl.Decisions.{Permits, evaluate-Permits}
use bound_gate_vpn.Acl.Principals.{layered-top_of, subject_of, user_of}
use bound_gate_vpn.Acl.ServerNames.{has-Reached}
use bound_gate_vpn.Prelude.Text.{to_lower}

abbrev router : Node
router = record {
  id = b'n' ∷ [];
  name = b'r' ∷ [];
  spki = 7 ∷ [];
  platform = [];
  key_kind = [];
  hardware_bound = true;
  kind = [];
  roles = [];
  overlay_ip = v4 0x0a090002;
  prefixes = record { prefix = prefix (v4 0xc0a80700) 24; mode = mode_routed } ∷ [];
  public_addr = [];
  tags = (b't' ∷ []) ∷ [];
  approved_at = 0;
  key_version = 1;
  binding = [];
  signature = [];
  signed_by = [];
}

abbrev gateway : Node
gateway = record router { id = b'h' ∷ []; spki = 8 ∷ []; overlay_ip = v4 0x0a090001; prefixes = [] }

abbrev session : Session
session = record {
  id = b'i' ∷ [];
  node_id = b'n' ∷ [];
  subject = b's' ∷ [];
  email = [];
  username = [];
  groups = (b'g' ∷ []) ∷ [];
  expires_at = 100;
}

abbrev names : NamedList
names = record {
  name = b'l' ∷ [];
  kind = Word.sni;
  entries = (b'*' ∷ b'.' ∷ b'B' ∷ b'c' ∷ []) ∷ [];
}

abbrev moving : NamedList
moving = record names { kind = Word.dynamic }

abbrev overlay : Snapshot
overlay = record {
  version = 1;
  generated_at = 0;
  max_age_seconds = 60;
  self = gateway;
  peers = router ∷ [];
  sessions = session ∷ [];
  policies = record { id = b'p' ∷ []; name = b'q' ∷ []; cedar = 1 ∷ [] } ∷ [];
  lists = names ∷ moving ∷ [];
  pool = prefix (v4 0x0a090000) 16;
  signer_chain = [];
  revocations = [];
}

abbrev no_texts : Texts
no_texts = record {
  parse_addr = λ s. some (v4 0x0a000001);
  parse_prefix = λ s. none;
  addr_text = λ a. [];
  prefix_text = λ p. [];
}

-- A library that permits whatever it is asked.
abbrev library : Library ℕ
library = record {
  parse_list = λ name text. some (0 ∷ []);
  is_permit = λ s. true;
  marshal = λ s. [];
  authorize = λ set get q. record { allow = true; reasons = (b'p' ∷ []) ∷ []; errors = [] };
  reads_sni = λ text. true;
  texts = no_texts;
}

abbrev request : Request
request = record {
  principal = b'n' ∷ [];
  dst = v4 0xc0a80705;
  port = 443;
  proto = 6;
  sni = [];
  dns_name = [];
  resolved = [];
}

overlay-valid : validate overlay ≡ none
unfolding validate check_nodes check_node check_prefixes overlaps is_seen private_pool in_ranges
    contains is_valid_prefix
overlay-valid = refl

validate-ok_example :
    (private_pool overlay.pool ≡ true)
    × All (NodeOk overlay.pool) (checked_nodes overlay)
    × AllDiffer (checked_nodes overlay)
validate-ok_example = validate-ok overlay overlay-valid

owner_of-peer_example :
    (lookup_spki (some overlay) router.spki ≡ some router)
    × (peer (some overlay) router.id ≡ some router)
    × (owner_of (some overlay) router.overlay_ip ≡ some router)
owner_of-peer_example = owner_of-peer overlay router overlay-valid (inl refl)

router-owns : owner_of (some overlay) (v4 0xc0a80705) ≡ some router
unfolding owner_of by_overlay longest better contains
router-owns = refl

owner_of-Owns_example : IsIn router (snapshot_nodes overlay) × Owns overlay (v4 0xc0a80705) router
owner_of-Owns_example = owner_of-Owns overlay (v4 0xc0a80705) router router-owns

request-allowed : (evaluate library (new library (some overlay)) request 20).allow ≡ true
unfolding evaluate finish evaluate_once new principal_of peer last_node decide_node ask add_policies
    add_policy add_statements add_statement
request-allowed = refl

engine-snap : (new library (some overlay)).snap ≡ some overlay
unfolding new
engine-snap = refl

evaluate-Permits_example :
    (n : Node) × IsIn n (snapshot_nodes overlay)
    × (n.id ≡ b'n' ∷ [])
    × Permits library (new library (some overlay)) request n (session_for (some overlay) n.id 20)
evaluate-Permits_example =
    evaluate-Permits library (new library (some overlay)) overlay request 20 engine-snap
      request-allowed

abbrev stranger : Request
stranger = record request { principal = b'x' ∷ [] }

-- A name that only the client vouches for, for an address of the router's network.
abbrev claimed : Bytes
claimed = b'a' ∷ b'.' ∷ b'b' ∷ b'c' ∷ []

network-contains : contains (prefix (v4 0xc0a80700) 24) (v4 0xc0a80705) ≡ true
unfolding contains
network-contains = refl

abbrev moving_list : CompiledList
moving_list = compile_list no_texts moving

moving-dynamic : moving_list.kind ≡ Word.dynamic
unfolding compile_list add_entries add_entry add_name add_by parse_addr_entry read_parts split_ports
    parse_range
moving-dynamic = refl

has-Reached_example :
    let internal = (new library (some overlay)).internal in
    has moving_list
      (record request { sni = claimed })
      (by_name internal (record request { sni = claimed }))
    ≡ has moving_list request (by_name internal request)
has-Reached_example = has-Reached library overlay moving_list request claimed moving-dynamic (
    inr (
      router,
      inr (inl refl),
      (λ h. ground arith),
      record { prefix = prefix (v4 0xc0a80700) 24; mode = mode_routed },
      inl refl,
      omega arith,
      network-contains,
    ))

names-NamesOnly : NamesOnly names.kind
names-NamesOnly = ((λ h. ground arith), (λ h. ground arith))

has_name-compile_list_example : (has_name (compile_list no_texts names) claimed ≡ true) ↔ (
    (claimed ≢ []) × (e : Bytes) × IsIn e names.entries × Holds (to_lower e) (plain_name claimed))
has_name-compile_list_example = has_name-compile_list no_texts names claimed names-NamesOnly

layered-top_of_example :
    let e = new library (some overlay) in
    (layered (top_of library e request router (some session)) e.base (node_uid router.id)
      ≡ some (node_entity router (some session)))
    × ((subject_of (some session) ≡ [])
        ⊎ (layered
              (top_of library e request router (some session))
              e.base
              (user_uid (subject_of (some session)))
            ≡ user_of (some session)))
layered-top_of_example =
    layered-top_of library (new library (some overlay)) request router (some session)

-- The same record, signed again.
abbrev signed_again : Node
signed_again = record router { signature = 1 ∷ []; signed_by = 2 ∷ [] }

signed_again-node : same_node router signed_again ≡ true
unfolding same_node same_prefix
signed_again-node = refl

signed_again-attrs : same_policy_attrs router signed_again ≡ true
unfolding same_policy_attrs
signed_again-attrs = refl

node_entity-same_example : node_entity router none ≡ node_entity signed_again none
node_entity-same_example =
    node_entity-same router signed_again none signed_again-node signed_again-attrs

abbrev network_range : AddrEntry
network_range = record { lo = v4 0xc0a80700; hi = v4 0xc0a807ff; port = 0; port_to = 0 }

network-entry : prefix_entry (prefix (v4 0xc0a80705) 24) ≡ some network_range
unfolding prefix_entry masked last_of
network-entry = refl

matches-prefix_entry_example :
    matches network_range (v4 0xc0a807ff) 443 ≡ contains (prefix (v4 0xc0a80705) 24) (v4 0xc0a807ff)
matches-prefix_entry_example =
    matches-prefix_entry (prefix (v4 0xc0a80705) 24) network_range (v4 0xc0a807ff) 443 network-entry
      refl

abbrev two_ports : AddrEntry
two_ports = record { lo = v4 0x0a000001; hi = v4 0x0a000001; port = 80; port_to = 81 }

abbrev two_ports_text : Bytes
two_ports_text = b'h' ∷ b':' ∷ b'8' ∷ b'0' ∷ b'-' ∷ b'8' ∷ b'1' ∷ []

two_ports-parsed : parse_addr_entry no_texts two_ports_text ≡ entry two_ports
unfolding parse_addr_entry read_parts split_ports parse_range parse_ports port_pair
two_ports-parsed = refl

parse_addr_entry-ok_example : AddrsOk two_ports × PortsOk two_ports
parse_addr_entry-ok_example = parse_addr_entry-ok no_texts two_ports_text two_ports two_ports-parsed
