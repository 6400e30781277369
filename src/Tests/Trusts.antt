-- ===== src/Tests/Trusts.antt =====
-- A chain of two admin key lists, and a book with a revocation.
use bound_gate_vpn.Prelude.{
  ◌≡◌, refl, true, some, inr, ◌⊎◌, arith, Bytes, same_bytes, [], ◌∷◌, ◌++◌, List, if◌then◌else◌,
}
use bound_gate_vpn.Prelude.Assoc.{lookup}
use bound_gate_vpn.Registry.{SignerLink}
use bound_gate_vpn.Binding.{SignerSet, Crypto}
use bound_gate_vpn.Binding.Sshsig.{
  armor_begin, armor_end, sshsig_magic, parse_sshsig, read_raw, read_blob, read_keys,
  parse_signature, checked_signature, verify_message, is_hash_alg, without_space,
}
use bound_gate_vpn.Binding.Signers.{
  Trust, signers_namespace, signer_set_type, hash_set, find_genesis, verify_chain, finish_chain,
  follow, behind_pin, step, allowed_keys, verify_link, check_signature, is_one_of, parse_signer_set,
  checked_set, is_valid_set, keys_ok, parse_key_string, read_key, checked_key, has_blank,
}
use bound_gate_vpn.Binding.Chain.{Chain, verify_chain-Chain}
use bound_gate_vpn.Binding.Statements.{
  Codec, kind_interactive, from_node, parse_statement, canonical_statement, is_valid_statement,
  normalize, compact, compact_from, sort_announced, put_announced, is_kind, matches_node,
}
use bound_gate_vpn.Binding.Nodes.{
  no_signature, namespace, Guard, Verified, verify_snapshot, verify_records, admit_self, sort_peers,
  sort_peer, admit, verify_node, verify_statement, verify, check_sshsig, contains_key,
  guard_statement, guarded, after_revocations, revoke_all, see_all,
}
use bound_gate_vpn.Binding.{PublicKey}
use bound_gate_vpn.Binding.Trusted.{IsTrusted, verify_snapshot-IsTrusted}
use bound_gate_vpn.Netip.{v4, Prefix, same_prefix}
use bound_gate_vpn.Prelude.{IsIn, none, inl}
use bound_gate_vpn.Registry.{Node, Snapshot, role_hub}
use bound_gate_vpn.Anchors.{Book, check, revoked_after, revoke, saw}
use bound_gate_vpn.Anchors.Revoked.{Unique, Later, now, seen, check-Later}

abbrev kind : Bytes
kind = b'k' ∷ []

abbrev first_key : Bytes
first_key = b'k' ∷ b' ' ∷ b'x' ∷ []

abbrev second_key : Bytes
second_key = b'k' ∷ b' ' ∷ b'y' ∷ []

abbrev four : Bytes
four = b'a' ∷ b'a' ∷ b'a' ∷ b'a' ∷ []

abbrev sixteen : Bytes
sixteen = four ++ (four ++ (four ++ four))

abbrev hash_text : Bytes
hash_text = sixteen ++ (sixteen ++ (sixteen ++ sixteen))

abbrev genesis_set : SignerSet
genesis_set = record { type = signer_set_type; version = 1; prev = []; keys = first_key ∷ [] }

abbrev second_set : SignerSet
second_set = record {
  type = signer_set_type;
  version = 2;
  prev = hash_text;
  keys = first_key ∷ second_key ∷ [];
}

-- Libraries with one signature, which the first key has made.
abbrev one_signature : Crypto
one_signature = record {
  base64_encode = λ s. s;
  base64_decode = λ s. some s;
  parse_public_key = λ raw. some (record { key_type = kind; marshal = raw });
  unmarshal_blob = λ raw. some (record {
    version = 1;
    public_key = b'x' ∷ [];
    namespace = signers_namespace;
    reserved = [];
    hash_alg = b's' ∷ b'h' ∷ b'a' ∷ b'2' ∷ b'5' ∷ b'6' ∷ [];
    signature = [];
  });
  unmarshal_signature = λ raw. some (record { format = kind; blob = 1 ∷ []; rest = [] });
  marshal_signed = λ namespace alg h. [];
  sum = λ alg message. [];
  hex_sum = λ raw. hash_text;
  verify_key = λ k message sig. true;
  allowed_key_types = kind ∷ [];
  decode_set = λ raw. some (if same_bytes raw (1 ∷ []) then genesis_set else second_set);
  encode_set = λ s. s.version ∷ [];
}

abbrev armored : Bytes
armored = armor_begin ++ (sshsig_magic ++ armor_end)

abbrev two_sets : List SignerLink
two_sets =
    record { set = 1 ∷ []; signature = [] } ∷ record { set = 2 ∷ []; signature = armored } ∷ []

abbrev pinned_trust : Trust
pinned_trust = record { version = 1; hash = hash_text; keys = first_key ∷ []; genesis = hash_text }

abbrev next_trust : Trust
next_trust = record pinned_trust { version = 2; keys = first_key ∷ second_key ∷ [] }

two_sets-verified : verify_chain one_signature pinned_trust two_sets [] ≡ inr next_trust
unfolding verify_chain finish_chain follow behind_pin step allowed_keys verify_link check_signature
    is_one_of parse_signer_set checked_set is_valid_set keys_ok parse_key_string read_key
    checked_key has_blank parse_sshsig read_raw read_blob read_keys parse_signature
    checked_signature verify_message is_hash_alg without_space
two_sets-verified = refl

verify_chain-Chain_example :
    ((two_sets ≡ []) × (next_trust ≡ pinned_trust))
    ⊎ ((before : List SignerLink) × (l : SignerLink) × (rest : List SignerLink) × (u : Trust)
        × (two_sets ≡ before ++ l ∷ rest)
        × (hash_set one_signature l.set ≡ pinned_trust.hash)
        × Chain one_signature pinned_trust rest u
        × (next_trust ≡ find_genesis one_signature two_sets u))
verify_chain-Chain_example =
    verify_chain-Chain one_signature pinned_trust two_sets [] next_trust refl two_sets-verified

abbrev node_id : Bytes
node_id = b'n' ∷ []

abbrev known : Book
known = (node_id, record { issued = 5; revoked = 0 }) ∷ []

known-Unique : Unique known
unfolding lookup
known-Unique = (refl, tt)

abbrev afterwards : Book
afterwards = (saw node_id 30 (revoke node_id 20 known).0).0

afterwards-Later : Later (revoke node_id 20 known).0 afterwards
afterwards-Later = seen (revoke node_id 20 known).0 afterwards node_id 30 (now afterwards)

check-Later_example : check node_id 20 afterwards ≡ some revoked_after
check-Later_example =
    check-Later node_id 20 20 known afterwards known-Unique (omega arith) (omega arith)
      afterwards-Later

-- A peer with a binding, and one without.
abbrev signed_peer : Node
signed_peer = record {
  id = node_id;
  name = [];
  spki = 7 ∷ [];
  platform = [];
  key_kind = [];
  hardware_bound = true;
  kind = kind_interactive;
  roles = role_hub ∷ [];
  overlay_ip = v4 0x0a090002;
  prefixes = [];
  public_addr = [];
  tags = [];
  approved_at = 0;
  key_version = 1;
  binding = 1 ∷ [];
  signature = armored;
  signed_by = [];
}

abbrev unsigned_peer : Node
unsigned_peer = record signed_peer { id = b'm' ∷ []; spki = 8 ∷ []; binding = [] }

abbrev two_peers : Snapshot
two_peers = record {
  version = 1;
  generated_at = 0;
  max_age_seconds = 60;
  self = record unsigned_peer { id = [] };
  peers = unsigned_peer ∷ signed_peer ∷ [];
  sessions = [];
  policies = [];
  lists = [];
  pool = Prefix.none;
  signer_chain = [];
  revocations = [];
}

abbrev statement_codec : Codec
statement_codec = record {
  decode_statement = λ raw. some (from_node signed_peer);
  encode_statement = λ b. 1 ∷ [];
  decode_revocation = λ raw. none;
  encode_revocation = λ r. [];
  texts = record {
    parse_addr = λ s. none;
    parse_prefix = λ s. none;
    addr_text = λ a. [];
    prefix_text = λ p. [];
  };
}

-- The same libraries, with signatures of bindings.
abbrev binding_signature : Crypto
binding_signature = record one_signature {
  unmarshal_blob = λ raw. some (record {
    version = 1;
    public_key = b'x' ∷ [];
    namespace = namespace;
    reserved = [];
    hash_alg = b's' ∷ b'h' ∷ b'a' ∷ b'2' ∷ b'5' ∷ b'6' ∷ [];
    signature = [];
  });
}

abbrev admin : PublicKey
admin = record { key_type = kind; marshal = b'x' ∷ [] }

abbrev guard : Guard
guard = record { deployment = hash_text; book = [] }

abbrev one_peer : Verified
one_peer = record {
  rejected = record { id = b'm' ∷ []; name = some []; err = no_signature } ∷ [];
  snapshot = record two_peers { peers = signed_peer ∷ [] };
  guard = some guard;
}

two_peers-verified :
    verify_snapshot binding_signature statement_codec (admin ∷ []) two_peers (some guard)
    ≡ inr one_peer
unfolding verify_snapshot verify_records admit_self sort_peers sort_peer admit verify_node
    verify_statement verify check_sshsig contains_key guard_statement guarded revoke_all see_all
    parse_statement canonical_statement is_valid_statement normalize compact compact_from
    sort_announced put_announced is_kind matches_node check saw parse_sshsig read_raw read_blob
    read_keys parse_signature checked_signature verify_message is_hash_alg without_space is_one_of
    lookup same_prefix
two_peers-verified = refl

verify_snapshot-IsTrusted_example :
    IsIn signed_peer two_peers.peers
    × IsTrusted binding_signature statement_codec
        (admin ∷ [])
        (after_revocations binding_signature statement_codec
          (admin ∷ [])
          (some guard)
          two_peers.revocations).1
        signed_peer
verify_snapshot-IsTrusted_example =
    verify_snapshot-IsTrusted binding_signature statement_codec (admin ∷ []) two_peers (some guard)
      one_peer signed_peer two_peers-verified (inl refl)
