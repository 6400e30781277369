-- ===== src/Binding/Statements.antt =====
-- internal/binding/binding.go and revocation.go: the statements that administrators sign, and their
-- canonical forms. encoding/json is a parameter; numbers that are negative, which Validate refuses,
-- are no values here.
use bound_gate_vpn.Prelude.{
  ℕ, Bool, not, ◌&&◌, ◌||◌, Option, none, some, ◌==◌, if◌then◌else◌, List, [], ◌∷◌, length, all_of,
  map, Bytes, bytes_eq, same_bytes,
}
use bound_gate_vpn.Prelude.Text.{text_less, sort_texts}
use bound_gate_vpn.Netip.{Addr, same_addr, masked}
use bound_gate_vpn.Registry.{Announced, Node, is_valid_prefix, role_hub}
use bound_gate_vpn.Registry.Entries.{Texts, is_4}
use bound_gate_vpn.Registry.Changes.{same_texts, same_list, same_announced, same_truth}
use bound_gate_vpn.Registry.Validate.{is_zero}
use bound_gate_vpn.Binding.Signers.{is_hash, is_one_of}

-- Binding
pub record Statement : Type 0 where
  pub node_id : Bytes
  pub spki : Bytes
  pub key_version : ℕ
  pub kind : Bytes
  pub roles : List Bytes
  pub prefixes : List Announced
  pub overlay_ip : Addr
  pub hardware_bound : Bool
  pub tags : List Bytes
  pub deployment : Bytes
  pub issued : ℕ

-- Revocation
pub record Revocation : Type 0 where
  pub type : Bytes
  pub node_id : Bytes
  pub spki : Bytes
  pub deployment : Bytes
  pub issued : ℕ

-- encoding/json of both, and net/netip's texts
pub record Codec : Type 0 where
  pub decode_statement : Bytes → Option Statement
  pub encode_statement : Statement → Bytes
  pub decode_revocation : Bytes → Option Revocation
  pub encode_revocation : Revocation → Bytes
  pub texts : Texts

abbrev pub kind_interactive : Bytes
kind_interactive = b'i' ∷ b'n' ∷ b't' ∷ b'e' ∷ b'r' ∷ b'a' ∷ b'c' ∷ b't' ∷ b'i' ∷ b'v' ∷ b'e' ∷ []

abbrev pub kind_workload : Bytes
kind_workload = b'w' ∷ b'o' ∷ b'r' ∷ b'k' ∷ b'l' ∷ b'o' ∷ b'a' ∷ b'd' ∷ []

-- AllRoles
abbrev pub all_roles : List Bytes
all_roles =
    (b'e' ∷ b'n' ∷ b'd' ∷ b'p' ∷ b'o' ∷ b'i' ∷ b'n' ∷ b't' ∷ [])
    ∷ (b's' ∷ b'u' ∷ b'b' ∷ b'n' ∷ b'e' ∷ b't' ∷ b'-' ∷ b'r' ∷ b'o' ∷ b'u' ∷ b't' ∷ b'e' ∷ b'r'
        ∷ [])
    ∷ role_hub
    ∷ (b'e' ∷ b'x' ∷ b'i' ∷ b't' ∷ b'-' ∷ b'n' ∷ b'o' ∷ b'd' ∷ b'e' ∷ [])
    ∷ []

-- ParseKind: true for no error
unfoldable pub is_kind : Bytes → Bool
is_kind s = length s == 0 || same_bytes s kind_interactive || same_bytes s kind_workload

-- ParseRoles: true for no error
abbrev pub are_roles : List Bytes → Bool
are_roles names = all_of (λ n. is_one_of n all_roles) names

-- slices.Compact and slices.CompactFunc, behind an element
unfoldable pub compact_from : {A : Type 0} → (A → A → Bool) → A → List A → List A
compact_from same x [] = []
compact_from same x (y ∷ ys) =
    let dropped = compact_from same x ys in
    let kept = compact_from same y ys in if same x y then dropped else y ∷ kept

unfoldable pub compact : {A : Type 0} → (A → A → Bool) → List A → List A
compact same [] = []
compact same (x ∷ xs) = x ∷ compact_from same x xs

abbrev pub normal_texts : List Bytes → List Bytes
normal_texts ts = compact same_bytes (sort_texts ts)

abbrev pub mask_announced : Announced → Announced
mask_announced p = record { prefix = masked p.prefix; mode = p.mode }

-- FromNode
abbrev pub from_node : Node → Statement
from_node n = record {
  node_id = n.id;
  spki = n.spki;
  key_version = n.key_version;
  kind = n.kind;
  roles = n.roles;
  prefixes = n.prefixes;
  overlay_ip = n.overlay_ip;
  hardware_bound = n.hardware_bound;
  tags = n.tags;
  deployment = [];
  issued = 0;
}

-- The order of the prefixes: by text, then by mode.
abbrev pub announced_less : Texts → Announced → Announced → Bool
announced_less texts p q =
    text_less (texts.prefix_text p.prefix) (texts.prefix_text q.prefix)
    || same_bytes (texts.prefix_text p.prefix) (texts.prefix_text q.prefix)
      && text_less p.mode q.mode

unfoldable pub put_announced : Texts → Announced → List Announced → List Announced
put_announced texts p [] = p ∷ []
put_announced texts p (q ∷ qs) =
    let rest = put_announced texts p qs in if announced_less texts q p then q ∷ rest else p ∷ q ∷ qs

unfoldable pub sort_announced : Texts → List Announced → List Announced
sort_announced texts [] = []
sort_announced texts (p ∷ ps) = put_announced texts p (sort_announced texts ps)

-- Normalize
unfoldable pub normalize : Texts → Statement → Statement
normalize texts b = record b {
  roles = normal_texts b.roles;
  prefixes = compact same_announced (sort_announced texts (map mask_announced b.prefixes));
  kind = if length b.kind == 0 then kind_interactive else b.kind;
  tags = normal_texts b.tags;
}

-- Binding.Validate: true for no error
unfoldable pub is_valid_statement : Statement → Bool
is_valid_statement b =
    not (length b.node_id == 0)
    && not (is_zero b.spki)
    && not (b.key_version == 0)
    && is_kind b.kind
    && not (length b.roles == 0)
    && are_roles b.roles
    && all_of is_valid_prefix b.prefixes
    && is_4 b.overlay_ip
    && (length b.deployment == 0 || is_hash b.deployment)

-- Matches: true for no error
unfoldable pub matches_node : Texts → Statement → Node → Bool
matches_node texts statement n =
    let b = normalize texts statement in
    let want = normalize texts (from_node n) in
    same_bytes b.node_id want.node_id
    && same_bytes b.spki want.spki
    && b.key_version == want.key_version
    && same_bytes b.kind want.kind
    && same_texts b.roles want.roles
    && same_list same_announced b.prefixes want.prefixes
    && same_truth b.hardware_bound want.hardware_bound
    && same_texts b.tags want.tags
    && same_addr b.overlay_ip want.overlay_ip

abbrev pub revocation_type : Bytes
revocation_type =
    (b'b' ∷ b'o' ∷ b'u' ∷ b'n' ∷ b'd' ∷ b'g' ∷ b'a' ∷ b't' ∷ b'e' ∷ b'-' ∷ b'r' ∷ b'e' ∷ b'v' ∷ b'o'
      ∷ b'c' ∷ b'a' ∷ b't' ∷ b'i' ∷ b'o' ∷ b'n' ∷ [])

-- Revocation.Validate: true for no error
unfoldable pub is_valid_revocation : Revocation → Bool
is_valid_revocation r =
    same_bytes r.type revocation_type
    && not (length r.node_id == 0)
    && not (is_zero r.spki)
    && (length r.deployment == 0 || is_hash r.deployment)
    && not (r.issued == 0)

module _ (codec : Codec) where
  unfoldable pub canonical_statement : Bytes → Statement → Option Statement
  canonical_statement raw b =
      if is_valid_statement (normalize codec.texts b)
        && same_bytes (codec.encode_statement (normalize codec.texts b)) raw
      then some b
      else none

  -- Parse
  unfoldable pub parse_statement : Bytes → Option Statement
  parse_statement raw = elim (codec.decode_statement raw) [
    | none ↦ none
    | some b ↦ canonical_statement raw b
  ]

  unfoldable pub canonical_revocation : Bytes → Revocation → Option Revocation
  canonical_revocation raw r =
      if is_valid_revocation r && same_bytes (codec.encode_revocation r) raw then some r else none

  -- ParseRevocation
  unfoldable pub parse_revocation : Bytes → Option Revocation
  parse_revocation raw = elim (codec.decode_revocation raw) [
    | none ↦ none
    | some r ↦ canonical_revocation raw r
  ]
