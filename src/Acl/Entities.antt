-- ===== src/Acl/Entities.antt =====
-- Entities, as types.Entity of cedar-go holds them, and those of nodes and users. The values that
-- occur are texts, truth values, numbers, addresses and sets of texts.
use bound_gate_vpn.Prelude.{
  ℕ, ◌≡◌, ◌↔◌, Bool, true, false, ◌&&◌, arith, Option, none, some, ◌==◌, if◌then◌else◌, List, [],
  ◌∷◌, ◌++◌, map, Bytes, same_bytes, same_bytes_iff, Eq,
}
use bound_gate_vpn.Prelude.Text.{itoa}
use bound_gate_vpn.Netip.{Addr, is_valid, bit_len, Prefix, prefix}
use bound_gate_vpn.Registry.{Node, Session}
use bound_gate_vpn.Acl.Word

pub data EntityType : Type 0 where
  type_node type_user type_group type_role type_tag type_host type_network type_list type_action :
      EntityType

abbrev pub type_number : EntityType → ℕ
type_number type_node = 0
type_number type_user = 1
type_number type_group = 2
type_number type_role = 3
type_number type_tag = 4
type_number type_host = 5
type_number type_network = 6
type_number type_list = 7
type_number type_action = 8

-- types.EntityUID
pub record Uid : Type 0 where
  pub type : EntityType
  pub id : Bytes

abbrev pub same_type : EntityType → EntityType → Bool
same_type s t = type_number s == type_number t

pub same_type_iff : (s t : EntityType) → (same_type s t ≡ true) ↔ (s ≡ t)
same_type_iff s t = ground arith

abbrev pub same_uid : Uid → Uid → Bool
same_uid u v = same_type u.type v.type && same_bytes u.id v.id

pub same_uid_iff : (u v : Uid) → (same_uid u v ≡ true) ↔ (u ≡ v)
same_uid_iff u v = ground (arith, same_type_iff u.type v.type, same_bytes_iff u.id v.id)

instance abbrev pub uid_eq : Eq Uid
uid_eq = record { beq = same_uid; beq_iff = same_uid_iff }

abbrev pub uid_of : EntityType → Bytes → Uid
uid_of t id = record { type = t; id = id }

pub data Value : Type 0 where
  text : Bytes → Value
  truth : Bool → Value
  long : ℕ → Value
  ip_addr : Prefix → Value
  texts : List Bytes → Value

abbrev pub Attributes : Type 0
Attributes = List (Bytes × Value)

-- types.Entity
pub record Entity : Type 0 where
  pub uid : Uid
  pub parents : List Uid
  pub attributes : Attributes

-- nodeUID, userUID, actionUID
abbrev pub node_uid : Bytes → Uid
node_uid id = uid_of type_node id

abbrev pub user_uid : Bytes → Uid
user_uid subject = uid_of type_user subject

abbrev pub action_uid : Uid
action_uid = uid_of type_action Word.connect

abbrev pub is_signed_in : Option Session → Bool
is_signed_in none = false
is_signed_in (some se) = true

abbrev pub user_parent : Option Session → List Uid
user_parent none = []
user_parent (some se) = user_uid se.subject ∷ []

abbrev pub overlay_attribute : Addr → Attributes
overlay_attribute a =
    if is_valid a then (Word.overlay_ip, ip_addr (prefix a (bit_len a))) ∷ [] else []

-- nodeEntity
unfoldable pub node_entity : Node → Option Session → Entity
node_entity n se = record {
  uid = node_uid n.id;
  parents = map (uid_of type_role) n.roles ++ (user_parent se ++ map (uid_of type_tag) n.tags);
  attributes =
      (Word.tags, texts n.tags)
      ∷ (Word.name, text n.name)
      ∷ (Word.kind, text n.kind)
      ∷ (Word.roles, texts n.roles)
      ∷ (Word.hardware_bound, truth n.hardware_bound)
      ∷ (Word.platform, text n.platform)
      ∷ (Word.key_kind, text n.key_kind)
      ∷ (Word.has_session, truth (is_signed_in se))
      ∷ overlay_attribute n.overlay_ip;
}

-- What a user's record says of a session.
abbrev pub user_attributes : Session → Attributes
user_attributes se =
    (Word.subject, text se.subject)
    ∷ (Word.email, text se.email)
    ∷ (Word.username, text se.username)
    ∷ (Word.groups, texts se.groups)
    ∷ []

-- userEntity
unfoldable pub user_entity : Session → Entity
user_entity se = record {
  uid = user_uid se.subject;
  parents = map (uid_of type_group) se.groups;
  attributes = user_attributes se;
}

-- ProtoName
unfoldable pub proto_name : ℕ → Bytes
proto_name p =
    if p == 6
    then b't' ∷ b'c' ∷ b'p' ∷ []
    else if p == 17
    then b'u' ∷ b'd' ∷ b'p' ∷ []
    else if p == 1
    then b'i' ∷ b'c' ∷ b'm' ∷ b'p' ∷ []
    else if p == 58
    then b'i' ∷ b'c' ∷ b'm' ∷ b'p' ∷ b'v' ∷ b'6' ∷ []
    else itoa p
