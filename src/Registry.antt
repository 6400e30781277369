-- ===== src/Registry.antt =====
-- internal/registry/registry.go: a node's view of the overlay. Strings are byte strings, a time is
-- a number of nanoseconds, an SPKI hash is a byte string (all zero when unset).
pub mod Lookup
pub mod Pool
pub mod Entries
pub mod Changes
pub mod Validate
pub mod Valid
pub mod Unique
use bound_gate_vpn.Prelude.{
  ℕ, zero, suc, ◌+◌, ◌-◌, ◌*◌, ◌%◌, ◌^◌, Bool, true, false, not, ◌&&◌, ◌||◌, Option, none, some,
  ltb, leb, ◌==◌, if◌then◌else◌, Bytes, bytes_eq, Eq, ◌=?◌, List, [], ◌∷◌, ◌++◌, length,
}
use bound_gate_vpn.Netip.{Addr, v4, Prefix, prefix, bits_succ, contains}

-- Prefix: one announced network of a node.
pub record Announced : Type 0 where
  pub prefix : Prefix
  pub mode : Bytes

pub record Node : Type 0 where
  pub id : Bytes
  pub name : Bytes
  pub spki : Bytes
  pub platform : Bytes
  pub key_kind : Bytes
  pub hardware_bound : Bool
  pub kind : Bytes
  pub roles : List Bytes
  pub overlay_ip : Addr
  pub prefixes : List Announced
  pub public_addr : Bytes
  pub tags : List Bytes
  pub approved_at : ℕ
  pub key_version : ℕ
  pub binding : Bytes
  pub signature : Bytes
  pub signed_by : Bytes

pub record Session : Type 0 where
  pub id : Bytes
  pub node_id : Bytes
  pub subject : Bytes
  pub email : Bytes
  pub username : Bytes
  pub groups : List Bytes
  pub expires_at : ℕ

-- A text as the bytes of its ASCII characters.
abbrev pub role_hub : Bytes
role_hub = b'h' ∷ b'u' ∷ b'b' ∷ []

-- HasRole
unfoldable pub has_role : List Bytes → Bytes → Bool
has_role [] r = false
has_role (x ∷ xs) r = x =? r || has_role xs r

-- IsHub
unfoldable pub is_hub : Node → Bool
is_hub n = has_role n.roles role_hub && not (length n.public_addr == 0)

-- Policy
pub record Policy : Type 0 where
  pub id : Bytes
  pub name : Bytes
  pub cedar : Bytes

-- List: a named set that policies refer to.
pub record NamedList : Type 0 where
  pub name : Bytes
  pub kind : Bytes
  pub entries : List Bytes

pub record SignedRevocation : Type 0 where
  pub revocation : Bytes
  pub signature : Bytes

pub record SignerLink : Type 0 where
  pub set : Bytes
  pub signature : Bytes

-- PrefixList
unfoldable pub prefix_list : List Announced → List Prefix
prefix_list [] = []
prefix_list (p ∷ ps) = p.prefix ∷ prefix_list ps

-- ModeRouted and ModeSNAT
abbrev pub mode_routed : Bytes
mode_routed = b'r' ∷ b'o' ∷ b'u' ∷ b't' ∷ b'e' ∷ b'd' ∷ []

abbrev pub mode_snat : Bytes
mode_snat = b's' ∷ b'n' ∷ b'a' ∷ b't' ∷ []

abbrev pub is_ipv4 : Prefix → Bool
is_ipv4 (prefix (v4 a) n) = true
is_ipv4 _ = false

-- Prefix.Validate: true for no error
unfoldable pub is_valid_prefix : Announced → Bool
is_valid_prefix p = is_ipv4 p.prefix && (p.mode =? mode_routed || p.mode =? mode_snat)

-- privateRanges
abbrev pub private_ranges : List Prefix
private_ranges =
    prefix (v4 0x0a000000) 8
    ∷ prefix (v4 0xac100000) 12
    ∷ prefix (v4 0xc0a80000) 16
    ∷ prefix (v4 0x64400000) 10
    ∷ []

-- The loop of PrivatePool
unfoldable pub in_ranges : Addr → ℕ → List Prefix → Bool
in_ranges a bits [] = false
in_ranges a bits (r ∷ rs) = leb (bits_succ r) (bits + 1) && contains r a || in_ranges a bits rs

-- PrivatePool
unfoldable pub private_pool : Prefix → Bool
private_pool (prefix (v4 a) n) = not (ltb n 8) && in_ranges (v4 a) n private_ranges
private_pool _ = false

-- Snapshot; its indexes are computed from its lists.
pub record Snapshot : Type 0 where
  pub version : ℕ
  pub generated_at : ℕ
  pub max_age_seconds : ℕ
  pub self : Node
  pub peers : List Node
  pub sessions : List Session
  pub policies : List Policy
  pub lists : List NamedList
  pub pool : Prefix
  pub signer_chain : List SignerLink
  pub revocations : List SignedRevocation

-- bySPKI and byID, as Index fills them: a later record replaces an earlier one of its key.
unfoldable pub last_node : (Node → Bool) → List Node → Option Node
last_node p [] = none
last_node p (n ∷ ns) = elim (last_node p ns) [
  | none ↦ if p n then some n else none
  | some m ↦ some m
]

unfoldable pub last_session : Bytes → List Session → Option Session
last_session id [] = none
last_session id (s ∷ ss) = elim (last_session id ss) [
  | none ↦ if s.node_id =? id then some s else none
  | some t ↦ some t
]

-- Snapshot.LookupSPKI, with the peer that it is about; a nil snapshot admits nobody.
unfoldable pub lookup_spki : Option Snapshot → Bytes → Option Node
lookup_spki none h = none
lookup_spki (some s) h = last_node (λ n. n.spki =? h) s.peers

-- Peer
unfoldable pub peer : Option Snapshot → Bytes → Option Node
peer none id = none
peer (some s) id = last_node (λ n. n.id =? id) s.peers

-- Hubs
unfoldable pub hubs : List Node → List Node
hubs [] = []
hubs (n ∷ ns) = let rest = hubs ns in if is_hub n then n ∷ rest else rest

-- SessionFor
unfoldable pub session_for : Option Snapshot → Bytes → ℕ → Option Session
session_for none id now = none
session_for (some s) id now = elim (last_session id s.sessions) [
  | none ↦ none
  | some t ↦ if ltb now t.expires_at then some t else none
]

-- 24 * time.Hour
abbrev pub default_max_age : ℕ
default_max_age = 86_400 * 1_000_000_000

-- time.Duration, nanoseconds in an int64: at least 0, or `neg m` for -m.
pub data Duration : Type 0 where
  pos : ℕ → Duration
  neg : ℕ → Duration

-- A product as an int64
abbrev pub as_int64 : ℕ → Duration
as_int64 n = let v = n % 2 ^ 64 in if ltb v (2 ^ 63) then pos v else neg (2 ^ 64 - v)

-- MaxAge; a number of seconds below 0 is 0 here.
unfoldable pub max_age : Snapshot → Duration
max_age s =
    if s.max_age_seconds == 0
    then pos default_max_age
    else as_int64 (s.max_age_seconds * 1_000_000_000)

-- now.Sub(fetched) > d
abbrev pub is_older : ℕ → ℕ → Duration → Bool
is_older now fetched (pos d) = ltb (fetched + d) now
is_older now fetched (neg m) = ltb fetched (now + m)

-- The current snapshot, and when the control plane last confirmed it.
pub record Holder : Type 0 where
  pub snapshot : Option Snapshot
  pub fetched : ℕ

-- Holder.Store without the diff, Touch, Clear
abbrev pub store : Snapshot → ℕ → Holder → Holder
store s now h = record { snapshot = some s; fetched = now }

abbrev pub touch : ℕ → Holder → Holder
touch now h = record h { fetched = now }

abbrev pub clear : Holder → Holder
clear h = record h { snapshot = none }

-- Stale
unfoldable pub is_stale : Holder → ℕ → Bool
is_stale h now = elim h.snapshot [ none ↦ true | some s ↦ is_older now h.fetched (max_age s) ]

-- Holder.LookupSPKI
unfoldable pub holder_lookup : Holder → Bytes → ℕ → Option Node
holder_lookup h k now = if is_stale h now then none else lookup_spki h.snapshot k
