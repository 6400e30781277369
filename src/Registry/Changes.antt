-- ===== src/Registry/Changes.antt =====
-- diff, sameNode, samePolicyAttrs and Validate.
use bound_gate_vpn.Prelude.{
  Bool, true, false, not, ◌&&◌, ◌||◌, Option, none, some, ltb, ◌==◌, if◌then◌else◌, Bytes, bytes_eq,
  same_bytes, Eq, ◌=?◌, List, [], ◌∷◌, ◌++◌, length, is_some, map,
}
use bound_gate_vpn.Netip.{same_addr, addr_eq, none, same_prefix}
use bound_gate_vpn.Registry.{Announced, Node, Policy, NamedList, Snapshot, peer, last_session, hubs}

abbrev pub same_list : {A : Type 0} → (A → A → Bool) → List A → List A → Bool
same_list same [] [] = true
same_list same (x ∷ xs) (y ∷ ys) = same x y && same_list same xs ys
same_list same _ _ = false

abbrev pub same_texts : List Bytes → List Bytes → Bool
same_texts xs ys = same_list same_bytes xs ys

abbrev pub same_truth : Bool → Bool → Bool
same_truth true b = b
same_truth false b = not b

abbrev pub same_announced : Announced → Announced → Bool
same_announced p q = same_prefix p.prefix q.prefix && same_bytes p.mode q.mode

-- sameNode
unfoldable pub same_node : Node → Node → Bool
same_node a b =
    same_bytes a.id b.id
    && same_bytes a.spki b.spki
    && a.key_version == b.key_version
    && same_bytes a.kind b.kind
    && same_addr a.overlay_ip b.overlay_ip
    && same_bytes a.public_addr b.public_addr
    && same_truth a.hardware_bound b.hardware_bound
    && same_texts a.roles b.roles
    && same_list same_announced a.prefixes b.prefixes

-- samePolicyAttrs
unfoldable pub same_policy_attrs : Node → Node → Bool
same_policy_attrs a b =
    same_texts a.tags b.tags
    && same_bytes a.name b.name
    && same_bytes a.platform b.platform
    && same_bytes a.key_kind b.key_kind

abbrev pub same_policy : Policy → Policy → Bool
same_policy p q = same_bytes p.id q.id && same_bytes p.name q.name && same_bytes p.cedar q.cedar

abbrev pub same_named_list : NamedList → NamedList → Bool
same_named_list a b =
    same_bytes a.name b.name && same_bytes a.kind b.kind && same_texts a.entries b.entries

-- Diff
pub record Diff : Type 0 where
  pub added_peers : List Bytes
  pub removed_peers : List Bytes
  pub removed_sessions : List Bytes
  pub hubs_changed : Bool
  pub self_changed : Bool
  pub policies_changed : Bool
  pub pool_changed : Bool
  pub sessions_changed : Bool

-- The keys of byID and of sessBy, each once.
unfoldable pub is_seen : {A : Type 0} → ⦃e : Eq A⦄ → A → List A → Bool
is_seen x [] = false
is_seen x (y ∷ ys) = y =? x || is_seen x ys

unfoldable pub distinct : List Bytes → List Bytes
distinct [] = []
distinct (x ∷ xs) = let rest = distinct xs in if is_seen x rest then rest else x ∷ rest

abbrev pub peer_ids : Snapshot → List Bytes
peer_ids s = distinct (map (λ n. n.id) s.peers)

abbrev pub session_ids : Snapshot → List Bytes
session_ids s = distinct (map (λ se. se.node_id) s.sessions)

-- What has become of a peer's record.
pub data Change : Type 0 where
  kept added replaced attributes : Change

unfoldable pub change_of : Option Node → Node → Change
change_of none n = added
change_of (some o) n =
    if not (same_node o n)
    then replaced
    else if not (same_policy_attrs o n)
    then attributes
    else kept

-- The three outcomes for the IDs of one snapshot: gone, added, and attributes that policies read.
unfoldable pub gone : Snapshot → List Bytes → List Bytes
gone cur [] = []
gone cur (id ∷ ids) =
    let rest = gone cur ids in if is_some (peer (some cur) id) then rest else id ∷ rest

abbrev pub change_at : Snapshot → Snapshot → Bytes → Change
change_at old cur id = elim (peer (some cur) id) [
  | none ↦ kept
  | some n ↦ change_of (peer (some old) id) n
]

abbrev pub is_replaced : Change → Bool
is_replaced replaced = true
is_replaced _ = false

abbrev pub is_added : Change → Bool
is_added added = true
is_added replaced = true
is_added _ = false

abbrev pub is_attributes : Change → Bool
is_attributes attributes = true
is_attributes _ = false

unfoldable pub ids_where : (Bytes → Bool) → List Bytes → List Bytes
ids_where p [] = []
ids_where p (id ∷ ids) = let rest = ids_where p ids in if p id then id ∷ rest else rest

unfoldable pub any_id : (Bytes → Bool) → List Bytes → Bool
any_id p [] = false
any_id p (id ∷ ids) = p id || any_id p ids

-- The session of a node is gone or another one.
unfoldable pub session_lost : Snapshot → Snapshot → Bytes → Bool
session_lost old cur id = elim (last_session id old.sessions) [
  | none ↦ false
  | some se ↦ elim (last_session id cur.sessions) [
    | none ↦ true
    | some cs ↦ not (same_bytes cs.id se.id)
  ]
]

unfoldable pub session_new : Snapshot → Snapshot → Bytes → Bool
session_new old cur id = elim (last_session id cur.sessions) [
  | none ↦ false
  | some se ↦ elim (last_session id old.sessions) [
    | none ↦ true
    | some os ↦ not (same_bytes os.id se.id) || not (os.expires_at == se.expires_at)
  ]
]

abbrev pub first_diff : Snapshot → Diff
first_diff cur = record {
  added_peers = map (λ n. n.id) cur.peers;
  removed_peers = [];
  removed_sessions = [];
  hubs_changed = true;
  self_changed = true;
  policies_changed = true;
  pool_changed = true;
  sessions_changed = ltb 0 (length cur.sessions);
}

abbrev pub diff_of : Snapshot → Snapshot → Diff
diff_of old cur = record {
  added_peers = ids_where (λ id. is_added (change_at old cur id)) (peer_ids cur);
  removed_peers =
      gone cur (peer_ids old)
      ++ ids_where (λ id. is_replaced (change_at old cur id)) (peer_ids cur);
  removed_sessions = ids_where (session_lost old cur) (session_ids old);
  hubs_changed = not (same_list same_node (hubs old.peers) (hubs cur.peers));
  self_changed = not (same_node old.self cur.self);
  policies_changed =
      any_id (λ id. is_attributes (change_at old cur id)) (peer_ids cur)
      || not (same_policy_attrs old.self cur.self)
      || not (same_list same_policy old.policies cur.policies)
      || not (same_list same_named_list old.lists cur.lists);
  pool_changed = not (same_prefix old.pool cur.pool);
  sessions_changed =
      any_id (session_lost old cur) (session_ids old)
      || any_id (session_new old cur) (session_ids cur);
}

-- diff
unfoldable pub diff : Option Snapshot → Snapshot → Diff
diff none cur = first_diff cur
diff (some old) cur = diff_of old cur
