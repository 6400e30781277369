-- ===== src/Acl/Evaluate.antt =====
-- Owner, sniFallback, evaluate and Evaluate.
use bound_gate_vpn.Prelude.{
  ℕ, Bool, true, false, not, ◌&&◌, ◌||◌, Option, none, some, ltb, ◌==◌, if◌then◌else◌, List, [],
  ◌∷◌, ◌++◌, length, map, Bytes, bytes_eq, same_bytes, is_some,
}
use bound_gate_vpn.Prelude.Assoc.{lookup, insert}
use bound_gate_vpn.Prelude.Text.{sort_texts}
use bound_gate_vpn.Netip.{Addr, v4, same_addr, unmap, bit_len, Prefix, prefix, contains, bits_succ}
use bound_gate_vpn.Netip.Kinds.{is_global_unicast, is_private}
use bound_gate_vpn.Registry.{Node, Session, Snapshot, Announced, peer, session_for}
use bound_gate_vpn.Acl.Word
use bound_gate_vpn.Acl.Entities.{
  Uid, uid_eq, uid_of, type_host, truth, text, texts, long, ip_addr, Entity, Attributes, node_uid,
  user_uid, action_uid, node_entity, user_entity, user_attributes, proto_name,
}
use bound_gate_vpn.Acl.Lists.{Request, CompiledList, has, in_prefixes}
use bound_gate_vpn.Acl.Base.{EntityMap, Network, snapshot_nodes}
use bound_gate_vpn.Acl.Engine.{Query, Answer, Library, Engine}

-- The first loop of Owner.
unfoldable pub by_overlay : Addr → List Node → Option Node
by_overlay a [] = none
by_overlay a (n ∷ ns) =
    if not (length n.id == 0) && same_addr n.overlay_ip a then some n else by_overlay a ns

-- The best node so far and `bits`, one more than in the source, which starts at -1.
abbrev pub Best : Type 0
Best = Option Node × ℕ

unfoldable pub better : Addr → Node → List Announced → Best → Best
better a n [] best = best
better a n (p ∷ ps) best = better a n ps (
    if contains p.prefix a && ltb best.1 (bits_succ p.prefix)
    then (some n, bits_succ p.prefix)
    else best)

-- The second loop of Owner.
unfoldable pub longest : Addr → List Node → Best → Best
longest a [] best = best
longest a (n ∷ ns) best = longest a ns (better a n n.prefixes best)

-- Owner
unfoldable pub owner_of : Option Snapshot → Addr → Option Node
owner_of none a = none
owner_of (some s) a = elim (by_overlay a (snapshot_nodes s)) [
  | some n ↦ some n
  | none ↦ (longest a (snapshot_nodes s) (none, 0)).0
]

-- nonPublicV4
abbrev pub non_public_v4 : List Prefix
non_public_v4 =
    prefix (v4 0x64400000) 10
    ∷ prefix (v4 0xc0000000) 24
    ∷ prefix (v4 0xc6120000) 15
    ∷ prefix (v4 0xf0000000) 4
    ∷ []

-- publicV4
abbrev pub public_v4 : Addr → Bool
public_v4 a = not (in_prefixes a non_public_v4)

-- sniFallback
unfoldable pub sni_fallback : List Prefix → Addr → Bool
sni_fallback internal dst =
    is_global_unicast (unmap dst)
    && not (is_private (unmap dst))
    && public_v4 (unmap dst)
    && not (in_prefixes (unmap dst) internal)

-- evaluate's own sniFallback
abbrev pub by_name : List Prefix → Request → Bool
by_name internal r = not (length r.sni == 0) && sni_fallback internal r.dst

-- Decision
pub record Decision : Type 0 where
  pub allow : Bool
  pub policies : List Bytes
  pub reasons : List Bytes
  pub errors : List Bytes
  pub session : Option Session
  pub owner : Option Node
  pub permit_by_sni : Bool
  pub sign_in_would_permit : Bool
  pub known : Bool

abbrev pub denied : Decision
denied = record {
  allow = false;
  policies = [];
  reasons = [];
  errors = [];
  session = none;
  owner = none;
  permit_by_sni = false;
  sign_in_would_permit = false;
  known = false;
}

-- The node that evaluate finds for the principal.
unfoldable pub principal_of : Snapshot → Bytes → Option Node
principal_of s id =
    if same_bytes id s.self.id && not (length id == 0) then some s.self else peer (some s) id

-- A session of which nothing is known but the node.
abbrev pub assumed_session : Bytes → Session
assumed_session id = record {
  id = [];
  node_id = id;
  subject = [];
  email = [];
  username = [];
  groups = [];
  expires_at = 0;
}

-- `se`: the node's own session, else the assumed one when `assume` says so.
abbrev pub effective_session : Option Session → Bool → Bytes → Option Session
effective_session (some se) assume id = some se
effective_session none assume id = if assume then some (assumed_session id) else none

unfoldable pub network_parents : Addr → List Network → List Uid
network_parents a [] = []
network_parents a (n ∷ ns) =
    let rest = network_parents a ns in if contains n.prefix a then n.uid ∷ rest else rest

abbrev pub owner_parent : Option Node → List Uid
owner_parent none = []
owner_parent (some n) = node_uid n.id ∷ []

unfoldable pub list_parents : Request → Bool → List CompiledList → List Uid
list_parents r fallback [] = []
list_parents r fallback (c ∷ cs) =
    let rest = list_parents r fallback cs in if has c r fallback then c.uid ∷ rest else rest

abbrev pub when_set : Bytes → Bytes → Attributes
when_set word [] = []
when_set word (c ∷ value) = (word, text (c ∷ value)) ∷ []

abbrev pub when_resolved : List Bytes → Attributes
when_resolved [] = []
when_resolved (n ∷ ns) = (Word.resolved_names, texts (n ∷ ns)) ∷ []

-- The attributes that the host and the context share.
abbrev pub seen_names : Request → Attributes
seen_names r =
    when_set Word.sni r.sni ++ (when_set Word.dns_name r.dns_name ++ when_resolved r.resolved)

abbrev pub host_attributes : Request → Attributes
host_attributes r =
    (Word.ip, ip_addr (prefix r.dst (bit_len r.dst)))
    ∷ (Word.port, long r.port)
    ∷ (Word.protocol, text (proto_name r.proto))
    ∷ seen_names r

abbrev pub context_of : Request → Bool → Attributes
context_of r signed_in =
    (Word.protocol, text (proto_name r.proto))
    ∷ (Word.port, long r.port)
    ∷ (Word.has_session, truth signed_in)
    ∷ seen_names r

abbrev pub user_of : Option Session → Option Attributes
user_of none = none
user_of (some se) = some (user_attributes se)

-- The user's entity, on top of the node's.
unfoldable pub top_user : Option Session → EntityMap → EntityMap
top_user none m = m
top_user (some se) m =
    if length se.subject == 0 then m else insert (user_uid se.subject) (user_entity se) m

-- layered.Get
unfoldable pub layered : EntityMap → EntityMap → Uid → Option Entity
layered top base uid = elim (lookup uid top) [ some e ↦ some e | none ↦ lookup uid base ]

abbrev pub name_of : List (Bytes × Bytes) → Bytes → Bytes
name_of names id = elim (lookup id names) [ none ↦ [] | some n ↦ n ]

-- Sprintf("%s: %s")
abbrev pub error_text : List (Bytes × Bytes) → Bytes × Bytes → Bytes
error_text names e = name_of names e.0 ++ (b':' ∷ b' ' ∷ e.1)

-- The two tests of Evaluate: whether the request may wait for a name, the decision, and what the
-- second evaluation allows.
unfoldable pub finish : Bool → Decision → Bool → Decision
finish waits d other = record d {
  permit_by_sni = not d.allow && waits;
  sign_in_would_permit = (not d.allow && not (is_some d.session) && d.known) && other;
}

module _ {S : Type 0} (lib : Library S) where
  abbrev pub host_uid : Request → Uid
  host_uid r = uid_of type_host (lib.texts.addr_text r.dst)

  abbrev pub host_entity : Engine S → Request → Entity
  host_entity e r = record {
    uid = host_uid r;
    parents =
        network_parents r.dst e.networks
        ++ (owner_parent (owner_of e.snap r.dst) ++ list_parents r (by_name e.internal r) e.lists);
    attributes = host_attributes r;
  }

  -- The entities of one request: the host, the principal's user and the principal.
  abbrev pub top_of : Engine S → Request → Node → Option Session → EntityMap
  top_of e r n se =
      insert (host_uid r) (host_entity e r)
        (top_user se (insert (node_uid n.id) (node_entity n se) []))

  abbrev pub query_of : Request → Node → Option Session → Query
  query_of r n se = record {
    principal = node_uid n.id;
    action = action_uid;
    resource = host_uid r;
    context = context_of r (is_some se);
    user = user_of se;
  }

  -- cedar.Authorize, as evaluate calls it
  unfoldable pub ask : Engine S → Request → Node → Option Session → Answer
  ask e r n se = lib.authorize e.policies.set (layered (top_of e r n se) e.base) (query_of r n se)

  abbrev pub context_decision : Engine S → Request → Option Session → Decision
  context_decision e r se = record denied {
    session = se;
    owner = owner_of e.snap r.dst;
    known = true;
  }

  -- evaluate, once the principal's node is found; `own` is its session.
  unfoldable pub decide_node : Engine S → Request → Bool → Node → Option Session → Decision
  decide_node e r assume n own =
      let answer = ask e r n (effective_session own assume n.id) in
      let d = context_decision e r own in
      if e.policies.count == 0 then d else record d {
        allow = answer.allow;
        reasons = sort_texts answer.reasons;
        policies = sort_texts (map (name_of e.policies.names) answer.reasons);
        errors = map (error_text e.policies.names) answer.errors;
      }

  -- evaluate, with assumeSession and the time
  unfoldable pub evaluate_once : Engine S → Request → Bool → ℕ → Decision
  evaluate_once e r assume now = elim e.snap [
    | none ↦ denied
    | some s ↦ elim (principal_of s r.principal) [
      | none ↦ denied
      | some n ↦ decide_node e r assume n (session_for (some s) n.id now)
    ]
  ]

  -- The condition of Evaluate's first test.
  unfoldable pub may_wait_for_name : Engine S → Request → Bool
  may_wait_for_name e r =
      length r.sni == 0
      && r.proto == 6
      && (e.policies.permits_by_sni || e.policies.permits_dynamic && sni_fallback e.internal r.dst)

  -- Evaluate
  unfoldable pub evaluate : Engine S → Request → ℕ → Decision
  evaluate e r now =
      finish (may_wait_for_name e r) (evaluate_once e r false now)
        (evaluate_once e r true now).allow
