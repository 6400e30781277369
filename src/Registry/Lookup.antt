-- ===== src/Registry/Lookup.antt =====
-- Whom the registry admits.
use bound_gate_vpn.Prelude.{
  ℕ, ◌-◌, ◌≡◌, ◌≤◌, ◌<◌, Bool, true, false, none, some, arith, Option-cases, inl, inr, Bytes,
  bytes_eq, same_bytes_iff, ◌=?◌, List, [], ◌∷◌, IsIn, ◌*◌, ◌==◌, if◌then◌else◌, Bool-cases,
}
use bound_gate_vpn.Registry.{
  Node, Snapshot, Holder, last_node, lookup_spki, holder_lookup, is_stale, max_age, Session,
  last_session, session_for, pos, as_int64, is_older, default_max_age,
}

pub last_node-IsIn :
    (p : Node → Bool) (ns : List Node) (n : Node)
    → last_node p ns ≡ some n
    → IsIn n ns × (p n ≡ true)
unfolding last_node
last_node-IsIn p [] n h = absurd (ground arith)
last_node-IsIn p (m ∷ ns) n h = ground (arith, last_node-IsIn p ns n)

last_node-none :
    (p : Node → Bool) (ns : List Node) (n : Node) → last_node p ns ≡ none → IsIn n ns → p n ≡ false
unfolding last_node
last_node-none p [] n h i = absurd i
last_node-none p (m ∷ ns) n h (inl e) = ground arith
last_node-none p (m ∷ ns) n h (inr i) = ground (arith, last_node-none p ns n)

node_found-IsIn :
    (ns : List Node) (k : Bytes) (n : Node)
    → last_node (λ m. m.spki =? k) ns ≡ some n
    → IsIn n ns × (n.spki ≡ k)
node_found-IsIn ns k n h =
    let found = last_node-IsIn (λ m. m.spki =? k) ns n h in
    (found.0, (same_bytes_iff n.spki k).0 found.1)

-- The grace period of a snapshot in nanoseconds, as the number that it means.
abbrev pub grace_period : Snapshot → ℕ
grace_period s =
    if s.max_age_seconds == 0 then default_max_age else s.max_age_seconds * 1_000_000_000

-- A duration that wraps is never above the number that wrapped.
is_older-as_int64 :
    (now fetched n : ℕ) → is_older now fetched (as_int64 n) ≡ false → now - fetched ≤ n
is_older-as_int64 now fetched n h = ground arith

is_older-grace_period :
    (now fetched : ℕ) (s : Snapshot)
    → is_older now fetched (max_age s) ≡ false
    → now - fetched ≤ grace_period s
unfolding max_age
is_older-grace_period now fetched s h = elim (Bool-cases (s.max_age_seconds == 0)) [
  | inl unset ↦ ground (arith, unset, h)
  | inr given ↦
      ground (arith, given, h, is_older-as_int64 now fetched (s.max_age_seconds * 1_000_000_000))
]

-- A key that is admitted belongs to a peer of a snapshot that the control plane confirmed within
-- the snapshot's grace period: with no snapshot or a stale one nobody is admitted.
pub holder_lookup-eq-some :
    (h : Holder) (k : Bytes) (now : ℕ) (n : Node)
    → holder_lookup h k now ≡ some n
    → (s : Snapshot) × (h.snapshot ≡ some s)
      × (now - h.fetched ≤ grace_period s)
      × IsIn n s.peers
      × (n.spki ≡ k)
unfolding holder_lookup lookup_spki is_stale
holder_lookup-eq-some h k now n e = elim (Option-cases h.snapshot) [
  | inl missing ↦ absurd (ground arith)
  | inr (s, there) ↦
      let found : last_node (λ m. m.spki =? k) s.peers ≡ some n = ground arith in
      let young : is_older now h.fetched (max_age s) ≡ false = ground arith in
      let (inside, key) = node_found-IsIn s.peers k n found in
      (s, there, is_older-grace_period now h.fetched s young, inside, key)
]

-- A grace period that an int64 of nanoseconds holds does not wrap.
max_age_lem : (s : Snapshot) → s.max_age_seconds ≤ 9_223_372_036 → max_age s ≡ pos (grace_period s)
unfolding max_age
max_age_lem s h = ground arith

-- While the snapshot is fresh, the key of each peer in it is admitted, for a peer with that key,
-- provided that its grace period is at most 9223372036 seconds, the most whose nanoseconds an int64
-- holds.
pub holder_lookup-peer :
    (h : Holder) (s : Snapshot) (now : ℕ) (n : Node)
    → h.snapshot ≡ some s
    → s.max_age_seconds ≤ 9_223_372_036
    → now - h.fetched ≤ grace_period s
    → IsIn n s.peers
    → (m : Node) × (holder_lookup h n.spki now ≡ some m) × (m.spki ≡ n.spki)
unfolding holder_lookup lookup_spki is_stale
holder_lookup-peer h s now n there held fresh i =
    let young : is_older now h.fetched (max_age s) ≡ false =
      rw (max_age_lem s held) (ground (arith, fresh)) in
    elim (Option-cases (last_node (λ m. m.spki =? n.spki) s.peers)) [
      | inl missing ↦ absurd (
          ground (
            arith,
            last_node-none (λ m. m.spki =? n.spki) s.peers n missing i,
            same_bytes_iff n.spki n.spki,
          ))
      | inr (m, found) ↦ (m, ground (arith, young), (node_found-IsIn s.peers n.spki m found).1)
    ]

last_session-IsIn :
    (id : Bytes) (ss : List Session) (s : Session)
    → last_session id ss ≡ some s
    → IsIn s ss × (s.node_id ≡ id)
unfolding last_session
last_session-IsIn id [] s h = absurd (ground arith)
last_session-IsIn id (t ∷ ss) s h =
    ground (arith, last_session-IsIn id ss s, same_bytes_iff t.node_id id)

-- A session that is found for a node is one of the snapshot, bound to that node, and not expired.
pub session_for-eq-some :
    (s : Snapshot) (id : Bytes) (now : ℕ) (t : Session)
    → session_for (some s) id now ≡ some t
    → IsIn t s.sessions × (t.node_id ≡ id) × (now < t.expires_at)
unfolding session_for
session_for-eq-some s id now t e = ground (arith, last_session-IsIn id s.sessions t)
