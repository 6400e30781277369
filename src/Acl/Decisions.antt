-- ===== src/Acl/Decisions.antt =====
-- When a request is allowed, and what else a decision says.
use bound_gate_vpn.Prelude.{
  [], ◌⊎◌, ℕ, ◌≡◌, ◌<◌, refl, inl, inr, arith, Bool, true, false, not, ◌&&◌, Bool-cases,
  Option-cases, Option, none, some, length, Bytes, bytes_eq, IsIn, same_bytes, same_bytes_iff, ap,
  sym, subst, ◌∙◌, is_some, ◌==◌, if◌then◌else◌,
}
use bound_gate_vpn.Registry.{Node, Session, Snapshot, peer, session_for}
use bound_gate_vpn.Registry.Lookup.{last_node-IsIn}
use bound_gate_vpn.Acl.Base.{snapshot_nodes}
use bound_gate_vpn.Acl.Lists.{Request}
use bound_gate_vpn.Acl.Engine.{Library, Engine}
use bound_gate_vpn.Acl.Evaluate.{
  Decision, assumed_session, principal_of, effective_session, ask, decide_node, evaluate_once,
  evaluate, finish, sni_fallback,
}

principal_of-IsIn :
    (s : Snapshot) (id : Bytes) (n : Node)
    → principal_of s id ≡ some n
    → IsIn n (snapshot_nodes s) × (n.id ≡ id)
unfolding principal_of peer
principal_of-IsIn s id n h = elim (Bool-cases (same_bytes id s.self.id && not (length id == 0))) [
  | inl self ↦
      let same : s.self ≡ n = ground arith in
      let ids : s.self.id ≡ id = ground (arith, same_bytes_iff id s.self.id) in
      (inl same, sym (ap (λ x. x.id) same) ∙ ids)
  | inr other ↦
      let found = last_node-IsIn (λ m. same_bytes m.id id) s.peers n (ground arith) in
      (inr found.0, (same_bytes_iff n.id id).0 found.1)
]

-- A choice between a denial and another decision.
chosen :
    (t : Bool) (d o : Decision)
    → d.allow ≡ false
    → (if t then d else o).allow ≡ true
    → (t ≡ false) × (o.allow ≡ true)
chosen true d o h g = absurd (ground arith)
chosen false d o h g = (refl, g)

not_assumed : (own : Option Session) (id : Bytes) → effective_session own false id ≡ own
not_assumed none id = refl
not_assumed (some se) id = refl

same_session :
    (t : Bool) (d o : Decision) (own : Option Session)
    → d.session ≡ own
    → o.session ≡ own
    → (if t then d else o).session ≡ own
same_session true d o own h g = h
same_session false d o own h g = g

-- What Evaluate's second test says when it holds and the second evaluation allows.
asked :
    (allow : Bool) (own : Option Session) (known other : Bool)
    → ((not allow && not (is_some own) && known) && other) ≡ true
    → (allow ≡ false) × (own ≡ none) × (other ≡ true)
asked allow none known other h = ground arith
asked allow (some se) known other h = absurd (ground arith)

module _ {S : Type 0} (lib : Library S) where
  -- Cedar's answer allows a node's request, over at least one policy.
  abbrev pub Permits : Engine S → Request → Node → Option Session → Type 0
  Permits e r n se = (0 < e.policies.count) × ((ask lib e r n se).allow ≡ true)

  decide_node-Permits :
      (e : Engine S) (r : Request) (assume : Bool) (n : Node) (own : Option Session)
      → (decide_node lib e r assume n own).allow ≡ true
      → Permits e r n (effective_session own assume n.id)
  unfolding decide_node
  decide_node-Permits e r assume n own h =
      let (some_policies, allow) = chosen (e.policies.count == 0) _ _ refl h in
      (ground arith, allow)

  evaluate_once-session :
      (e : Engine S) (s : Snapshot) (r : Request) (assume : Bool) (now : ℕ) (n : Node)
      → e.snap ≡ some s
      → principal_of s r.principal ≡ some n
      → (evaluate_once lib e r assume now).session ≡ session_for (some s) n.id now
  unfolding evaluate_once decide_node
  evaluate_once-session e s r assume now n there found =
      let once : evaluate_once lib e r assume now
          ≡ decide_node lib e r assume n (session_for (some s) n.id now) =
        ground arith in
      ap (λ d. d.session) once ∙ same_session (e.policies.count == 0) _ _ _ refl refl

  evaluate_once-Permits :
      (e : Engine S) (s : Snapshot) (r : Request) (assume : Bool) (now : ℕ)
      → e.snap ≡ some s
      → (evaluate_once lib e r assume now).allow ≡ true
      → (n : Node) × (principal_of s r.principal ≡ some n)
        × Permits e r n (effective_session (session_for (some s) n.id now) assume n.id)
  unfolding evaluate_once
  evaluate_once-Permits e s r assume now there h =
      elim (Option-cases (principal_of s r.principal)) [
        | inl missing ↦ absurd (ground arith)
        | inr (n, found) ↦ (
          n,
          found,
          decide_node-Permits e r assume n (session_for (some s) n.id now) (ground arith),
        )
      ]

  -- With a snapshot, a request is allowed only if the principal is a node of the snapshot, there is
  -- a policy, and Cedar allows the request for this node with the session that the snapshot has for
  -- it at that time: a session is never assumed.
  pub evaluate-Permits :
      (e : Engine S) (s : Snapshot) (r : Request) (now : ℕ)
      → e.snap ≡ some s
      → (evaluate lib e r now).allow ≡ true
      → (n : Node) × IsIn n (snapshot_nodes s)
        × (n.id ≡ r.principal)
        × Permits e r n (session_for (some s) n.id now)
  unfolding evaluate finish
  evaluate-Permits e s r now there h =
      let (n, found, permits) = evaluate_once-Permits e s r false now there h in
      let (inside, same) = principal_of-IsIn s r.principal n found in
      (
        n,
        inside,
        same,
        subst (Permits e r n) (not_assumed (session_for (some s) n.id now) n.id) permits,
      )

  -- With a snapshot, SignInWouldPermit is set only on a denial for a node of the snapshot that has
  -- no session, where Cedar allows the same request for a session of which only the node is known.
  pub login-Permits :
      (e : Engine S) (s : Snapshot) (r : Request) (now : ℕ)
      → e.snap ≡ some s
      → (evaluate lib e r now).sign_in_would_permit ≡ true
      → ((evaluate lib e r now).allow ≡ false)
        × (n : Node) × IsIn n (snapshot_nodes s)
        × (session_for (some s) n.id now ≡ none)
        × Permits e r n (some (assumed_session n.id))
  unfolding evaluate finish
  login-Permits e s r now there h =
      let (denial, alone, other) =
        asked (evaluate_once lib e r false now).allow (evaluate_once lib e r false now).session
          (evaluate_once lib e r false now).known (evaluate_once lib e r true now).allow h in
      let (n, found, permits) = evaluate_once-Permits e s r true now there other in
      let own : session_for (some s) n.id now ≡ none =
        sym (evaluate_once-session e s r false now n there found) ∙ alone in
      (
        denial,
        n,
        (principal_of-IsIn s r.principal n found).0,
        own,
        subst (λ x. Permits e r n (effective_session x true n.id)) own permits,
      )

  -- What a flow needs to be let through until its server name is known.
  abbrev pub Waits : Engine S → Request → Type 0
  Waits e r =
      (r.sni ≡ [])
      × (r.proto ≡ 6)
      × ((e.policies.permits_by_sni ≡ true)
          ⊎ ((e.policies.permits_dynamic ≡ true) × (sni_fallback e.internal r.dst ≡ true)))
