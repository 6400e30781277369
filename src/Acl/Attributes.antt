-- ===== src/Acl/Attributes.antt =====
-- What policies read of a node, and what the registry's comparison of two records sees.
use bound_gate_vpn.Prelude.{
  ◌≡◌, refl, arith, Bool, true, false, Option, Bytes, same_bytes_iff, List, [], ◌∷◌,
}
use bound_gate_vpn.Netip.{same_addr_iff}
use bound_gate_vpn.Registry.{Node, Session}
use bound_gate_vpn.Registry.Changes.{same_node, same_policy_attrs, same_texts, same_truth}
use bound_gate_vpn.Acl.Entities.{node_entity}

same_texts_eq : (xs ys : List Bytes) → same_texts xs ys ≡ true → xs ≡ ys
same_texts_eq [] [] h = refl
same_texts_eq [] (y ∷ ys) h = absurd (ground arith)
same_texts_eq (x ∷ xs) [] h = absurd (ground arith)
same_texts_eq (x ∷ xs) (y ∷ ys) h = ground (arith, same_bytes_iff x y, same_texts_eq xs ys)

same_truth_eq : (a b : Bool) → same_truth a b ≡ true → a ≡ b
same_truth_eq true b h = ground arith
same_truth_eq false b h = ground arith

-- Two records that neither sameNode nor samePolicyAttrs tells apart are the same entity for
-- policies, with whatever session: what a policy can read of a node does not change unseen.
pub node_entity-same :
    (a b : Node) (se : Option Session)
    → same_node a b ≡ true
    → same_policy_attrs a b ≡ true
    → node_entity a se ≡ node_entity b se
unfolding node_entity same_node same_policy_attrs
node_entity-same a b se h g =
    let id : a.id ≡ b.id = (same_bytes_iff a.id b.id).0 (ground arith) in
    let kind : a.kind ≡ b.kind = (same_bytes_iff a.kind b.kind).0 (ground arith) in
    let addr : a.overlay_ip ≡ b.overlay_ip =
      (same_addr_iff a.overlay_ip b.overlay_ip).0 (ground arith) in
    let bound : a.hardware_bound ≡ b.hardware_bound =
      same_truth_eq a.hardware_bound b.hardware_bound (ground arith) in
    let roles : a.roles ≡ b.roles = same_texts_eq a.roles b.roles (ground arith) in
    let tags : a.tags ≡ b.tags = same_texts_eq a.tags b.tags (ground arith) in
    let name : a.name ≡ b.name = (same_bytes_iff a.name b.name).0 (ground arith) in
    let platform : a.platform ≡ b.platform =
      (same_bytes_iff a.platform b.platform).0 (ground arith) in
    let key : a.key_kind ≡ b.key_kind = (same_bytes_iff a.key_kind b.key_kind).0 (ground arith) in
    rw (id, kind, addr, bound, roles, tags, name, platform, key) refl
