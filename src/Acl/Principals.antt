-- ===== src/Acl/Principals.antt =====
-- Which entities a request puts on top of the snapshot's.
use bound_gate_vpn.Prelude.{
  ◌≡◌, ◌≢◌, refl, arith, false, Option, none, ◌⊎◌, some, [], ◌∷◌, length, Bytes, ap, ◌∙◌, ◌==◌,
  Bool-cases, inl, inr,
}
use bound_gate_vpn.Prelude.Assoc.{lookup, insert, lookup-insert_self, lookup-insert_ne}
use bound_gate_vpn.Registry.{Node, Session}
use bound_gate_vpn.Acl.Entities.{
  type_number, Uid, uid_eq, Entity, node_uid, user_uid, node_entity, user_entity,
}
use bound_gate_vpn.Acl.Base.{EntityMap}
use bound_gate_vpn.Acl.Lists.{Request}
use bound_gate_vpn.Acl.Engine.{Library, Engine}
use bound_gate_vpn.Acl.Evaluate.{top_user, layered, top_of, host_uid, host_entity}

-- Entities of different types are different.
uid_ne : (u v : Uid) → type_number u.type ≢ type_number v.type → u ≢ v
uid_ne u v h e = h (ap (λ x. type_number x.type) e)

layered-lookup :
    (top base : EntityMap) (u : Uid) (x : Entity)
    → lookup u top ≡ some x
    → layered top base u ≡ some x
unfolding layered
layered-lookup top base u x h = ground arith

pub length_ne : (s : Bytes) → s ≢ [] → (length s == 0) ≡ false
length_ne [] h = absurd (h refl)
length_ne (c ∷ s) h = ground arith

top_user-node :
    (se : Option Session) (m : EntityMap) (id : Bytes)
    → lookup (node_uid id) (top_user se m) ≡ lookup (node_uid id) m
unfolding top_user
top_user-node none m id = refl
top_user-node (some s) m id = elim (Bool-cases (length s.subject == 0)) [
  | inl e ↦ rw (e) refl
  | inr e ↦ rw (e) (
      lookup-insert_ne (user_uid s.subject) (node_uid id) (user_entity s) m
        (uid_ne (user_uid s.subject) (node_uid id) (ground arith)))
]

top_user-own :
    (se : Session) (m : EntityMap)
    → se.subject ≢ []
    → lookup (user_uid se.subject) (top_user (some se) m) ≡ some (user_entity se)
unfolding top_user
top_user-own se m h =
    rw (length_ne se.subject h) (lookup-insert_self (user_uid se.subject) (user_entity se) m)

-- The user of a session, when there is one.
abbrev pub subject_of : Option Session → Bytes
subject_of none = []
subject_of (some s) = s.subject

abbrev pub user_of : Option Session → Option Entity
user_of none = none
user_of (some s) = some (user_entity s)

module _ {S : Type 0} (lib : Library S) where
  layered-user :
      (e : Engine S) (r : Request) (n : Node) (s : Session)
      → s.subject ≢ []
      → layered (top_of lib e r n (some s)) e.base (user_uid s.subject) ≡ some (user_entity s)
  layered-user e r n s h =
      let m : EntityMap = insert (node_uid n.id) (node_entity n (some s)) [] in
      layered-lookup _ _ (user_uid s.subject) _ (
        lookup-insert_ne (host_uid lib r) (user_uid s.subject) (host_entity lib e r)
          (top_user (some s) m) (uid_ne (host_uid lib r) (user_uid s.subject) (ground arith))
        ∙ top_user-own s m h)

  user_seen :
      (e : Engine S) (r : Request) (n : Node) (se : Option Session)
      → (subject_of se ≡ [])
        ⊎ (layered (top_of lib e r n se) e.base (user_uid (subject_of se)) ≡ user_of se)
  user_seen e r n none = inl refl
  user_seen e r n (some s) = elim (Bool-cases (length s.subject == 0)) [
    | inl empty ↦ inl (ground (arith, empty))
    | inr filled ↦ inr (layered-user e r n s (λ h. ground (arith, filled, h)))
  ]

  -- Whatever the snapshot's entities are, Cedar sees the principal with the session that the
  -- request is decided with, or with none when there is none; and unless that session has no
  -- subject, Cedar sees its user with this session's own groups, also where the subject is signed
  -- in on other nodes.
  pub layered-top_of :
      (e : Engine S) (r : Request) (n : Node) (se : Option Session)
      → (layered (top_of lib e r n se) e.base (node_uid n.id) ≡ some (node_entity n se))
        × ((subject_of se ≡ [])
            ⊎ (layered (top_of lib e r n se) e.base (user_uid (subject_of se)) ≡ user_of se))
  layered-top_of e r n se =
      let m : EntityMap = insert (node_uid n.id) (node_entity n se) [] in
      (
        layered-lookup _ _ (node_uid n.id) _ (
            lookup-insert_ne (host_uid lib r) (node_uid n.id) (host_entity lib e r) (top_user se m)
              (uid_ne (host_uid lib r) (node_uid n.id) (ground arith))
            ∙ (top_user-node se m n.id ∙ lookup-insert_self (node_uid n.id) (node_entity n se) [])),
        user_seen e r n se,
      )
