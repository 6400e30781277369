-- ===== src/Acl/Overlay.antt =====
-- Who owns the overlay addresses of a snapshot that passes Validate.
use bound_gate_vpn.Prelude.{
  ◌≡◌, ◌≢◌, refl, arith, Bool, true, false, none, some, inl, inr, if◌then◌else◌, List, [], ◌∷◌,
  length, All, All-IsIn, IsIn, subst, sym, ◌==◌,
}
use bound_gate_vpn.Netip.{same_addr_iff, Prefix}
use bound_gate_vpn.Registry.{Node, Snapshot, lookup_spki, peer}
use bound_gate_vpn.Registry.Unique.{lookup_spki_unique}
use bound_gate_vpn.Registry.Valid.{Differ, AllDiffer, NodeOk, validate-ok}
use bound_gate_vpn.Registry.Validate.{validate}
use bound_gate_vpn.Acl.Evaluate.{by_overlay, owner_of}
use bound_gate_vpn.Acl.Principals.{length_ne}

by_overlay-IsIn :
    (ns : List Node) (n : Node)
    → AllDiffer ns
    → n.id ≢ []
    → IsIn n ns
    → by_overlay n.overlay_ip ns ≡ some n
unfolding by_overlay
by_overlay-IsIn [] n d h i = absurd i
by_overlay-IsIn (m ∷ ns) n (d, ds) h (inl e) =
    let named = length_ne n.id h in
    let here : by_overlay n.overlay_ip (n ∷ ns) ≡ some n =
      ground (arith, same_addr_iff n.overlay_ip n.overlay_ip) in
    subst (λ x. by_overlay n.overlay_ip (x ∷ ns) ≡ some n) (sym e) here
by_overlay-IsIn (m ∷ ns) n (d, ds) h (inr i) =
    let other = (All-IsIn (Differ m) ns n i d).1 in
    ground (
      arith,
      by_overlay-IsIn ns n ds h i,
      same_addr_iff m.overlay_ip n.overlay_ip,
      λ (e : m.overlay_ip ≡ n.overlay_ip). other (sym e),
    )

by_overlay-snapshot :
    (self : Node) (ns : List Node) (n : Node) (t : Bool)
    → (length self.id == 0) ≡ t
    → AllDiffer (if t then ns else self ∷ ns)
    → n.id ≢ []
    → IsIn n ns
    → by_overlay n.overlay_ip (self ∷ ns) ≡ some n
unfolding by_overlay
by_overlay-snapshot self ns n true h d named i = ground (arith, by_overlay-IsIn ns n d named i)
by_overlay-snapshot self ns n false h d named i = by_overlay-IsIn (self ∷ ns) n d named (inr i)

named_tail :
    (pool : Prefix) (t : Bool) (n : Node) (ns : List Node)
    → All (NodeOk pool) (if t then ns else n ∷ ns)
    → All (NodeOk pool) ns
named_tail pool true n ns d = d
named_tail pool false n ns d = d.1

-- In a snapshot that passes Validate, each peer is the one that its key is admitted as, that its ID
-- finds, and that owns its overlay address.
pub owner_of-peer :
    (s : Snapshot) (n : Node)
    → validate s ≡ none
    → IsIn n s.peers
    → (lookup_spki (some s) n.spki ≡ some n)
      × (peer (some s) n.id ≡ some n)
      × (owner_of (some s) n.overlay_ip ≡ some n)
unfolding owner_of
owner_of-peer s n h i =
    let (private, ok, differ) = validate-ok s h in
    let t = length s.self.id == 0 in
    let good = All-IsIn (NodeOk s.pool) s.peers n i (named_tail s.pool t s.self s.peers ok) in
    let found = by_overlay-snapshot s.self s.peers n t refl differ good.0 i in
    let (key, id) = lookup_spki_unique s n h i in (key, id, ground arith)
