-- ===== src/Acl/ServerNames.antt =====
-- What a server name can do: nothing inside the overlay.
use bound_gate_vpn.Prelude.{
  ◌≡◌, ◌≢◌, ◌<◌, refl, arith, Bool, true, false, not, ◌&&◌, some, List, [], ◌∷◌, ◌++◌, length,
  Bytes, ap, sym, ◌∙◌, ltb, ◌==◌, Bool-cases, inl, inr, ◌⊎◌, IsIn, subst,
}
use bound_gate_vpn.Netip.{Addr, unmap, Prefix, prefix_valid, contains, bits_succ}
use bound_gate_vpn.Netip.Laws.{contains-masked}
use bound_gate_vpn.Registry.{Node, Announced, Snapshot}
use bound_gate_vpn.Acl.Word
use bound_gate_vpn.Acl.Base.{
  snapshot_nodes, named_nodes, internal_prefixes, internal_of_nodes, internal_of,
}
use bound_gate_vpn.Acl.Lists.{Request, CompiledList, has, in_prefixes}
use bound_gate_vpn.Acl.Engine.{Library, new}
use bound_gate_vpn.Acl.Evaluate.{sni_fallback, by_name}
use bound_gate_vpn.Acl.Principals.{length_ne}

-- The overlay reaches an address: it is in the pool, or in a network that a node with an ID
-- announces and that is no default route.
abbrev pub Reached : Snapshot → Addr → Type 0
Reached s a =
    ((prefix_valid s.pool ≡ true) × (contains s.pool a ≡ true))
    ⊎ ((n : Node) × IsIn n (snapshot_nodes s)
        × (n.id ≢ [])
        × (p : Announced) × IsIn p n.prefixes
        × (1 < bits_succ p.prefix)
        × (contains p.prefix a ≡ true))

in_prefixes-append_left :
    (a : Addr) (ps qs : List Prefix) → in_prefixes a ps ≡ true → in_prefixes a (ps ++ qs) ≡ true
unfolding in_prefixes
in_prefixes-append_left a [] qs h = absurd (ground arith)
in_prefixes-append_left a (p ∷ ps) qs h = ground (arith, in_prefixes-append_left a ps qs)

in_prefixes-append_right :
    (a : Addr) (ps qs : List Prefix) → in_prefixes a qs ≡ true → in_prefixes a (ps ++ qs) ≡ true
unfolding in_prefixes
in_prefixes-append_right a [] qs h = h
in_prefixes-append_right a (p ∷ ps) qs h = ground (arith, in_prefixes-append_right a ps qs)

internal_prefixes-here :
    (a : Addr) (p : Announced) (ps : List Announced)
    → 1 < bits_succ p.prefix
    → contains p.prefix a ≡ true
    → in_prefixes a (internal_prefixes (p ∷ ps)) ≡ true
unfolding in_prefixes internal_prefixes
internal_prefixes-here a p ps b c =
    let wide : ltb 1 (bits_succ p.prefix) ≡ true = ground arith in
    rw (wide, contains-masked p.prefix a, c) refl

internal_prefixes-there :
    (a : Addr) (p : Announced) (ps : List Announced)
    → in_prefixes a (internal_prefixes ps) ≡ true
    → in_prefixes a (internal_prefixes (p ∷ ps)) ≡ true
unfolding in_prefixes internal_prefixes
internal_prefixes-there a p ps h = elim (Bool-cases (ltb 1 (bits_succ p.prefix))) [
  | inl e ↦ rw (e) (ground arith)
  | inr e ↦ rw (e) h
]

internal_prefixes-IsIn :
    (a : Addr) (ps : List Announced) (p : Announced)
    → IsIn p ps
    → 1 < bits_succ p.prefix
    → contains p.prefix a ≡ true
    → in_prefixes a (internal_prefixes ps) ≡ true
internal_prefixes-IsIn a [] p i b c = absurd i
internal_prefixes-IsIn a (q ∷ ps) p (inl e) b c =
    subst (λ x. in_prefixes a (internal_prefixes (x ∷ ps)) ≡ true) (sym e)
      (internal_prefixes-here a p ps b c)
internal_prefixes-IsIn a (q ∷ ps) p (inr i) b c =
    internal_prefixes-there a q ps (internal_prefixes-IsIn a ps p i b c)

named_nodes-IsIn : (ns : List Node) (n : Node) → IsIn n ns → n.id ≢ [] → IsIn n (named_nodes ns)
unfolding named_nodes
named_nodes-IsIn [] n i h = absurd i
named_nodes-IsIn (m ∷ ns) n (inl e) h =
    rw (length_ne m.id (λ g. h (ap (λ x. x.id) (sym e) ∙ g))) (inl e)
named_nodes-IsIn (m ∷ ns) n (inr i) h = elim (Bool-cases (length m.id == 0)) [
  | inl e ↦ rw (e) (named_nodes-IsIn ns n i h)
  | inr e ↦ rw (e) (inr (named_nodes-IsIn ns n i h))
]

internal_of_nodes-IsIn :
    (a : Addr) (ns : List Node) (n : Node)
    → IsIn n ns
    → in_prefixes a (internal_prefixes n.prefixes) ≡ true
    → in_prefixes a (internal_of_nodes ns) ≡ true
unfolding internal_of_nodes
internal_of_nodes-IsIn a [] n i h = absurd i
internal_of_nodes-IsIn a (m ∷ ns) n (inl e) h =
    in_prefixes-append_left a (internal_prefixes m.prefixes) (internal_of_nodes ns)
      (subst (λ x. in_prefixes a (internal_prefixes x.prefixes) ≡ true) (sym e) h)
internal_of_nodes-IsIn a (m ∷ ns) n (inr i) h =
    in_prefixes-append_right a (internal_prefixes m.prefixes) (internal_of_nodes ns)
      (internal_of_nodes-IsIn a ns n i h)

internal_of-Reached : (s : Snapshot) (a : Addr) → Reached s a → in_prefixes a (internal_of s) ≡ true
unfolding internal_of in_prefixes
internal_of-Reached s a (inl (valid, c)) = rw (valid, contains-masked s.pool a, c) refl
internal_of-Reached s a (inr (n, i, named, p, j, b, c)) =
    let nodes : in_prefixes a (internal_of_nodes (named_nodes (snapshot_nodes s))) ≡ true =
      internal_of_nodes-IsIn a (named_nodes (snapshot_nodes s)) n
        (named_nodes-IsIn (snapshot_nodes s) n i named)
        (internal_prefixes-IsIn a n.prefixes p j b c) in
    elim (Bool-cases (prefix_valid s.pool)) [
      | inl e ↦ rw (e, nodes) (ground arith)
      | inr e ↦ rw (e) nodes
    ]

-- Membership of a list of kind dynamic without the fallback.
without_name :
    (c : CompiledList) (r : Request) (name : Bytes)
    → c.kind ≡ Word.dynamic
    → has c (record r { sni = name }) false ≡ has c r false
unfolding has
without_name c r name dynamic = rw (dynamic) refl

fallback-Reached :
    (s : Snapshot) (a : Addr) → Reached s (unmap a) → sni_fallback (internal_of s) a ≡ false
unfolding sni_fallback
fallback-Reached s a h = ground (arith, internal_of-Reached s (unmap a) h)

-- In the engine of a snapshot, whether a destination that the overlay reaches is in a list of kind
-- dynamic does not depend on the TLS server name, whatever name the client writes.
pub has-Reached :
    {S : Type 0} (lib : Library S) (s : Snapshot) (c : CompiledList) (r : Request) (name : Bytes)
    → c.kind ≡ Word.dynamic
    → Reached s (unmap r.dst)
    → let internal = (new lib (some s)).internal in
      has c (record r { sni = name }) (by_name internal (record r { sni = name }))
      ≡ has c r (by_name internal r)
unfolding new
has-Reached lib s c r name dynamic reached =
    let off : sni_fallback (internal_of s) r.dst ≡ false = fallback-Reached s r.dst reached in
    let both : (t : Bool) → (t && sni_fallback (internal_of s) r.dst) ≡ false = λ t. ground arith in
    rw (both (not (length name == 0)), both (not (length r.sni == 0)))
      (without_name c r name dynamic)
