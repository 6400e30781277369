-- ===== src/Registry/Unique.antt =====
-- In a snapshot that passes Validate, a key, an ID and an overlay address each name one node.
use bound_gate_vpn.Prelude.{
  ◌≡◌, ◌≢◌, refl, arith, Bool, true, false, none, some, inl, inr, if◌then◌else◌, Bytes, bytes_eq,
  same_bytes_iff, ◌=?◌, List, [], ◌∷◌, length, All, IsIn, subst, ◌==◌,
}
use bound_gate_vpn.Registry.{Node, Snapshot, last_node, lookup_spki, peer}
use bound_gate_vpn.Registry.Valid.{Differ, AllDiffer, validate-ok}
use bound_gate_vpn.Registry.Validate.{validate}

last_node-absent :
    (p : Node → Bool) (ns : List Node) → All (λ m. p m ≡ false) ns → last_node p ns ≡ none
unfolding last_node
last_node-absent p [] h = refl
last_node-absent p (n ∷ ns) (h, hs) = ground (arith, last_node-absent p ns hs)

All-false :
    (f : Node → Bytes) (n : Node) (ns : List Node)
    → ((m : Node) → Differ n m → f m ≢ f n)
    → All (Differ n) ns
    → All (λ m. (f m =? f n) ≡ false) ns
All-false f n [] h d = tt
All-false f n (m ∷ ns) h (d, ds) =
    (ground (arith, same_bytes_iff (f m) (f n), h m d), All-false f n ns h ds)

last_node_unique :
    (f : Node → Bytes) (ns : List Node) (n : Node)
    → ((x y : Node) → Differ x y → f y ≢ f x)
    → AllDiffer ns
    → IsIn n ns
    → last_node (λ m. f m =? f n) ns ≡ some n
unfolding last_node
last_node_unique f [] n h d i = absurd i
last_node_unique f (m ∷ ns) n h (d, ds) (inl e) =
    let rest = last_node-absent (λ x. f x =? f m) ns (All-false f m ns (h m) d) in
    let here : last_node (λ x. f x =? f m) (m ∷ ns) ≡ some m =
      ground (arith, same_bytes_iff (f m) (f m)) in
    subst (λ y. last_node (λ x. f x =? f y) (m ∷ ns) ≡ some y) e here
last_node_unique f (m ∷ ns) n h (d, ds) (inr i) = ground (arith, last_node_unique f ns n h ds i)

differ_tail :
    (t : Bool) (n : Node) (ns : List Node) → AllDiffer (if t then ns else n ∷ ns) → AllDiffer ns
differ_tail true n ns d = d
differ_tail false n ns d = d.1

-- In a snapshot that passes Validate, the key of each peer is admitted as this peer, and its ID
-- finds it.
pub lookup_spki_unique :
    (s : Snapshot) (n : Node)
    → validate s ≡ none
    → IsIn n s.peers
    → (lookup_spki (some s) n.spki ≡ some n) × (peer (some s) n.id ≡ some n)
unfolding lookup_spki peer
lookup_spki_unique s n h i =
    let (private, ok, differ) = validate-ok s h in
    let ds = differ_tail (length s.self.id == 0) s.self s.peers differ in
    (
      last_node_unique (λ m. m.spki) s.peers n (λ x y d. d.0) ds i,
      last_node_unique (λ m. m.id) s.peers n (λ x y d. d.2) ds i,
    )
