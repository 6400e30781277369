-- ===== src/Binding/Agrees.antt =====
-- Binding.Matches and the guard's test, against what they mean for the record and the book.
use bound_gate_vpn.Prelude.{
  ◌≡◌, ◌≤◌, ◌<◌, refl, arith, Bool, true, false, Option, none, some, ◌==◌, List, [], ◌∷◌, length,
  map, Bytes, same_bytes, same_bytes_iff, inl, inr, ◌⊎◌, Bool-cases, sym, ◌∙◌, if◌then◌else◌,
}
use bound_gate_vpn.Prelude.Text.{sort_texts}
use bound_gate_vpn.Netip.{same_addr_iff}
use bound_gate_vpn.Registry.{Announced, Node}
use bound_gate_vpn.Registry.Changes.{same_announced, same_truth}
use bound_gate_vpn.Registry.Entries.{Texts}
use bound_gate_vpn.Anchors.{check, entry_of}
use bound_gate_vpn.Binding.Statements.{
  Statement, compact, mask_announced, sort_announced, normalize, matches_node, kind_interactive,
}
use bound_gate_vpn.Binding.Nodes.{Guard, guarded, is_other}
use bound_gate_vpn.Binding.Sets.{
  SameSet, same_announced_iff, same_list_lem, same_images, normal_texts-SameSet,
  normal_announced-SameSet,
}

-- The kind that an unset one stands for.
abbrev pub plain_kind : Bytes → Bytes
plain_kind [] = kind_interactive
plain_kind (c ∷ s) = c ∷ s

-- The statement says what the record says.
pub record Agrees (b : Statement) (n : Node) : Type 0 where
  pub id : b.node_id ≡ n.id
  pub key : b.spki ≡ n.spki
  pub version : b.key_version ≡ n.key_version
  pub kind : plain_kind b.kind ≡ plain_kind n.kind
  pub roles : SameSet b.roles n.roles
  pub prefixes : SameSet (map mask_announced b.prefixes) (map mask_announced n.prefixes)
  pub address : b.overlay_ip ≡ n.overlay_ip
  pub hardware : b.hardware_bound ≡ n.hardware_bound
  pub tags : SameSet b.tags n.tags

-- A guard does not know of another network, of a newer binding, or of a revocation since.
abbrev pub Allows : Option Guard → Statement → Type 0
Allows none b = Unit
Allows (some g) b =
    ((g.deployment ≡ []) ⊎ (b.deployment ≡ []) ⊎ (b.deployment ≡ g.deployment))
    × (((entry_of b.node_id g.book).revoked ≡ 0) ⊎ ((entry_of b.node_id g.book).revoked < b.issued))
    × ((entry_of b.node_id g.book).issued ≤ b.issued)

same_truth_lem : (a b : Bool) → same_truth a b ≡ true → a ≡ b
same_truth_lem true b h = ground arith
same_truth_lem false b h = ground arith

plain_kind_lem : (s : Bytes) → (if length s == 0 then kind_interactive else s) ≡ plain_kind s
plain_kind_lem [] = refl
plain_kind_lem (c ∷ s) = ground arith

-- Matches accepts only a statement that says what the record says.
pub matches_node-Agrees :
    (texts : Texts) (b : Statement) (n : Node) → matches_node texts b n ≡ true → Agrees b n
unfolding matches_node normalize
matches_node-Agrees texts b n h =
    let images : List Announced → List Announced =
      λ ps. compact same_announced (sort_announced texts ps) in
    let kinds : (if length b.kind == 0 then kind_interactive else b.kind)
        ≡ (if length n.kind == 0 then kind_interactive else n.kind) =
      (same_bytes_iff _ _).0 (ground arith) in
    record {
      id = (same_bytes_iff b.node_id n.id).0 (ground arith);
      key = (same_bytes_iff b.spki n.spki).0 (ground arith);
      version = ground arith;
      kind = sym (plain_kind_lem b.kind) ∙ (kinds ∙ plain_kind_lem n.kind);
      roles =
          same_images (λ xs. compact same_bytes (sort_texts xs)) normal_texts-SameSet b.roles
            n.roles (same_list_lem same_bytes same_bytes_iff _ _ (ground arith));
      prefixes =
          same_images images (normal_announced-SameSet texts) (map mask_announced b.prefixes)
            (map mask_announced n.prefixes)
            (same_list_lem same_announced same_announced_iff _ _ (ground arith));
      address = (same_addr_iff b.overlay_ip n.overlay_ip).0 (ground arith);
      hardware = same_truth_lem b.hardware_bound n.hardware_bound (ground arith);
      tags =
          same_images (λ xs. compact same_bytes (sort_texts xs)) normal_texts-SameSet b.tags n.tags
            (same_list_lem same_bytes same_bytes_iff _ _ (ground arith));
    }

empty_lem : (s : Bytes) → (length s == 0) ≡ true → s ≡ []
empty_lem [] h = refl
empty_lem (c ∷ s) h = absurd (ground arith)

is_other_lem :
    (dep named : Bytes) → is_other dep named ≡ false → (dep ≡ []) ⊎ (named ≡ []) ⊎ (named ≡ dep)
is_other_lem dep named h = elim (Bool-cases (length dep == 0)) [
  | inl e ↦ inl (empty_lem dep e)
  | inr d ↦ elim (Bool-cases (length named == 0)) [
    | inl e ↦ inr (inl (empty_lem named e))
    | inr m ↦ inr (inr ((same_bytes_iff named dep).0 (ground (arith, d, m, h))))
  ]
]

-- The guard's test passes only what the guard allows.
pub guarded-Allows : (g : Option Guard) (b : Statement) → guarded g b ≡ none → Allows g b
unfolding guarded check
guarded-Allows none b h = tt
guarded-Allows (some g) b h =
    let network : is_other g.deployment b.deployment ≡ false = ground (arith, h) in
    let passed : check b.node_id b.issued g.book ≡ none = ground (arith, h) in
    (is_other_lem g.deployment b.deployment network, ground (arith, passed), ground (arith, passed))
