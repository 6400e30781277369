-- ===== src/Acl/Base.antt =====
-- buildEntities: the networks of a snapshot and its entities.
use bound_gate_vpn.Prelude.{
  Bool, none, ltb, ◌==◌, if◌then◌else◌, List, [], ◌∷◌, ◌++◌, length, map, Bytes, bytes_eq,
}
use bound_gate_vpn.Prelude.Assoc.{insert}
use bound_gate_vpn.Prelude.Text.{text_less}
use bound_gate_vpn.Netip.{Prefix, masked, bits_succ, same_prefix, prefix_eq, prefix_valid}
use bound_gate_vpn.Registry.{Node, Session, Snapshot, Announced}
use bound_gate_vpn.Registry.Entries.{Texts}
use bound_gate_vpn.Acl.Word
use bound_gate_vpn.Acl.Entities.{
  EntityType, type_group, type_role, type_tag, type_network, Uid, uid_eq, uid_of, text, ip_addr,
  Entity, node_uid, action_uid, node_entity, user_entity,
}
use bound_gate_vpn.Acl.Lists.{CompiledList}

-- network
pub record Network : Type 0 where
  pub prefix : Prefix
  pub owners : List Bytes
  pub uid : Uid

-- types.EntityMap
abbrev pub EntityMap : Type 0
EntityMap = List (Uid × Entity)

abbrev pub put : Entity → EntityMap → EntityMap
put e m = insert e.uid e m

-- The nodes that Owner and buildEntities go through.
abbrev pub snapshot_nodes : Snapshot → List Node
snapshot_nodes s = s.self ∷ s.peers

-- Those with an ID.
unfoldable pub named_nodes : List Node → List Node
named_nodes [] = []
named_nodes (n ∷ ns) = let rest = named_nodes ns in if length n.id == 0 then rest else n ∷ rest

abbrev pub with_owner : Bytes → Network → Network
with_owner [] n = n
with_owner (c ∷ o) n = record n { owners = n.owners ++ ((c ∷ o) ∷ []) }

-- addNet, of a masked prefix
unfoldable pub add_masked : Texts → Prefix → Bytes → List Network → List Network
add_masked texts p owner [] =
    with_owner owner
      (record { prefix = p; owners = []; uid = uid_of type_network (texts.prefix_text p) })
    ∷ []
add_masked texts p owner (n ∷ ns) =
    let rest = add_masked texts p owner ns in
    if same_prefix n.prefix p then with_owner owner n ∷ ns else n ∷ rest

-- addNet
abbrev pub add_net : Texts → Prefix → Bytes → List Network → List Network
add_net texts p owner ns = add_masked texts (masked p) owner ns

unfoldable pub add_announced : Texts → Bytes → List Announced → List Network → List Network
add_announced texts id [] ns = ns
add_announced texts id (p ∷ ps) ns = add_announced texts id ps (add_net texts p.prefix id ns)

unfoldable pub add_nodes : Texts → List Node → List Network → List Network
add_nodes texts [] ns = ns
add_nodes texts (n ∷ nodes) ns = add_nodes texts nodes (add_announced texts n.id n.prefixes ns)

abbrev pub pool_network : Texts → Prefix → List Network
pool_network texts pool = if prefix_valid pool then add_net texts pool [] [] else []

-- The order of the networks: more bits first, then by their texts.
abbrev pub comes_first : Texts → Network → Network → Bool
comes_first texts m n =
    if bits_succ m.prefix == bits_succ n.prefix
    then text_less (texts.prefix_text m.prefix) (texts.prefix_text n.prefix)
    else ltb (bits_succ n.prefix) (bits_succ m.prefix)

unfoldable pub put_network : Texts → Network → List Network → List Network
put_network texts m [] = m ∷ []
put_network texts m (n ∷ ns) =
    let rest = put_network texts m ns in if comes_first texts n m then n ∷ rest else m ∷ n ∷ ns

unfoldable pub sort_networks : Texts → List Network → List Network
sort_networks texts [] = []
sort_networks texts (n ∷ ns) = put_network texts n (sort_networks texts ns)

-- The networks as buildEntities leaves them.
unfoldable pub networks_of : Texts → Snapshot → List Network
networks_of texts s =
    sort_networks texts
      (add_nodes texts (named_nodes (snapshot_nodes s)) (pool_network texts s.pool))

-- internal: the pool, and each announced network but a default route.
unfoldable pub internal_prefixes : List Announced → List Prefix
internal_prefixes [] = []
internal_prefixes (p ∷ ps) =
    let rest = internal_prefixes ps in
    if ltb 1 (bits_succ p.prefix) then masked p.prefix ∷ rest else rest

unfoldable pub internal_of_nodes : List Node → List Prefix
internal_of_nodes [] = []
internal_of_nodes (n ∷ ns) = internal_prefixes n.prefixes ++ internal_of_nodes ns

unfoldable pub internal_of : Snapshot → List Prefix
internal_of s =
    let nodes = internal_of_nodes (named_nodes (snapshot_nodes s)) in
    if prefix_valid s.pool then masked s.pool ∷ nodes else nodes

abbrev pub bare : EntityType → Bytes → Entity
bare t id = record { uid = uid_of t id; parents = []; attributes = [] }

unfoldable pub put_bare : EntityType → List Bytes → EntityMap → EntityMap
put_bare t [] m = m
put_bare t (id ∷ ids) m = put_bare t ids (put (bare t id) m)

unfoldable pub put_nodes : List Node → EntityMap → EntityMap
put_nodes [] m = m
put_nodes (n ∷ ns) m = put_nodes ns (put (node_entity n none) (put_bare type_tag n.tags m))

unfoldable pub put_users : List Session → EntityMap → EntityMap
put_users [] m = m
put_users (se ∷ ses) m = put_users ses (put (user_entity se) m)

unfoldable pub roles_of : List Node → List Bytes
roles_of [] = []
roles_of (n ∷ ns) = n.roles ++ roles_of ns

unfoldable pub groups_of : List Session → List Bytes
groups_of [] = []
groups_of (se ∷ ses) = se.groups ++ groups_of ses

abbrev pub network_entity : Network → Entity
network_entity n = record {
  uid = n.uid;
  parents = map node_uid n.owners;
  attributes = (Word.prefix, ip_addr n.prefix) ∷ [];
}

unfoldable pub put_networks : List Network → EntityMap → EntityMap
put_networks [] m = m
put_networks (n ∷ ns) m = put_networks ns (put (network_entity n) m)

abbrev pub list_entity : CompiledList → Entity
list_entity c = record {
  uid = c.uid;
  parents = [];
  attributes = (Word.kind, text c.kind) ∷ (Word.name, text c.name) ∷ [];
}

unfoldable pub put_lists : List CompiledList → EntityMap → EntityMap
put_lists [] m = m
put_lists (c ∷ cs) m = put_lists cs (put (list_entity c) m)

-- base: the entities of the lists (New), then those of buildEntities in its order.
unfoldable pub base_of : Texts → Snapshot → List CompiledList → EntityMap
base_of texts s lists =
    let nodes = named_nodes (snapshot_nodes s) in
    let users = put_users s.sessions (put_nodes nodes (put_lists lists [])) in
    let groups =
      put_bare type_group (groups_of s.sessions) (put_bare type_role (roles_of nodes) users) in
    put (record { uid = action_uid; parents = []; attributes = [] })
      (put_networks (networks_of texts s) groups)
