-- ===== src/Forward.antt =====
-- internal/node/forward/table.go: which tunnel a destination address goes to. Writers are compared,
-- never looked into; the lock makes each operation one step.
pub mod Order
pub mod Longest
use bound_gate_vpn.Prelude.{
  ℕ, suc, ◌≡◌, Bool, true, false, not, ◌&&◌, ◌||◌, Option, none, some, ltb, leb, if◌then◌else◌, Eq,
  ◌=?◌, List, [], ◌∷◌, ◌++◌,
}
use bound_gate_vpn.Prelude.Assoc.{lookup, insert, remove}
use bound_gate_vpn.Netip.{
  Addr, addr_eq, Prefix, same_prefix, prefix_eq, contains, bits_succ, masked, prefix_valid,
}

-- prefixEntry
pub record PrefixEntry (W : Type 0) : Type 0 where
  pub prefix : Prefix
  pub pw : W

-- Table
pub record Table (W : Type 0) : Type 0 where
  pub hosts : List (Addr × W)
  pub prefixes : List (PrefixEntry W)
  pub pool : Prefix
  pub own : List Prefix

-- The networks of SetReserved, masked.
unfoldable pub mask_all : List Prefix → List Prefix
mask_all [] = []
mask_all (p ∷ ps) = masked p ∷ mask_all ps

-- The floor of Lookup, as Bits() + 1: an announced prefix must be longer than this to win.
unfoldable pub floor_of : Addr → List Prefix → ℕ → ℕ
floor_of dst [] floor = floor
floor_of dst (o ∷ os) floor =
    floor_of dst os (if contains o dst && ltb floor (bits_succ o) then bits_succ o else floor)

module _ {W : Type 0} where
  -- NewTable
  unfoldable pub new_table : Table W
  new_table = record { hosts = []; prefixes = []; pool = Prefix.none; own = [] }

  -- Attach
  unfoldable pub attach : Addr → W → Table W → Table W
  attach addr pw t = record t { hosts = insert addr pw t.hosts }

  abbrev pub longer : PrefixEntry W → PrefixEntry W → Bool
  longer e f = ltb (bits_succ f.prefix) (bits_succ e.prefix)

  -- sort.SliceStable, the longest prefix first
  unfoldable pub put_entry : PrefixEntry W → List (PrefixEntry W) → List (PrefixEntry W)
  put_entry e [] = e ∷ []
  put_entry e (f ∷ fs) = let rest = put_entry e fs in if longer f e then f ∷ rest else e ∷ f ∷ fs

  unfoldable pub sort_entries : List (PrefixEntry W) → List (PrefixEntry W)
  sort_entries [] = []
  sort_entries (e ∷ es) = put_entry e (sort_entries es)

  -- SetReserved
  unfoldable pub set_reserved : Prefix → List Prefix → Table W → Table W
  set_reserved pool own t = record t { pool = masked pool; own = mask_all own }

  -- The last loop of Lookup
  unfoldable pub first_match : Addr → ℕ → List (PrefixEntry W) → Option W
  first_match dst floor [] = none
  first_match dst floor (e ∷ es) =
      let rest = first_match dst floor es in
      if leb (bits_succ e.prefix) floor
      then none
      else if contains e.prefix dst
      then some e.pw
      else rest

  -- Lookup behind the host entries
  unfoldable pub lookup_prefix : Addr → Table W → Option W
  lookup_prefix dst t =
      if prefix_valid t.pool && contains t.pool dst
      then none
      else first_match dst (floor_of dst t.own 0) t.prefixes

  -- Lookup
  unfoldable pub lookup_writer : Addr → Table W → Option W
  lookup_writer dst t = elim (lookup dst t.hosts) [ some pw ↦ some pw | none ↦ lookup_prefix dst t ]

module _ {W : Type 0} ⦃w : Eq W⦄ where
  -- Detach
  unfoldable pub detach : Addr → W → Table W → Table W
  detach addr pw t = elim (lookup addr t.hosts) [
    | none ↦ t
    | some cur ↦ if cur =? pw then record t { hosts = remove addr t.hosts } else t
  ]

  abbrev pub is_entry : Prefix → W → PrefixEntry W → Bool
  is_entry p pw e = same_prefix e.prefix p && e.pw =? pw

  abbrev pub has_entry : Prefix → W → List (PrefixEntry W) → Bool
  has_entry p pw [] = false
  has_entry p pw (e ∷ es) = is_entry p pw e || has_entry p pw es

  -- AttachPrefix
  unfoldable pub attach_prefix : Prefix → W → Table W → Table W
  attach_prefix q pw t =
      let p = masked q in
      if has_entry p pw t.prefixes
      then t
      else record t { prefixes = sort_entries (t.prefixes ++ record { prefix = p; pw = pw } ∷ []) }

  -- The loop of DetachPrefix: the entries that are kept, and whether one still serves the prefix.
  unfoldable pub without_entry : Prefix → W → List (PrefixEntry W) → List (PrefixEntry W) × Bool
  without_entry p pw [] = ([], false)
  without_entry p pw (e ∷ es) =
      let rest = without_entry p pw es in
      if is_entry p pw e then rest else (e ∷ rest.0, same_prefix e.prefix p || rest.1)

  -- DetachPrefix
  unfoldable pub detach_prefix : Prefix → W → Table W → Table W × Bool
  detach_prefix q pw t =
      let r = without_entry (masked q) pw t.prefixes in (record t { prefixes = r.0 }, r.1)
