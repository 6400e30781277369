-- ===== src/Forward/Longest.antt =====
-- What Lookup finds: the owner of the address, or the longest announced prefix that is not reserved.
use bound_gate_vpn.Prelude.{
  ℕ, ◌≡◌, ◌≤◌, ◌<◌, ◌⊎◌, true, false, arith, List, [], ◌∷◌, Bool-cases, inl, inr, All, ltb, leb,
  IsIn, if◌then◌else◌, none, some, refl, ◌&&◌, All-IsIn,
}
use bound_gate_vpn.Prelude.Assoc.{lookup}
use bound_gate_vpn.Netip.{Addr, addr_eq, Prefix, bits_succ, contains, prefix_valid}
use bound_gate_vpn.Forward.{PrefixEntry, Table, floor_of, first_match, lookup_prefix, lookup_writer}
use bound_gate_vpn.Forward.Order.{IsSorted, size}

-- Every network of the list that has the address is at most that long.
abbrev pub Bounds : Addr → ℕ → List Prefix → Type 0
Bounds dst n os = All (λ o. contains o dst ≡ true → bits_succ o ≤ n) os

floor_of-le : (dst : Addr) (os : List Prefix) (n : ℕ) → n ≤ floor_of dst os n
unfolding floor_of
floor_of-le dst [] n = omega arith
floor_of-le dst (o ∷ os) n = ground (arith, floor_of-le dst os n, floor_of-le dst os (bits_succ o))

Bounds-le : (dst : Addr) (m n : ℕ) (os : List Prefix) → m ≤ n → Bounds dst m os → Bounds dst n os
Bounds-le dst m n [] b h = tt
Bounds-le dst m n (o ∷ os) b h = ((λ c. ground (arith, h.0 c)), Bounds-le dst m n os b h.1)

floor_of-Bounds : (dst : Addr) (os : List Prefix) (n : ℕ) → Bounds dst (floor_of dst os n) os
unfolding floor_of
floor_of-Bounds dst [] n = tt
floor_of-Bounds dst (o ∷ os) n =
    let rest = if contains o dst && ltb n (bits_succ o) then bits_succ o else n in
    (
      (λ c. ground (arith, floor_of-le dst os n, floor_of-le dst os (bits_succ o), c)),
      floor_of-Bounds dst os rest,
    )

floor_of-IsIn :
    (dst : Addr) (os : List Prefix) (n : ℕ)
    → (floor_of dst os n ≡ n)
      ⊎ (o : Prefix) × IsIn o os × (contains o dst ≡ true) × (bits_succ o ≡ floor_of dst os n)
unfolding floor_of
floor_of-IsIn dst [] n = inl refl
floor_of-IsIn dst (o ∷ os) n = elim (Bool-cases (contains o dst && ltb n (bits_succ o))) [
  | inl takes ↦ elim (floor_of-IsIn dst os (bits_succ o)) [
    | inl same ↦ inr (o, inl refl, ground arith, ground arith)
    | inr (p, there, has, is_floor) ↦ inr (p, inr there, has, ground arith)
  ]
  | inr leaves ↦ elim (floor_of-IsIn dst os n) [
    | inl same ↦ inl (ground arith)
    | inr (p, there, has, is_floor) ↦ inr (p, inr there, has, ground arith)
  ]
]

Bounds-lt :
    (dst : Addr) (m n : ℕ) (os : List Prefix)
    → m < n
    → Bounds dst m os
    → All (λ o. contains o dst ≡ true → bits_succ o < n) os
Bounds-lt dst m n [] b h = tt
Bounds-lt dst m n (o ∷ os) b h = ((λ c. ground (arith, h.0 c)), Bounds-lt dst m n os b h.1)

contains-valid : (p : Prefix) (a : Addr) → contains p a ≡ true → prefix_valid p ≡ true
unfolding contains
contains-valid Prefix.none a h = ground arith
contains-valid (Prefix.prefix b n) a h = refl

contains-size : (p : Prefix) (a : Addr) → contains p a ≡ true → 0 < bits_succ p
unfolding contains
contains-size Prefix.none a h = ground arith
contains-size (Prefix.prefix b n) a h = omega arith

module _ {W : Type 0} where
  -- An entry that wins over the floor, and none that has the address is longer.
  abbrev pub IsLongest : Addr → ℕ → List (PrefixEntry W) → W → Type 0
  IsLongest dst floor es pw =
      (e : PrefixEntry W) × IsIn e es
      × (e.pw ≡ pw)
      × (contains e.prefix dst ≡ true)
      × (floor < size e)
      × All (λ f. contains f.prefix dst ≡ true → size f ≤ size e) es

  All-size :
      (dst : Addr) (n : ℕ) (es : List (PrefixEntry W))
      → All (λ f. size f ≤ n) es
      → All (λ f. contains f.prefix dst ≡ true → size f ≤ n) es
  All-size dst n [] h = tt
  All-size dst n (e ∷ es) h = ((λ c. h.0), All-size dst n es h.1)

  first_match-IsLongest :
      (dst : Addr) (floor : ℕ) (es : List (PrefixEntry W)) (pw : W)
      → IsSorted es
      → first_match dst floor es ≡ some pw
      → IsLongest dst floor es pw
  unfolding first_match
  first_match-IsLongest dst floor [] pw sorted h = absurd (ground arith)
  first_match-IsLongest dst floor (e ∷ es) pw sorted h =
      elim (Bool-cases (leb (bits_succ e.prefix) floor)) [
        | inl short ↦ absurd (ground arith)
        | inr long ↦ elim (Bool-cases (contains e.prefix dst)) [
          | inl has ↦ (
            e,
            inl refl,
            ground arith,
            has,
            ground arith,
            ((λ c. omega arith), All-size dst (size e) es sorted.0),
          )
          | inr lacks ↦
              let (f, there, same, has, wins, best) =
                first_match-IsLongest dst floor es pw sorted.1 (ground arith) in
              (f, inr there, same, has, wins, ((λ c. absurd (ground arith)), best))
        ]
      ]

  All-short :
      (dst : Addr) (n m : ℕ) (es : List (PrefixEntry W))
      → All (λ f. size f ≤ n) es
      → n ≤ m
      → All (λ f. contains f.prefix dst ≡ true → size f ≤ m) es
  All-short dst n m [] h b = tt
  All-short dst n m (e ∷ es) h b = ((λ c. omega arith), All-short dst n m es h.1 b)

  first_match-none :
      (dst : Addr) (floor : ℕ) (es : List (PrefixEntry W))
      → IsSorted es
      → first_match dst floor es ≡ none
      → All (λ f. contains f.prefix dst ≡ true → size f ≤ floor) es
  unfolding first_match
  first_match-none dst floor [] sorted h = tt
  first_match-none dst floor (e ∷ es) sorted h =
      elim (Bool-cases (leb (bits_succ e.prefix) floor)) [
        | inl short ↦ ((λ c. ground arith), All-short dst (size e) floor es sorted.0 (ground arith))
        | inr long ↦ elim (Bool-cases (contains e.prefix dst)) [
          | inl has ↦ absurd (ground arith)
          | inr lacks ↦
              ((λ c. absurd (ground arith)), first_match-none dst floor es sorted.1 (ground arith))
        ]
      ]

  -- An address that no tunnel owns, in a table with sorted prefixes, goes to a writer only outside the overlay
  -- pool, by an entry that has the address, is longer than every network of the node itself that
  -- has it, and at least as long as every other entry that has it.
  pub lookup_writer-IsLongest :
      (dst : Addr) (t : Table W) (pw : W)
      → IsSorted t.prefixes
      → lookup dst t.hosts ≡ none
      → lookup_writer dst t ≡ some pw
      → (contains t.pool dst ≡ false)
        × (e : PrefixEntry W) × IsIn e t.prefixes
        × (e.pw ≡ pw)
        × (contains e.prefix dst ≡ true)
        × All (λ o. contains o dst ≡ true → bits_succ o < size e) t.own
        × All (λ f. contains f.prefix dst ≡ true → size f ≤ size e) t.prefixes
  unfolding lookup_writer lookup_prefix
  lookup_writer-IsLongest dst t pw sorted away h =
      let outside : contains t.pool dst ≡ false =
        ground (arith, away, h, contains-valid t.pool dst) in
      let floor = floor_of dst t.own 0 in
      let (e, there, same, has, wins, best) =
        first_match-IsLongest dst floor t.prefixes pw sorted (ground (arith, away, h, outside)) in
      (
        outside,
        e,
        there,
        same,
        has,
        Bounds-lt dst floor (size e) t.own wins (floor_of-Bounds dst t.own 0),
        best,
      )

  -- An address that no tunnel owns and the overlay pool has not, in a table with sorted prefixes,
  -- goes to no writer only if every announced prefix that has it is at most as long as some network
  -- of the node itself that has it.
  pub lookup_writer-none :
      (dst : Addr) (t : Table W)
      → IsSorted t.prefixes
      → lookup dst t.hosts ≡ none
      → contains t.pool dst ≡ false
      → lookup_writer dst t ≡ none
      → (f : PrefixEntry W) → IsIn f t.prefixes
      → contains f.prefix dst ≡ true
      → (o : Prefix) × IsIn o t.own × (contains o dst ≡ true) × (size f ≤ bits_succ o)
  unfolding lookup_writer lookup_prefix
  lookup_writer-none dst t sorted away outside h f there has =
      let short : size f ≤ floor_of dst t.own 0 =
        All-IsIn (λ g. contains g.prefix dst ≡ true → size g ≤ floor_of dst t.own 0) t.prefixes f
          there
          (first_match-none dst (floor_of dst t.own 0) t.prefixes sorted
            (ground (arith, away, h, outside)))
          has in
      elim (floor_of-IsIn dst t.own 0) [
        | inl zero_floor ↦ absurd (ground (arith, contains-size f.prefix dst has))
        | inr (o, of_node, o_has, is_floor) ↦ (o, of_node, o_has, omega arith)
      ]
