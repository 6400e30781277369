-- ===== src/Forward/Order.antt =====
-- The announced prefixes stay sorted, the longest first, and what DetachPrefix leaves of them.
use bound_gate_vpn.Prelude.{
  ℕ, ◌≡◌, ◌≤◌, true, false, arith, Eq, List, [], ◌∷◌, ◌++◌, Bool-cases, inl, inr, All, IsIn, refl,
  subst, ap, ◌↔◌, sym,
}
use bound_gate_vpn.Netip.{Prefix, bits_succ, masked, same_prefix, same_prefix_iff}
use bound_gate_vpn.Forward.{
  PrefixEntry, Table, put_entry, sort_entries, attach_prefix, detach_prefix, without_entry,
  is_entry,
}

abbrev pub size : {W : Type 0} → PrefixEntry W → ℕ
size e = bits_succ e.prefix

abbrev pub IsSorted : {W : Type 0} → List (PrefixEntry W) → Type 0
IsSorted [] = Unit
IsSorted (e ∷ es) = All (λ f. size f ≤ size e) es × IsSorted es

module _ {W : Type 0} where
  All-put_entry :
      (n : ℕ) (e : PrefixEntry W) (es : List (PrefixEntry W))
      → size e ≤ n
      → All (λ f. size f ≤ n) es
      → All (λ f. size f ≤ n) (put_entry e es)
  unfolding put_entry
  All-put_entry n e [] b h = (b, tt)
  All-put_entry n e (f ∷ fs) b h = ground (arith, All-put_entry n e fs)

  All-le :
      (m n : ℕ) (es : List (PrefixEntry W))
      → m ≤ n
      → All (λ f. size f ≤ m) es
      → All (λ f. size f ≤ n) es
  All-le m n [] b h = tt
  All-le m n (f ∷ fs) b h = (omega arith, All-le m n fs b h.1)

  put_entry-IsSorted :
      (e : PrefixEntry W) (es : List (PrefixEntry W)) → IsSorted es → IsSorted (put_entry e es)
  unfolding put_entry
  put_entry-IsSorted e [] h = (tt, tt)
  put_entry-IsSorted e (f ∷ fs) h =
      ground
        (arith, put_entry-IsSorted e fs, All-put_entry (size f) e fs, All-le (size f) (size e) fs)

  sort_entries-IsSorted : (es : List (PrefixEntry W)) → IsSorted (sort_entries es)
  unfolding sort_entries
  sort_entries-IsSorted [] = tt
  sort_entries-IsSorted (e ∷ es) = put_entry-IsSorted e (sort_entries es) (sort_entries-IsSorted es)

module _ {W : Type 0} ⦃w : Eq W⦄ where
  All-without_entry :
      (n : ℕ) (p : Prefix) (pw : W) (es : List (PrefixEntry W))
      → All (λ f. size f ≤ n) es
      → All (λ f. size f ≤ n) (without_entry p pw es).0
  unfolding without_entry
  All-without_entry n p pw [] h = tt
  All-without_entry n p pw (e ∷ es) h = ground (arith, All-without_entry n p pw es)

  without_entry-IsSorted :
      (p : Prefix) (pw : W) (es : List (PrefixEntry W))
      → IsSorted es
      → IsSorted (without_entry p pw es).0
  unfolding without_entry
  without_entry-IsSorted p pw [] h = tt
  without_entry-IsSorted p pw (e ∷ es) h =
      ground (arith, without_entry-IsSorted p pw es, All-without_entry (size e) p pw es)

  -- AttachPrefix and DetachPrefix keep the prefixes sorted, the longest first.
  pub attach_prefix-IsSorted :
      (p : Prefix) (pw : W) (t : Table W)
      → IsSorted t.prefixes
      → IsSorted (attach_prefix p pw t).prefixes × IsSorted (detach_prefix p pw t).0.prefixes
  unfolding attach_prefix detach_prefix
  attach_prefix-IsSorted p pw t h = ground (
    arith,
    sort_entries-IsSorted (t.prefixes ++ record { prefix = masked p; pw = pw } ∷ []),
    without_entry-IsSorted (masked p) pw t.prefixes,
  )

  -- The entries that a detaching writer leaves.
  abbrev pub Serves : Prefix → List (PrefixEntry W) → Type 0
  Serves p es = (e : PrefixEntry W) × IsIn e es × (e.prefix ≡ p)

  without_entry-Serves :
      (p : Prefix) (pw : W) (es : List (PrefixEntry W))
      → (without_entry p pw es).1 ≡ true
      → Serves p (without_entry p pw es).0
  unfolding without_entry
  without_entry-Serves p pw [] h = absurd (ground arith)
  without_entry-Serves p pw (e ∷ es) h = elim (Bool-cases (is_entry p pw e)) [
    | inl gone ↦ rw (gone, without_entry) (without_entry-Serves p pw es (ground (arith, gone, h)))
    | inr kept ↦
        rw (kept, without_entry)
          (elim (Bool-cases (same_prefix e.prefix p)) [
            | inl same ↦ (e, inl refl, (same_prefix_iff e.prefix p).0 same)
            | inr other ↦
                let (f, there, is_p) =
                  without_entry-Serves p pw es (ground (arith, kept, other, h)) in
                (f, inr there, is_p)
          ])
  ]

  without_entry-left :
      (p : Prefix) (pw : W) (es : List (PrefixEntry W)) (f : PrefixEntry W)
      → IsIn f (without_entry p pw es).0
      → IsIn f es × (is_entry p pw f ≡ false) × (f.prefix ≡ p → (without_entry p pw es).1 ≡ true)
  unfolding without_entry
  without_entry-left p pw [] f = λ h. absurd h
  without_entry-left p pw (e ∷ es) f = elim (Bool-cases (is_entry p pw e)) [
    | inl gone ↦
        rw (gone, without_entry)
          (λ h.
            let (there, is_other, serves) = without_entry-left p pw es f h in
            (inr there, is_other, serves))
    | inr kept ↦
        rw (kept, without_entry)
          (λ h. elim h [
            | inl same ↦ (
              inl same,
              subst (λ g. is_entry p pw g ≡ false) same kept,
              (λ is_p. ground (arith, same_prefix_iff e.prefix p, ap (λ g. g.prefix) same, is_p)),
            )
            | inr there ↦
                let (inside, is_other, serves) = without_entry-left p pw es f there in
                (inr inside, is_other, (λ is_p. ground (arith, serves is_p)))
          ])
  ]

  without_entry-kept :
      (p : Prefix) (pw : W) (es : List (PrefixEntry W)) (f : PrefixEntry W)
      → is_entry p pw f ≡ false
      → IsIn f es
      → IsIn f (without_entry p pw es).0
  unfolding without_entry
  without_entry-kept p pw [] f other = λ h. absurd h
  without_entry-kept p pw (e ∷ es) f other = elim (Bool-cases (is_entry p pw e)) [
    | inl gone ↦
        rw (gone, without_entry)
          (λ h. elim h [
            | inl same ↦
                absurd (ground (arith, gone, subst (λ g. is_entry p pw g ≡ false) (sym same) other))
            | inr there ↦ without_entry-kept p pw es f other there
          ])
    | inr kept ↦
        rw (kept, without_entry)
          (λ h. elim h [
            | inl same ↦ inl same
            | inr there ↦ inr (without_entry-kept p pw es f other there)
          ])
  ]

  -- The entry of a writer for a prefix.
  abbrev pub Announces : Prefix → W → PrefixEntry W → Type 0
  Announces p pw f = (f.prefix ≡ p) × (f.pw ≡ pw)

  is_entry-Announces :
      (p : Prefix) (pw : W) (f : PrefixEntry W) → (is_entry p pw f ≡ true) ↔ Announces p pw f
  is_entry-Announces p pw f = ground (arith, same_prefix_iff f.prefix p, w.beq_iff f.pw pw)

  -- DetachPrefix leaves exactly the entries that were there and are not the one of this writer for
  -- this masked prefix, with the hosts, the pool and the own networks as they were; it reports true
  -- exactly when some entry for the prefix is left.
  pub detach_prefix-Serves :
      (p : Prefix) (pw : W) (t : Table W)
      → ((f : PrefixEntry W)
          → IsIn f (detach_prefix p pw t).0.prefixes
            ↔ (IsIn f t.prefixes × (¬ Announces (masked p) pw f)))
        × (((detach_prefix p pw t).1 ≡ true) ↔ Serves (masked p) (detach_prefix p pw t).0.prefixes)
        × ((detach_prefix p pw t).0.hosts ≡ t.hosts)
        × ((detach_prefix p pw t).0.pool ≡ t.pool)
        × ((detach_prefix p pw t).0.own ≡ t.own)
  unfolding detach_prefix
  detach_prefix-Serves p pw t = (
    (λ f. (
      (λ h.
          let (there, is_other, serves) = without_entry-left (masked p) pw t.prefixes f h in
          (there, (λ mine. ground (arith, is_other, (is_entry-Announces (masked p) pw f).1 mine)))),
      (λ h.
          let other : is_entry (masked p) pw f ≡ false =
            elim (Bool-cases (is_entry (masked p) pw f)) [
              | inl mine ↦ absurd (h.1 ((is_entry-Announces (masked p) pw f).0 mine))
              | inr other ↦ other
            ] in
          without_entry-kept (masked p) pw t.prefixes f other h.0),
    )),
    (
      without_entry-Serves (masked p) pw t.prefixes,
      (λ s.
          let (e, there, is_p) = s in
          let (inside, is_other, serves) = without_entry-left (masked p) pw t.prefixes e there in
          serves is_p),
    ),
    refl,
    refl,
    refl,
  )
