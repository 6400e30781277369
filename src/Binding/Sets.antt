-- ===== src/Binding/Sets.antt =====
-- What Binding.Normalize keeps of the lists of a statement: their elements.
use bound_gate_vpn.Prelude.{
  ◌≡◌, ◌↔◌, refl, arith, Bool, true, List, [], ◌∷◌, Bytes, same_bytes, same_bytes_iff, inl, inr,
  ◌⊎◌, IsIn, Bool-cases, sym, ◌∙◌, subst,
}
use bound_gate_vpn.Prelude.Text.{text_less, put_text, sort_texts}
use bound_gate_vpn.Netip.{same_prefix_iff}
use bound_gate_vpn.Registry.{Announced}
use bound_gate_vpn.Registry.Changes.{same_list, same_announced}
use bound_gate_vpn.Registry.Entries.{Texts}
use bound_gate_vpn.Binding.Statements.{
  compact_from, compact, announced_less, put_announced, sort_announced,
}

-- The two lists have the same elements.
abbrev pub SameSet : {A : Type 0} → List A → List A → Type 0
SameSet {A} xs ys = (x : A) → IsIn x xs ↔ IsIn x ys

pub same_announced_iff : (p q : Announced) → (same_announced p q ≡ true) ↔ (p ≡ q)
same_announced_iff p q =
    ground (arith, same_prefix_iff p.prefix q.prefix, same_bytes_iff p.mode q.mode)

swap_front :
    {A : Type 0} (x y z : A) (ys : List A)
    → (((x ≡ z) ⊎ ((y ≡ z) ⊎ IsIn z ys)) → ((y ≡ z) ⊎ ((x ≡ z) ⊎ IsIn z ys)))
swap_front x y z ys (inl e) = inr (inl e)
swap_front x y z ys (inr (inl e)) = inl e
swap_front x y z ys (inr (inr i)) = inr (inr i)

module _ {A : Type 0} (same : A → A → Bool) (sound : (a b : A) → (same a b ≡ true) ↔ (a ≡ b)) where
  pub same_list_lem : (xs ys : List A) → same_list same xs ys ≡ true → xs ≡ ys
  same_list_lem [] [] h = refl
  same_list_lem [] (y ∷ ys) h = absurd (ground arith)
  same_list_lem (x ∷ xs) [] h = absurd (ground arith)
  same_list_lem (x ∷ xs) (y ∷ ys) h = ground (arith, sound x y, same_list_lem xs ys)

  compact_from-IsIn :
      (x : A) (ys : List A) (z : A)
      → ((x ≡ z) ⊎ IsIn z ys) ↔ ((x ≡ z) ⊎ IsIn z (compact_from same x ys))
  unfolding compact_from
  compact_from-IsIn x [] z = ((λ h. h), (λ h. h))
  compact_from-IsIn x (y ∷ ys) z = elim (Bool-cases (same x y)) [
    | inl e ↦
        let eq = (sound x y).0 e in
        let ih = compact_from-IsIn x ys z in
        rw (e, compact_from)
          (
            (λ h. elim h [
              | inl a ↦ inl a
              | inr (inl b) ↦ inl (eq ∙ b)
              | inr (inr i) ↦ ih.0 (inr i)
            ]),
            (λ h. elim (ih.1 h) [ inl a ↦ inl a | inr i ↦ inr (inr i) ]),
          )
    | inr e ↦
        let ih = compact_from-IsIn y ys z in
        rw (e, compact_from)
          (
            (λ h. elim h [ inl a ↦ inl a | inr i ↦ inr (ih.0 i) ]),
            (λ h. elim h [ inl a ↦ inl a | inr i ↦ inr (ih.1 i) ]),
          )
  ]

  compact-IsIn : (xs : List A) → SameSet xs (compact same xs)
  unfolding compact
  compact-IsIn [] z = ((λ h. h), (λ h. h))
  compact-IsIn (x ∷ xs) z = compact_from-IsIn x xs z

put_text-IsIn : (s : Bytes) (ts : List Bytes) (z : Bytes) → IsIn z (s ∷ ts) ↔ IsIn z (put_text s ts)
put_text-IsIn s [] z = ((λ h. h), (λ h. h))
put_text-IsIn s (t ∷ ts) z = elim (Bool-cases (text_less t s)) [
  | inl e ↦
      let ih = put_text-IsIn s ts z in
      rw (e) (
        (λ h. elim (swap_front s t z ts h) [ inl a ↦ inl a | inr i ↦ inr (ih.0 i) ]),
        (λ h. swap_front t s z ts (elim h [ inl a ↦ inl a | inr i ↦ inr (ih.1 i) ])),
      )
  | inr e ↦ rw (e) ((λ h. h), (λ h. h))
]

sort_texts-IsIn : (ts : List Bytes) → SameSet ts (sort_texts ts)
sort_texts-IsIn [] z = ((λ h. h), (λ h. h))
sort_texts-IsIn (t ∷ ts) z =
    let ih = sort_texts-IsIn ts z in
    let put = put_text-IsIn t (sort_texts ts) z in
    (
      (λ h. put.0 (elim h [ inl a ↦ inl a | inr i ↦ inr (ih.0 i) ])),
      (λ h. elim (put.1 h) [ inl a ↦ inl a | inr i ↦ inr (ih.1 i) ]),
    )

module _ (texts : Texts) where
  put_announced-IsIn :
      (p : Announced) (qs : List Announced) (z : Announced)
      → IsIn z (p ∷ qs) ↔ IsIn z (put_announced texts p qs)
  unfolding put_announced
  put_announced-IsIn p [] z = ((λ h. h), (λ h. h))
  put_announced-IsIn p (q ∷ qs) z = elim (Bool-cases (announced_less texts q p)) [
    | inl e ↦
        let ih = put_announced-IsIn p qs z in
        rw (e, put_announced)
          (
            (λ h. elim (swap_front p q z qs h) [ inl a ↦ inl a | inr i ↦ inr (ih.0 i) ]),
            (λ h. swap_front q p z qs (elim h [ inl a ↦ inl a | inr i ↦ inr (ih.1 i) ])),
          )
    | inr e ↦ rw (e, put_announced) ((λ h. h), (λ h. h))
  ]

  sort_announced-IsIn : (ps : List Announced) → SameSet ps (sort_announced texts ps)
  unfolding sort_announced
  sort_announced-IsIn [] z = ((λ h. h), (λ h. h))
  sort_announced-IsIn (p ∷ ps) z =
      let ih = sort_announced-IsIn ps z in
      let put = put_announced-IsIn p (sort_announced texts ps) z in
      (
        (λ h. put.0 (elim h [ inl a ↦ inl a | inr i ↦ inr (ih.0 i) ])),
        (λ h. elim (put.1 h) [ inl a ↦ inl a | inr i ↦ inr (ih.1 i) ]),
      )

-- Two lists whose images keep their elements, and are equal, have the same elements.
pub same_images :
    {A : Type 0} (f : List A → List A) (keeps : (xs : List A) → SameSet xs (f xs)) (xs ys : List A)
    → f xs ≡ f ys
    → SameSet xs ys
same_images f keeps xs ys e z = (
  (λ i. (keeps ys z).1 (subst (λ l. IsIn z l) e ((keeps xs z).0 i))),
  (λ i. (keeps xs z).1 (subst (λ l. IsIn z l) (sym e) ((keeps ys z).0 i))),
)

pub normal_texts-SameSet : (xs : List Bytes) → SameSet xs (compact same_bytes (sort_texts xs))
normal_texts-SameSet xs z =
    let sorted = sort_texts-IsIn xs z in
    let short = compact-IsIn same_bytes same_bytes_iff (sort_texts xs) z in
    ((λ i. short.0 (sorted.0 i)), (λ i. sorted.1 (short.1 i)))

pub normal_announced-SameSet :
    (texts : Texts) (ps : List Announced)
    → SameSet ps (compact same_announced (sort_announced texts ps))
normal_announced-SameSet texts ps z =
    let sorted = sort_announced-IsIn texts ps z in
    let short = compact-IsIn same_announced same_announced_iff (sort_announced texts ps) z in
    ((λ i. short.0 (sorted.0 i)), (λ i. sorted.1 (short.1 i)))
