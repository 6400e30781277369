-- ===== src/Flow/Fragments/Recorded.antt =====
-- What the entries of the fragment table of Table.Handle stand for.
use bound_gate_vpn.Prelude.{
  ℕ, ◌+◌, ◌≡◌, ◌≤◌, refl, sym, ap, subst, arith, true, false, ◌&&◌, Option, Option-cases,
  Bool-cases, none, some, inl, inr, ltb, Bytes, List, [], ◌∷◌, ◌++◌, length, IsIn,
}
use bound_gate_vpn.Prelude.Assoc.{lookup}
use bound_gate_vpn.Netparse.Header.{Header, is_fragment}
use bound_gate_vpn.Flow.State.{
  Table, Decider, Origin, key_eq, FragKey, FragState, frag_eq, frag_ttl, max_frags, min_frag_offset,
  new_table, pass,
}
use bound_gate_vpn.Flow.Handle.{
  Done, frag_key, is_pass, follow, fragment, handle_whole, add_frag, remember_frag, handle,
}
use bound_gate_vpn.Flow.Sweep.{expire}
use bound_gate_vpn.Flow.Fragments.{
  Opening, opened_by, Run, begun, received, expired, closed, decided_anew, heard,
}
use bound_gate_vpn.Flow.Fragments.Kept.{
  Frags, lookup-IsIn, insert-IsIn, handle_whole-frags, follow-IsIn, expire-IsIn, close_where-frags,
  reevaluate-frags,
}

-- Every entry of the fragment table is a first fragment that passed.
abbrev Recorded : Frags → List Opening → Type 0
Recorded fs l =
    (x : FragKey × FragState)
    → IsIn x fs
    → (o : Opening) × IsIn o l
      × (o.key ≡ x.0)
      × (o.entry ≡ x.1.entry)
      × (x.1.until ≡ o.time + frag_ttl)

IsIn-append : (ls l : List Opening) (o : Opening) → IsIn o l → IsIn o (ls ++ l)
IsIn-append [] l o i = i
IsIn-append (k ∷ ls) l o i = inr (IsIn-append ls l o i)

-- A step whose entries were there before, or that puts a recorded one in.
Recorded-kept :
    (fs gs : Frags) (ls l : List Opening)
    → ((x : FragKey × FragState) → IsIn x gs → IsIn x fs)
    → Recorded fs l
    → Recorded gs (ls ++ l)
Recorded-kept fs gs ls l sub r x i =
    let (o, inside, key, entry, until) = r x (sub x i) in
    (o, IsIn-append ls l o inside, key, entry, until)

put_frag-Recorded :
    (h : Header) (r now : ℕ) (t : Table) (l : List Opening)
    → Recorded t.frags l
    → Recorded (add_frag t h r now).frags (record { key = frag_key h; entry = r; time = now } ∷ l)
put_frag-Recorded h r now t l rec =
    let o : Opening = record { key = frag_key h; entry = r; time = now } in
    let f : FragState = record { entry = r; until = now + frag_ttl } in
    elim (Bool-cases (ltb (length t.frags) max_frags)) [
      | inr full ↦ rw full (Recorded-kept t.frags t.frags (o ∷ []) l (λ x i. i) rec)
      | inl room ↦ rw room (λ x i. elim (insert-IsIn (frag_key h) f t.frags x i) [
        | inl new ↦
            (o, inl refl, ap (λ y. y.0) new, ap (λ y. y.1.entry) new, sym (ap (λ y. y.1.until) new))
        | inr old ↦ Recorded-kept t.frags t.frags (o ∷ []) l (λ y j. j) rec x old
      ])
    ]

remember_frag_lem :
    (h : Header) (now : ℕ) (d : Done)
    → (remember_frag h now d).entry ≡ d.entry × (remember_frag h now d).outcome ≡ d.outcome
unfolding remember_frag
remember_frag_lem h now d = ground arith

opened_by-eq :
    (h : Header) (now : ℕ) (c d : Done)
    → c.entry ≡ d.entry
    → c.outcome ≡ d.outcome
    → opened_by h now c ≡ opened_by h now d
unfolding opened_by
opened_by-eq h now c d entry outcome = ground (arith, entry, outcome)

remember_frag-Recorded :
    (h : Header) (now : ℕ) (d : Done) (l : List Opening)
    → is_fragment h ≡ false
    → Recorded d.table.frags l
    → Recorded (remember_frag h now d).table.frags (opened_by h now d ++ l)
unfolding remember_frag opened_by
remember_frag-Recorded h now d l first rec = elim (Option-cases d.entry) [
  | inl nothing ↦ rw (nothing, remember_frag, opened_by) rec
  | inr (r, there) ↦ elim (Bool-cases (is_pass d.outcome && h.more_fragments)) [
    | inl more ↦
        rw (there, remember_frag, opened_by)
          (rw more (rw first (put_frag-Recorded h r now d.table l rec)))
    | inr other ↦ rw (there, remember_frag, opened_by) (rw other (rw first rec))
  ]
]

handle-Recorded :
    (t : Table) (id : Bytes) (h : Header) (pkt : Bytes) (origin : Origin) (dec : Decider) (now : ℕ)
    (l : List Opening)
    → Recorded t.frags l
    → Recorded
        (handle t id h pkt origin dec now).table.frags
        (opened_by h now (handle t id h pkt origin dec now) ++ l)
unfolding handle fragment
handle-Recorded t id h pkt origin dec now l rec = elim (Bool-cases (is_fragment h)) [
  | inl part ↦
      let f = lookup (frag_key h) t.frags in
      rw (part, handle)
        (Recorded-kept t.frags (follow t h (length pkt) now f).table.frags
          (opened_by h now (follow t h (length pkt) now f)) l (follow-IsIn t h (length pkt) now f)
          rec)
  | inr whole ↦
      let d = handle_whole t id h pkt origin dec now in
      let (entry, outcome) = remember_frag_lem h now d in
      let same = handle_whole-frags t id h pkt origin dec now in
      rw (whole, handle)
        (rw (opened_by-eq h now (remember_frag h now d) d entry outcome)
          (remember_frag-Recorded h now d l whole (subst (λ fs. Recorded fs l) (sym same) rec)))
]

Run-Recorded : (t : Table) (l : List Opening) → Run t l → Recorded t.frags l
unfolding new_table
Run-Recorded _ _ (begun timeouts heap) = λ x i. absurd i
Run-Recorded _ _ (received t l r id h pkt origin dec now) =
    handle-Recorded t id h pkt origin dec now l (Run-Recorded t l r)
Run-Recorded _ _ (expired t l r now) =
    Recorded-kept t.frags (expire t now).0.frags [] l (expire-IsIn t now) (Run-Recorded t l r)
Run-Recorded _ _ (closed t l r test why now) =
    rw (close_where-frags t test why now) (Run-Recorded t l r)
Run-Recorded _ _ (decided_anew t l r dec now) = rw (reevaluate-frags t dec now) (Run-Recorded t l r)
Run-Recorded _ _ (heard t l r on) = Run-Recorded t l r

follow-IsPermitted :
    (t : Table) (h : Header) (n now : ℕ) (o : Option FragState)
    → (follow t h n now o).outcome ≡ pass
    → (f : FragState) × (o ≡ some f)
      × (now ≤ f.until)
      × ((t.heap f.entry).allowed ≡ true)
      × (min_frag_offset ≤ h.frag_offset)
unfolding follow
follow-IsPermitted t h n now none o = absurd (ground arith)
follow-IsPermitted t h n now (some f) o = (f, refl, ground arith, ground arith, ground arith)

-- In any run of a table, Handle lets a later fragment pass only if a first fragment of the same
-- packet (the same addresses, protocol and ID, and with more to come) passed Handle before, at most
-- ten seconds ago, while the flow that it belonged to is still allowed, and only if the fragment
-- starts 24 bytes or more into its packet's payload.
pub fragment-IsPermitted :
    (t : Table) (l : List Opening) (id : Bytes) (h : Header) (pkt : Bytes) (origin : Origin)
    (dec : Decider) (now : ℕ)
    → Run t l
    → is_fragment h ≡ true
    → (handle t id h pkt origin dec now).outcome ≡ pass
    → (o : Opening) × IsIn o l
      × (o.key ≡ frag_key h)
      × (now ≤ o.time + 10_000_000_000)
      × ((t.heap o.entry).allowed ≡ true)
      × (24 ≤ h.frag_offset)
unfolding handle fragment
fragment-IsPermitted t l id h pkt origin dec now run part passes =
    let known = lookup (frag_key h) t.frags in
    let behind : (follow t h (length pkt) now known).outcome ≡ pass =
      ground (arith, part, passes) in
    let (f, found, early, allowed, late) = follow-IsPermitted t h (length pkt) now known behind in
    let (o, inside, key, entry, until) =
      Run-Recorded t l run (frag_key h, f) (lookup-IsIn (frag_key h) f t.frags found) in
    (
      o,
      inside,
      key,
      omega (arith, early, until),
      subst (λ r. (t.heap r).allowed ≡ true) (sym entry) allowed,
      late,
    )
