-- ===== src/Flow/Fragments/Kept.antt =====
-- Which calls leave the fragment table of Table.Handle alone, and which only take from it.
use bound_gate_vpn.Prelude.{
  ℕ, ◌≡◌, refl, ◌∙◌, ap, subst, arith, Bool, not, ◌||◌, Option, Option-cases, Bool-cases, none,
  some, inl, inr, ◌⊎◌, ltb, leb, if◌then◌else◌, ◌=?◌, Bytes, List, [], ◌∷◌, length, IsIn,
}
use bound_gate_vpn.Prelude.Assoc.{lookup, insert, remove}
use bound_gate_vpn.Netparse.Header.{Header}
use bound_gate_vpn.Flow.State.{
  Table, Entry, Decider, Origin, Key, key_eq, key_of, src_of, FragKey, FragState, frag_eq,
  max_entries, max_per_peer, max_local, min_frag_offset, held,
}
use bound_gate_vpn.Flow.Settle.{known_flow-Settled, first_packet-Settled}
use bound_gate_vpn.Flow.Handle.{
  frag_key, follow, related, allocate, new_entry, new_flow, unknown_flow, handle_whole,
}
use bound_gate_vpn.Flow.Sweep.{
  expire, close_where, reevaluate, sweep, forget, report, say_expired, say_closed, say_changed,
  judge_all, live_frags,
}

abbrev pub Frags : Type 0
Frags = List (FragKey × FragState)

pub lookup-IsIn : (k : FragKey) (f : FragState) (fs : Frags) → lookup k fs ≡ some f → IsIn (k, f) fs
unfolding lookup
lookup-IsIn k f [] h = absurd (ground arith)
lookup-IsIn k f ((j, g) ∷ fs) h = elim (Bool-cases (j =? k)) [
  | inl e ↦
      let key : j ≡ k = (frag_eq.beq_iff j k).0 e in
      let state : g ≡ f = ground (arith, e, h) in
      inl (ap (λ i. (i, g)) key ∙ ap (λ s. (k, s)) state)
  | inr e ↦ inr (lookup-IsIn k f fs (ground (arith, e, h)))
]

pub insert-IsIn :
    (k : FragKey) (f : FragState) (fs : Frags) (x : FragKey × FragState)
    → IsIn x (insert k f fs)
    → ((k, f) ≡ x) ⊎ IsIn x fs
unfolding insert
insert-IsIn k f [] x = λ i. i
insert-IsIn k f ((j, g) ∷ fs) x = elim (Bool-cases (j =? k)) [
  | inl e ↦ rw (e, insert) (λ i. elim i [ inl a ↦ inl a | inr b ↦ inr (inr b) ])
  | inr e ↦
      rw (e, insert)
        (λ i. elim i [
          | inl a ↦ inr (inl a)
          | inr b ↦ elim (insert-IsIn k f fs x b) [ inl c ↦ inl c | inr d ↦ inr (inr d) ]
        ])
]

remove-IsIn :
    (k : FragKey) (fs : Frags) (x : FragKey × FragState) → IsIn x (remove k fs) → IsIn x fs
unfolding remove
remove-IsIn k [] x = λ i. i
remove-IsIn k ((j, g) ∷ fs) x = elim (Bool-cases (j =? k)) [
  | inl e ↦ rw (e, remove) (λ i. inr (remove-IsIn k fs x i))
  | inr e ↦ rw (e, remove) (λ i. elim i [ inl a ↦ inl a | inr b ↦ inr (remove-IsIn k fs x b) ])
]

live_frags-IsIn :
    (now : ℕ) (fs : Frags) (x : FragKey × FragState) → IsIn x (live_frags now fs) → IsIn x fs
unfolding live_frags
live_frags-IsIn now [] x = λ i. i
live_frags-IsIn now ((j, g) ∷ fs) x = elim (Bool-cases (ltb g.until now)) [
  | inl e ↦ rw (e, live_frags) (λ i. inr (live_frags-IsIn now fs x i))
  | inr e ↦
      rw (e, live_frags) (λ i. elim i [ inl a ↦ inl a | inr b ↦ inr (live_frags-IsIn now fs x b) ])
]

-- What leaves the fragment table alone.
allocate-frags : (t : Table) (k : Key) (p : Bytes) → (allocate t k p).frags ≡ t.frags
unfolding allocate
allocate-frags t k p = refl

new_flow-frags :
    (t : Table) (id : Bytes) (h : Header) (pkt : Bytes) (origin : Origin) (dec : Decider) (now : ℕ)
    → (new_flow t id h pkt origin dec now).table.frags ≡ t.frags
unfolding new_flow
new_flow-frags t id h pkt origin dec now =
    elim (Bool-cases (
      leb max_entries (length t.flows)
      || leb (if origin.local then max_local else max_per_peer)
          (held t.per_peer origin.principal))) [
            | inl full ↦ rw (full, new_flow) refl
            | inr room ↦
                rw (room, new_flow)
                  ((first_packet-Settled (allocate t (key_of h) origin.principal)
                      (new_entry id h origin now) h pkt dec now).frags
                    ∙ allocate-frags t (key_of h) origin.principal)
          ]

unknown_flow-frags :
    (t : Table) (id : Bytes) (h : Header) (pkt : Bytes) (origin : Origin) (dec : Decider) (now : ℕ)
    → (unknown_flow t id h pkt origin dec now).table.frags ≡ t.frags
unfolding unknown_flow
unknown_flow-frags t id h pkt origin dec now = elim (Option-cases (related t h pkt)) [
  | inl none_such ↦ rw (none_such, unknown_flow) (new_flow-frags t id h pkt origin dec now)
  | inr (r, found) ↦ rw (found, unknown_flow) refl
]

pub handle_whole-frags :
    (t : Table) (id : Bytes) (h : Header) (pkt : Bytes) (origin : Origin) (dec : Decider) (now : ℕ)
    → (handle_whole t id h pkt origin dec now).table.frags ≡ t.frags
unfolding handle_whole
handle_whole-frags t id h pkt origin dec now = elim (Option-cases (lookup (key_of h) t.flows)) [
  | inl fresh ↦ rw (fresh, handle_whole) (unknown_flow-frags t id h pkt origin dec now)
  | inr (r, known) ↦
      rw (known, handle_whole) (known_flow-Settled t (t.heap r) h pkt (src_of h) dec now).frags
]

sweep-frags :
    (test : Entry → Bool) (flows : List (Key × ℕ)) (t : Table)
    → (sweep test flows t).table.frags ≡ t.frags
unfolding sweep forget
sweep-frags test [] t = refl
sweep-frags test ((k, r) ∷ flows) t = elim (Bool-cases (test (t.heap r))) [
  | inl gone ↦ rw (gone, sweep) (sweep-frags test flows (forget t r))
  | inr stays ↦ rw (stays, sweep) (sweep-frags test flows t)
]

report-frags :
    (say : Table → Entry → Table) (rs : List ℕ) (t : Table)
    → ((t' : Table) (e : Entry) → (say t' e).frags ≡ t'.frags)
    → (report say rs t).frags ≡ t.frags
unfolding report
report-frags say [] t h = refl
report-frags say (r ∷ rs) t h = report-frags say rs (say t (t.heap r)) h ∙ h t (t.heap r)

say_expired-frags : (now : ℕ) (t : Table) (e : Entry) → (say_expired now t e).frags ≡ t.frags
say_expired-frags now t e = ground arith

say_closed-frags :
    (why : Bytes) (now : ℕ) (t : Table) (e : Entry) → (say_closed why now t e).frags ≡ t.frags
say_closed-frags why now t e = ground arith

judge_all-frags :
    (dec : Decider) (flows : List (Key × ℕ)) (t : Table)
    → (judge_all dec flows t).table.frags ≡ t.frags
unfolding judge_all
judge_all-frags dec [] t = refl
judge_all-frags dec ((k, r) ∷ flows) t = grind (arith, judge_all-frags dec flows)

pub follow-IsIn :
    (t : Table) (h : Header) (n now : ℕ) (f : Option FragState) (x : FragKey × FragState)
    → IsIn x (follow t h n now f).table.frags
    → IsIn x t.frags
unfolding follow
follow-IsIn t h n now none x = λ i. i
follow-IsIn t h n now (some f) x =
    elim (Bool-cases
      (ltb f.until now || not (t.heap f.entry).allowed || ltb h.frag_offset min_frag_offset)) [
        | inl bad ↦ rw (bad, follow) (λ i. i)
        | inr good ↦
            rw (good, follow)
              (elim (Bool-cases h.more_fragments) [
                | inl more ↦ rw more (λ i. i)
                | inr last ↦ rw last (remove-IsIn (frag_key h) t.frags x)
              ])
      ]

pub expire-IsIn :
    (t : Table) (now : ℕ) (x : FragKey × FragState) → IsIn x (expire t now).0.frags → IsIn x t.frags
unfolding expire
expire-IsIn t now x i =
    live_frags-IsIn now t.frags x
      (subst (λ fs. IsIn x fs) (report-frags (say_expired now) _ _ (say_expired-frags now)) i)

pub close_where-frags :
    (t : Table) (test : Entry → Bool) (why : Bytes) (now : ℕ)
    → (close_where t test why now).0.frags ≡ t.frags
unfolding close_where
close_where-frags t test why now =
    report-frags (say_closed why now) _ _ (say_closed-frags why now) ∙ sweep-frags test t.flows t

pub reevaluate-frags :
    (t : Table) (dec : Decider) (now : ℕ) → (reevaluate t dec now).0.frags ≡ t.frags
unfolding reevaluate
reevaluate-frags t dec now =
    report-frags (say_changed now) _ _ (λ t' e. refl) ∙ judge_all-frags dec t.flows t
