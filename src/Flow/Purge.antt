-- ===== src/Flow/Purge.antt =====
-- Which flows Expire and CloseWhere leave.
use bound_gate_vpn.Prelude.{
  ℕ, ◌+◌, ◌-◌, ◌≡◌, ◌≢◌, refl, ◌∙◌, sym, ap, subst, Bool, true, false, arith, ltb, Bytes, List, [],
  ◌∷◌, length, Bool-cases, inl, inr, IsIn, bytes_eq,
}
use bound_gate_vpn.Flow.State.{Table, Entry, Key, update}
use bound_gate_vpn.Flow.Totals.{Flows, Absent, Distinct}
use bound_gate_vpn.Flow.Sweep.{
  timeout, forget, Swept, sweep, swept_table, report, say_expired, expire, say_closed, close_where,
  live_frags,
}

-- The flows that a walk keeps: those that the test spares, with their entries as they were.
record Spares (test : Entry → Bool) (t : Table) (flows : Flows) (s : Swept) : Type 0 where
  inside :
      (k : Key) (r : ℕ)
      → IsIn (k, r) s.kept
      → IsIn (k, r) flows × (test (t.heap r) ≡ false) × (s.table.heap r ≡ t.heap r)
  outside : (k : Key) (r : ℕ) → IsIn (k, r) flows → test (t.heap r) ≡ false → IsIn (k, r) s.kept
  heap : (r : ℕ) → Absent r flows → s.table.heap r ≡ t.heap r
  size : length s.closed + length s.kept ≡ length flows

Absent-IsIn : (k : Key) (r s : ℕ) (flows : Flows) → Absent s flows → IsIn (k, r) flows → r ≢ s
Absent-IsIn k r s [] a h = absurd h
Absent-IsIn k r s ((j, q) ∷ flows) a (inl same) = λ e. a.0 (ap (λ x. x.1) same ∙ e)
Absent-IsIn k r s ((j, q) ∷ flows) a (inr there) = Absent-IsIn k r s flows a.1 there

forget-heap : (t : Table) (r s : ℕ) → r ≢ s → (forget t s).heap r ≡ t.heap r
unfolding forget update
forget-heap t r s h = ground arith

keep-Spares :
    (test : Entry → Bool) (t : Table) (k : Key) (r : ℕ) (flows : Flows)
    → Absent r flows
    → Spares test t flows (sweep test flows t)
    → test (t.heap r) ≡ false
    → Spares test t ((k, r) ∷ flows) (sweep test ((k, r) ∷ flows) t)
unfolding sweep
keep-Spares test t k r flows fresh l stays =
    rw (stays, sweep)
      (record {
        inside = λ j q h. elim h [
          | inl same ↦
              let is_r : r ≡ q = ap (λ x. x.1) same in
              (
                inl same,
                subst (λ x. test (t.heap x) ≡ false) is_r stays,
                subst (λ x. (sweep test flows t).table.heap x ≡ t.heap x) is_r (l.heap r fresh),
              )
          | inr there ↦ let (a, b, c) = l.inside j q there in (inr a, b, c)
        ];
        outside = λ j q h spared. elim h [
          | inl same ↦ inl same
          | inr there ↦ inr (l.outside j q there spared)
        ];
        heap = λ q a. l.heap q a.1;
        size = omega (arith, l.size);
      })

drop-Spares :
    (test : Entry → Bool) (t : Table) (k : Key) (r : ℕ) (flows : Flows)
    → Absent r flows
    → Spares test (forget t r) flows (sweep test flows (forget t r))
    → test (t.heap r) ≡ true
    → Spares test t ((k, r) ∷ flows) (sweep test ((k, r) ∷ flows) t)
unfolding sweep
drop-Spares test t k r flows fresh l goes =
    rw (goes, sweep)
      (record {
        inside = λ j q there.
            let (a, b, c) = l.inside j q there in
            let same = forget-heap t q r (Absent-IsIn j q r flows fresh a) in
            (inr a, subst (λ e. test e ≡ false) same b, c ∙ same);
        outside = λ j q h spared. elim h [
          | inl same ↦ absurd (
              ground (
                arith,
                goes,
                spared,
                subst (λ x. test (t.heap x) ≡ true) (ap (λ x. x.1) same) goes,
              ))
          | inr there ↦
              let same = forget-heap t q r (Absent-IsIn j q r flows fresh there) in
              l.outside j q there (subst (λ e. test e ≡ false) (sym same) spared)
        ];
        heap = λ q a. l.heap q a.1 ∙ forget-heap t q r (λ same. a.0 (sym same));
        size = omega (arith, l.size);
      })

sweep-Spares :
    (test : Entry → Bool) (flows : Flows) (t : Table)
    → Distinct flows
    → Spares test t flows (sweep test flows t)
unfolding sweep
sweep-Spares test [] t d = record {
  inside = λ k r h. absurd h;
  outside = λ k r h spared. absurd h;
  heap = λ r a. refl;
  size = refl;
}
sweep-Spares test ((k, r) ∷ flows) t d = elim (Bool-cases (test (t.heap r))) [
  | inl goes ↦ drop-Spares test t k r flows d.0 (sweep-Spares test flows (forget t r) d.1) goes
  | inr stays ↦ keep-Spares test t k r flows d.0 (sweep-Spares test flows t d.1) stays
]

-- Saying what happened leaves the flows and the entries.
abbrev pub SameFlows : Table → Table → Type 0
SameFlows t t' = (t'.flows ≡ t.flows) × (t'.heap ≡ t.heap)

report-SameFlows :
    (say : Table → Entry → Table) (rs : List ℕ) (t : Table)
    → ((t : Table) (e : Entry) → SameFlows t (say t e))
    → SameFlows t (report say rs t)
unfolding report
report-SameFlows say [] t quiet = (refl, refl)
report-SameFlows say (r ∷ rs) t quiet =
    let (flows, heap) = report-SameFlows say rs (say t (t.heap r)) quiet in
    (flows ∙ (quiet t (t.heap r)).0, heap ∙ (quiet t (t.heap r)).1)

-- A flow that stays, with its entry as it was.
abbrev pub Survives : (Entry → Bool) → Table → Table → Type 0
Survives test t t' =
    (k : Key) (r : ℕ)
    → (IsIn (k, r) t'.flows
        → IsIn (k, r) t.flows × (test (t.heap r) ≡ false) × (t'.heap r ≡ t.heap r))
      × (IsIn (k, r) t.flows → test (t.heap r) ≡ false → IsIn (k, r) t'.flows)

swept-Survives :
    (test : Entry → Bool) (t t' : Table)
    → Distinct t.flows
    → SameFlows (swept_table (sweep test t.flows t)) t'
    → Survives test t t'
swept-Survives test t t' d same k r =
    let s = sweep-Spares test t.flows t d in rw (same.0, same.1) (s.inside k r, s.outside k r)

-- Expire leaves exactly the flows that were seen within their timeout, with their entries as they
-- were; and it returns the number of the others. The flows of the table have distinct entries.
pub expire-Survives :
    (t : Table) (now : ℕ)
    → Distinct t.flows
    → Survives (λ e. ltb (timeout t e) (now - e.last_seen)) t (expire t now).0
      × ((expire t now).1 + length (expire t now).0.flows ≡ length t.flows)
unfolding expire
expire-Survives t now d =
    let test : Entry → Bool = λ e. ltb (timeout t e) (now - e.last_seen) in
    let s = sweep test t.flows t in
    let same =
      report-SameFlows (say_expired now) s.closed
        (record (swept_table s) { frags = live_frags now t.frags })
        (λ u e. (ground arith, ground arith)) in
    (
      swept-Survives test t (expire t now).0 d same,
      rw (same.0) ((sweep-Spares test t.flows t d).size),
    )

-- CloseWhere leaves exactly the flows that its test does not choose, with their entries as they
-- were; and it returns the number of the others. The flows of the table have distinct entries.
pub close_where-Survives :
    (t : Table) (test : Entry → Bool) (why : Bytes) (now : ℕ)
    → Distinct t.flows
    → Survives test t (close_where t test why now).0
      × ((close_where t test why now).1 + length (close_where t test why now).0.flows
          ≡ length t.flows)
unfolding close_where
close_where-Survives t test why now d =
    let s = sweep test t.flows t in
    let same =
      report-SameFlows (say_closed why now) s.closed (swept_table s)
        (λ u e. (ground arith, ground arith)) in
    (
      swept-Survives test t (close_where t test why now).0 d same,
      rw (same.0) ((sweep-Spares test t.flows t d).size),
    )
