-- ===== src/Flow/Account/Sweeps.antt =====
-- Expire, CloseWhere and Reevaluate keep the books.
use bound_gate_vpn.Prelude.{
  ℕ, ◌+◌, ◌-◌, ◌≡◌, ◌≤◌, refl, Bool, true, false, none, some, arith, ltb, if◌then◌else◌, Bytes,
  bytes_eq, same_bytes, same_bytes_iff, List, [], ◌∷◌, length, Bool-cases, inl, inr, not, ◌&&◌,
}
use bound_gate_vpn.Flow.State.{Table, Entry, Key, update, held, Decider, put}
use bound_gate_vpn.Flow.Totals.{
  Flows, total, buffered, owned, Distinct, Below, Absent, held-insert, held-remove,
  total-update-Absent,
}
use bound_gate_vpn.Flow.Inspect.{release_sni, decide}
use bound_gate_vpn.Flow.Sweep.{
  timeout, less_one, forget, Swept, sweep, swept_table, live_frags, report, say_expired, expire,
  say_closed, close_where, decide_again, judge_all, say_changed, reevaluate,
}
use bound_gate_vpn.Flow.Account.{Account}
use bound_gate_vpn.Flow.Account.Packets.{same-Account, quiet-Account}

pub held-less_one :
    (m : List (Bytes × ℕ)) (p q : Bytes)
    → held (less_one m p) q ≡ (if same_bytes p q then held m p - 1 else held m q)
held-less_one m p q =
    ground (arith, held-remove m p q, held-insert m p q (held m p - 1), same_bytes_iff p q)

-- What a walk leaves: the flows that stay, the same entries for them, and the shares and the bytes
-- of the flows that went given back.
record Left (test : Entry → Bool) (t : Table) (flows : Flows) (s : Swept) : Type 0 where
  below : (n : ℕ) → Below n flows → Below n s.kept
  absent : (r : ℕ) → Absent r flows → Absent r s.kept × (s.table.heap r ≡ t.heap r)
  distinct : Distinct s.kept
  next : s.table.next ≡ t.next
  bytes :
      s.table.sni_free + total buffered s.table.heap s.kept
      ≡ t.sni_free + total buffered t.heap flows
  peers :
      (p : Bytes)
      → total (owned p) t.heap flows ≤ held t.per_peer p
      → held s.table.per_peer p + total (owned p) t.heap flows
        ≡ held t.per_peer p + total (owned p) s.table.heap s.kept
  shares : (p : Bytes) → held s.table.per_peer p ≤ held t.per_peer p
  size : length s.kept ≤ length flows

keep-Left :
    (test : Entry → Bool) (t : Table) (k : Key) (r : ℕ) (flows : Flows)
    → Absent r flows
    → Left test t flows (sweep test flows t)
    → test (t.heap r) ≡ false
    → Left test t ((k, r) ∷ flows) (sweep test ((k, r) ∷ flows) t)
unfolding sweep total
keep-Left test t k r flows fresh l stays =
    rw (stays, sweep)
      (record {
        below = λ n h. (h.0, l.below n h.1);
        absent = λ s h. ((h.0, (l.absent s h.1).0), (l.absent s h.1).1);
        distinct = ((l.absent r fresh).0, l.distinct);
        next = l.next;
        bytes = ground (arith, l.bytes, l.absent r fresh);
        peers = λ p h. ground (arith, l.peers p, l.absent r fresh);
        shares = l.shares;
        size = omega (arith, l.size);
      })

drop-Left :
    (test : Entry → Bool) (t : Table) (k : Key) (r : ℕ) (flows : Flows)
    → Absent r flows
    → Left test (forget t r) flows (sweep test flows (forget t r))
    → test (t.heap r) ≡ true
    → Left test t ((k, r) ∷ flows) (sweep test ((k, r) ∷ flows) t)
unfolding sweep total forget update
drop-Left test t k r flows fresh l goes =
    let e : Entry = release_sni (t.heap r) in
    rw (goes, sweep)
      (record {
        below = λ n h. l.below n h.1;
        absent = λ s h. ((l.absent s h.1).0, ground (arith, l.absent s h.1));
        distinct = l.distinct;
        next = l.next;
        bytes = ground (arith, l.bytes, total-update-Absent buffered t.heap r e flows fresh);
        shares = λ p. ground (
          arith,
          l.shares p,
          held-less_one t.per_peer (t.heap r).origin.principal p,
          same_bytes_iff (t.heap r).origin.principal p,
        );
        peers = λ p h. ground (
          arith,
          l.peers p,
          same_bytes_iff (t.heap r).origin.principal p,
          held-less_one t.per_peer (t.heap r).origin.principal p,
          total-update-Absent (owned p) t.heap r e flows fresh,
        );
        size = omega (arith, l.size);
      })

sweep-Left :
    (test : Entry → Bool) (flows : Flows) (t : Table)
    → Distinct flows
    → Left test t flows (sweep test flows t)
unfolding sweep total
sweep-Left test [] t d = record {
  below = λ n h. tt;
  absent = λ r h. (tt, refl);
  distinct = tt;
  next = refl;
  bytes = refl;
  peers = λ p h. refl;
  shares = λ p. omega arith;
  size = omega arith;
}
sweep-Left test ((k, r) ∷ flows) t d = elim (Bool-cases (test (t.heap r))) [
  | inl goes ↦ drop-Left test t k r flows d.0 (sweep-Left test flows (forget t r) d.1) goes
  | inr stays ↦ keep-Left test t k r flows d.0 (sweep-Left test flows t d.1) stays
]

sweep-Account :
    (test : Entry → Bool) (t : Table) → Account t → Account (swept_table (sweep test t.flows t))
sweep-Account test t a =
    let l = sweep-Left test t.flows t a.distinct in
    record {
      below = rw l.next (l.below t.next a.below);
      distinct = l.distinct;
      bytes = omega (arith, l.bytes, a.bytes);
      peers = λ p. omega (arith, l.peers p, a.peers p);
      fair = λ p. omega (arith, l.shares p, a.fair p);
      size = omega (arith, l.size, a.size);
    }

-- Saying what happened leaves the books alone.
report-Account :
    (say : Table → Entry → Table) (rs : List ℕ) (t : Table)
    → ((t : Table) (e : Entry) → Account t → Account (say t e))
    → Account t
    → Account (report say rs t)
unfolding report
report-Account say [] t quiet a = a
report-Account say (r ∷ rs) t quiet a =
    report-Account say rs (say t (t.heap r)) quiet (quiet t (t.heap r) a)

say_expired-Account : (now : ℕ) (t : Table) (e : Entry) → Account t → Account (say_expired now t e)
say_expired-Account now t e a =
    same-Account t (say_expired now t e) a (ground arith) (ground arith) (ground arith)
      (ground arith) (ground arith)

say_closed-Account :
    (why : Bytes) (now : ℕ) (t : Table) (e : Entry) → Account t → Account (say_closed why now t e)
say_closed-Account why now t e a =
    same-Account t (say_closed why now t e) a (ground arith) (ground arith) (ground arith)
      (ground arith) (ground arith)

say_changed-Account : (now : ℕ) (t : Table) (e : Entry) → Account t → Account (say_changed now t e)
say_changed-Account now t e a = same-Account t (say_changed now t e) a refl refl refl refl refl

-- Expire keeps the books at any time: the shares and the buffered bytes of the flows whose time is
-- over are given back exactly once.
pub expire-Account : (t : Table) (now : ℕ) → Account t → Account (expire t now).0
unfolding expire
expire-Account t now a =
    let test : Entry → Bool = λ e. ltb (timeout t e) (now - e.last_seen) in
    let s = sweep test t.flows t in
    let t' : Table = record (swept_table s) { frags = live_frags now t.frags } in
    report-Account (say_expired now) s.closed t' (say_expired-Account now)
      (same-Account (swept_table s) t' (sweep-Account test t a) refl refl refl refl refl)

-- CloseWhere keeps the books, whatever flows its test chooses.
pub close_where-Account :
    (t : Table) (test : Entry → Bool) (why : Bytes) (now : ℕ)
    → Account t
    → Account (close_where t test why now).0
unfolding close_where
close_where-Account t test why now a =
    let s = sweep test t.flows t in
    report-Account (say_closed why now) s.closed (swept_table s) (say_closed-Account why now)
      (sweep-Account test t a)

decide_again-origin : (dec : Decider) (e : Entry) → (decide_again dec e).origin ≡ e.origin
unfolding decide_again decide
decide_again-origin none e = ground arith
decide_again-origin (some f) e = ground arith

decide_again-sni_buf : (dec : Decider) (e : Entry) → (decide_again dec e).sni_buf ≡ e.sni_buf
unfolding decide_again decide
decide_again-sni_buf none e = ground arith
decide_again-sni_buf (some f) e = ground arith

judge_all-Account :
    (dec : Decider) (flows : Flows) (t : Table) → Account t → Account (judge_all dec flows t).table
unfolding judge_all
judge_all-Account dec [] t a = a
judge_all-Account dec ((k, r) ∷ flows) t a =
    let e : Entry = t.heap r in
    let e' : Entry = decide_again dec e in
    let t' : Table = if e.decided && e.allowed then put t r e' else t in
    let judged : Account t' = elim (Bool-cases (e.decided && e.allowed)) [
      | inl open_flow ↦ rw open_flow (
          quiet-Account t (put t r e') r e' a refl refl refl refl refl (decide_again-origin dec e)
            (decide_again-sni_buf dec e))
      | inr other ↦ rw other a
    ] in
    elim (Bool-cases (e.decided && e.allowed && not e'.allowed)) [
      | inl denied ↦ rw (denied, judge_all) (judge_all-Account dec flows t' judged)
      | inr stays ↦ rw (stays, judge_all) (judge_all-Account dec flows t' judged)
    ]

-- Reevaluate keeps the books, whatever the decider says now.
pub reevaluate-Account :
    (t : Table) (dec : Decider) (now : ℕ) → Account t → Account (reevaluate t dec now).0
unfolding reevaluate
reevaluate-Account t dec now a =
    let j = judge_all dec t.flows t in
    report-Account (say_changed now) j.denied j.table (say_changed-Account now)
      (judge_all-Account dec t.flows t a)
