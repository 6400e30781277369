-- ===== src/Flow/Account/Reach.antt =====
-- The runs of a table: packets, sweeps, policy changes and SetLearner in any order.
use bound_gate_vpn.Prelude.{ℕ, Bool, Bytes, ◌≤◌, ◌≡◌, ◌+◌, length, refl}
use bound_gate_vpn.Netparse.Header.{Header}
use bound_gate_vpn.Flow.State.{
  Table, Timeouts, Entry, Decider, Origin, new_table, set_learner, held, max_entries, max_sni_bytes,
}
use bound_gate_vpn.Flow.Totals.{total, buffered, owned}
use bound_gate_vpn.Flow.Handle.{handle}
use bound_gate_vpn.Flow.Sweep.{expire, close_where, reevaluate}
use bound_gate_vpn.Flow.Account.{Account, IsOrigin, quota, new_table-Account}
use bound_gate_vpn.Flow.Account.Packets.{handle-Account, same-Account}
use bound_gate_vpn.Flow.Account.Sweeps.{expire-Account, close_where-Account, reevaluate-Account}

pub data Step (t : Table) : Table → Type 0 where
  packet :
      (id : Bytes) (h : Header) (pkt : Bytes) (origin : Origin) (dec : Decider) (now : ℕ)
      → IsOrigin origin
      → Step t (handle t id h pkt origin dec now).table
  expiry : (now : ℕ) → Step t (expire t now).0
  closing : (test : Entry → Bool) (why : Bytes) (now : ℕ) → Step t (close_where t test why now).0
  change : (dec : Decider) (now : ℕ) → Step t (reevaluate t dec now).0
  learner : (on : Bool) → Step t (set_learner on t)

-- The tables that New and any sequence of steps give.
pub data Reached : Table → Type 0 where
  start : (timeouts : Timeouts) (heap : ℕ → Entry) → Reached (new_table timeouts heap)
  after : (t t' : Table) → Reached t → Step t t' → Reached t'

Step-Account : (t t' : Table) → Step t t' → Account t → Account t'
Step-Account t t' (packet id h pkt origin dec now o) a =
    handle-Account t id h pkt origin dec now a o
Step-Account t t' (expiry now) a = expire-Account t now a
Step-Account t t' (closing test why now) a = close_where-Account t test why now a
Step-Account t t' (change dec now) a = reevaluate-Account t dec now a
Step-Account t t' (learner on) a = same-Account t (set_learner on t) a refl refl refl refl refl

Reached-Account : (t : Table) → Reached t → Account t
Reached-Account t (start timeouts heap) = new_table-Account timeouts heap
Reached-Account t' (after t _ r s) = Step-Account t t' s (Reached-Account t r)

-- Whatever packets, sweeps, policy changes and learners a table has seen, in any order and at any
-- times: it has at most maxEntries flows, perPeer holds for each principal exactly the number of its
-- flows, which is within its quota, and the free bytes with those that flows buffer are the table's
-- allowance. The packets come from the host stack, without a principal, or from a peer, with one.
pub Reached-bounds :
    (t : Table)
    → Reached t
    → length t.flows ≤ max_entries
      × ((p : Bytes)
          → held t.per_peer p ≡ total (owned p) t.heap t.flows × held t.per_peer p ≤ quota p)
      × t.sni_free + total buffered t.heap t.flows ≡ max_sni_bytes
Reached-bounds t r = let a = Reached-Account t r in (a.size, (λ p. (a.peers p, a.fair p)), a.bytes)
