-- ===== src/Flow/Account/Packets.antt =====
-- Every packet keeps the books.
use bound_gate_vpn.Prelude.{
  ℕ, ◌+◌, ◌≡◌, ◌≢◌, ◌<◌, refl, sym, ◌∙◌, Option, none, some, arith, ltb, leb, if◌then◌else◌, Bytes,
  bytes_eq, same_bytes_iff, [], ◌∷◌, length, Option-cases, Bool-cases, inl, inr, ◌||◌, not,
}
use bound_gate_vpn.Prelude.Assoc.{lookup, length-insert_new}
use bound_gate_vpn.Netparse.Header.{Header, is_fragment}
use bound_gate_vpn.Flow.State.{
  Table, Entry, Key, key_eq, key_of, update, held, max_entries, max_local, max_per_peer, Origin,
  Decider, FragState, frag_eq, src_of, min_frag_offset,
}
use bound_gate_vpn.Netip.{AddrPort}
use bound_gate_vpn.Flow.Totals.{
  buffered, owned, Below-Absent, Below-insert, Distinct-insert, total-update_same,
  total-update_held, total-open, held-insert,
}
use bound_gate_vpn.Flow.Inspect.{count}
use bound_gate_vpn.Flow.Dns.{Handled}
use bound_gate_vpn.Flow.Handle.{
  Done, frag_key, write, follow, fragment, related, allocate, new_entry, new_flow, unknown_flow,
  handle_whole, remember_frag, handle, src_port_of,
}
use bound_gate_vpn.Flow.Settle.{Settled, known_flow-Settled, first_packet-Settled}
use bound_gate_vpn.Flow.Account.{Account, quota, IsOrigin}

-- A packet of a flow in the table.
write-Account :
    (t : Table) (k : Key) (r : ℕ) (d : Handled)
    → Account t
    → lookup k t.flows ≡ some r
    → Settled t (t.heap r) d
    → Account (write r d).table
write-Account t k r d a there s = record {
  below = rw (s.flows, s.next) a.below;
  distinct = rw s.flows a.distinct;
  bytes =
      rw (s.flows, s.heap)
        (omega (
          arith,
          a.bytes,
          s.bytes,
          total-update_held buffered t.heap r d.entry k t.flows there a.distinct,
        ));
  peers = λ p.
      rw (s.flows, s.heap, s.per_peer)
        (a.peers p ∙ sym (total-update_same (owned p) t.heap r d.entry t.flows (rw s.origin)));
  fair = λ p. rw s.per_peer (a.fair p);
  size = rw s.flows a.size;
}

-- An entry that is written with its origin and its buffer, in the table or not.
pub quiet-Account :
    (t t' : Table) (r : ℕ) (e : Entry)
    → Account t
    → t'.flows ≡ t.flows
    → t'.next ≡ t.next
    → t'.per_peer ≡ t.per_peer
    → t'.sni_free ≡ t.sni_free
    → t'.heap ≡ update t.heap r e
    → e.origin ≡ (t.heap r).origin
    → e.sni_buf ≡ (t.heap r).sni_buf
    → Account t'
quiet-Account t t' r e a flows next peers free heap origin buf = record {
  below = rw (flows, next) a.below;
  distinct = rw flows a.distinct;
  bytes = rw (flows, heap, free, total-update_same buffered t.heap r e t.flows (rw buf)) a.bytes;
  peers = λ p.
      rw (flows, heap, peers)
        (a.peers p ∙ sym (total-update_same (owned p) t.heap r e t.flows (rw origin)));
  fair = λ p. rw peers (a.fair p);
  size = rw flows a.size;
}

-- A table that differs in no book.
pub same-Account :
    (t t' : Table)
    → Account t
    → t'.flows ≡ t.flows
    → t'.next ≡ t.next
    → t'.per_peer ≡ t.per_peer
    → t'.sni_free ≡ t.sni_free
    → t'.heap ≡ t.heap
    → Account t'
same-Account t t' a flows next peers free heap = record {
  below = rw (flows, next) a.below;
  distinct = rw flows a.distinct;
  bytes = rw (flows, heap, free) a.bytes;
  peers = λ p. rw (flows, heap, peers) (a.peers p);
  fair = λ p. rw peers (a.fair p);
  size = rw flows a.size;
}

-- A packet that opens a flow, within the limits.
open-Account :
    (t : Table) (h : Header) (origin : Origin) (id : Bytes) (now : ℕ) (d : Handled)
    → Account t
    → lookup (key_of h) t.flows ≡ none
    → length t.flows < max_entries
    → held t.per_peer origin.principal < quota origin.principal
    → Settled (allocate t (key_of h) origin.principal) (new_entry id h origin now) d
    → Account (write t.next d).table
unfolding allocate new_entry
open-Account t h origin id now d a free size fair s =
    let k : Key = key_of h in
    let fresh = Below-Absent t.next t.flows a.below in
    record {
      below = rw (s.flows, s.next) (Below-insert t.next k t.flows a.below);
      distinct = rw s.flows (Distinct-insert t.next k t.flows a.below a.distinct);
      bytes =
          rw (s.flows, s.heap)
            (omega (
              arith,
              a.bytes,
              s.bytes,
              total-open buffered t.heap k t.next d.entry t.flows free fresh,
            ));
      peers = λ p.
          rw (s.flows, s.heap, s.per_peer)
            (ground (
              arith,
              s.origin,
              held-insert t.per_peer origin.principal p (held t.per_peer origin.principal + 1),
              a.peers p,
              same_bytes_iff origin.principal p,
              total-open (owned p) t.heap k t.next d.entry t.flows free fresh,
            ));
      fair = λ p. rw s.per_peer (
          ground (
            arith,
            held-insert t.per_peer origin.principal p (held t.per_peer origin.principal + 1),
            a.fair p,
            same_bytes_iff origin.principal p,
          ));
      size = rw s.flows (omega (arith, length-insert_new k t.next t.flows free));
    }

quota-limit :
    (o : Origin) → IsOrigin o → (if o.local then max_local else max_per_peer) ≡ quota o.principal
quota-limit o h = elim (Bool-cases o.local) [
  | inl here ↦ rw (here, h.0 here)
  | inr away ↦ rw away (by_length o.principal (h.1 away))
]
  where
    by_length : (p : Bytes) → p ≢ [] → max_per_peer ≡ quota p
    by_length [] ne = absurd (ne refl)
    by_length (c ∷ p) ne = ground arith

new_flow-Account :
    (t : Table) (id : Bytes) (h : Header) (pkt : Bytes) (origin : Origin) (dec : Decider) (now : ℕ)
    → Account t
    → IsOrigin origin
    → lookup (key_of h) t.flows ≡ none
    → Account (new_flow t id h pkt origin dec now).table
unfolding new_flow
new_flow-Account t id h pkt origin dec now a o free =
    elim (Bool-cases (
      leb max_entries (length t.flows)
      || leb (if origin.local then max_local else max_per_peer)
          (held t.per_peer origin.principal))) [
            | inl full ↦ rw full (same-Account t _ a refl refl refl refl refl)
            | inr room ↦ rw room (
                open-Account t h origin id now _ a free (ground arith)
                  (ground (arith, quota-limit origin o))
                  (first_packet-Settled (allocate t (key_of h) origin.principal)
                    (new_entry id h origin now) h pkt dec now))
          ]

handle_whole-Account :
    (t : Table) (id : Bytes) (h : Header) (pkt : Bytes) (origin : Origin) (dec : Decider) (now : ℕ)
    → Account t
    → IsOrigin origin
    → Account (handle_whole t id h pkt origin dec now).table
unfolding handle_whole unknown_flow
handle_whole-Account t id h pkt origin dec now a o =
    elim (Option-cases (lookup (key_of h) t.flows)) [
      | inr (r, there) ↦
          rw (there, handle_whole)
            (write-Account t (key_of h) r _ a there
              (known_flow-Settled t (t.heap r) h pkt (src_of h) dec now))
      | inl free ↦ elim (Option-cases (related t h pkt)) [
        | inr (r, error) ↦
            rw (free, error, handle_whole, unknown_flow)
              (quiet-Account t _ r (record (t.heap r) { last_seen = now }) a refl refl refl refl
                refl refl refl)
        | inl other ↦
            rw (free, other, handle_whole, unknown_flow)
              (new_flow-Account t id h pkt origin dec now a o free)
      ]
    ]

follow-Account :
    (t : Table) (h : Header) (n now : ℕ) (o : Option FragState)
    → Account t
    → Account (follow t h n now o).table
unfolding follow count
follow-Account t h n now none a = same-Account t _ a refl refl refl refl refl
follow-Account t h n now (some f) a =
    let e : Entry = t.heap f.entry in
    let src : AddrPort = record { addr = h.src; port = src_port_of e h.src } in
    elim (Bool-cases (ltb f.until now || not e.allowed || ltb h.frag_offset min_frag_offset)) [
      | inl bad ↦ rw (bad, follow) (same-Account t _ a refl refl refl refl refl)
      | inr good ↦
          rw (good, follow)
            (quiet-Account t _ f.entry (count src n (record e { last_seen = now })) a (ground arith)
              (ground arith) (ground arith) (ground arith) (ground arith) (ground arith)
              (ground arith))
    ]

remember_frag-Account :
    (h : Header) (now : ℕ) (d : Done) → Account d.table → Account (remember_frag h now d).table
unfolding remember_frag
remember_frag-Account h now d a =
    let t : Table = (remember_frag h now d).table in
    same-Account d.table t a (ground arith) (ground arith) (ground arith) (ground arith)
      (ground arith)

-- Handling any packet keeps the books: the references stay distinct, no byte of the allowance for
-- split ClientHellos is lost or made up, perPeer counts exactly the flows of each principal and
-- none exceeds its quota, and the table keeps its bound. The packet's origin is the host stack with
-- no principal, or a peer.
pub handle-Account :
    (t : Table) (id : Bytes) (h : Header) (pkt : Bytes) (origin : Origin) (dec : Decider) (now : ℕ)
    → Account t
    → IsOrigin origin
    → Account (handle t id h pkt origin dec now).table
unfolding handle fragment
handle-Account t id h pkt origin dec now a o = elim (Bool-cases (is_fragment h)) [
  | inl part ↦
      rw (part, handle) (follow-Account t h (length pkt) now (lookup (frag_key h) t.frags) a)
  | inr whole ↦
      rw (whole, handle)
        (remember_frag-Account h now (handle_whole t id h pkt origin dec now)
          (handle_whole-Account t id h pkt origin dec now a o))
]
