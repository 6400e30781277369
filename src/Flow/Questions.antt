-- ===== src/Flow/Questions.antt =====
-- What passes on a DNS flow: questions that are permitted, and the answers to them.
use bound_gate_vpn.Prelude.{
  ℕ, suc, ◌≡◌, ◌≢◌, ◌≤◌, refl, ◌⊎◌, true, false, Option, none, some, arith, ◌==◌, Bytes, List, [],
  ◌∷◌, length, Bool-cases, Option-cases, inl, inr, IsIn, length-append, length-drop,
  drop as drop_list,
}
use bound_gate_vpn.Netip.{AddrPort, same_addr_port, same_addr_port_iff}
use bound_gate_vpn.Netparse.Header.{Header}
use bound_gate_vpn.Netparse.Dns.{Answer}
use bound_gate_vpn.Flow.State.{Entry, Decider, Table, pass, key_eq, frag_eq, DnsQuery, max_queries}
use bound_gate_vpn.Flow.Inspect.{count, payload_of}
use bound_gate_vpn.Flow.Dns.{
  allows, start_dns, name_of, read_query, read_answer, read_response_id, match_query, is_other,
  dns_response, dns_message, dns_packet, refuse_query, accept_query, push_query, payload_bytes,
}

-- The match of a response leaves all queries but one, which has the response's ID and asked what
-- the response answers, when that can be read.
pub match_query-IsIn :
    (id : ℕ) (answer : Option Answer) (qs rest : List DnsQuery)
    → match_query id answer qs ≡ some rest
    → (q : DnsQuery) × IsIn q qs
      × (q.id ≡ id)
      × (is_other answer q ≡ false)
      × (length qs ≡ suc (length rest))
unfolding match_query
match_query-IsIn id answer [] rest h = absurd (ground arith)
match_query-IsIn id answer (q ∷ qs) rest h = elim (Bool-cases (q.id == id)) [
  | inl same ↦ elim (Bool-cases (is_other answer q)) [
    | inl other ↦ absurd (ground (arith, other))
    | inr ours ↦ (q, inl refl, ground arith, ours, ground arith)
  ]
  | inr differs ↦ elim (Option-cases (match_query id answer qs)) [
    | inl lost ↦ absurd (ground arith)
    | inr (left, found) ↦
        let (x, there, same, ours, size) = match_query-IsIn id answer qs left found in
        (x, inr there, same, ours, ground (arith, size))
  ]
]

-- The message answers a query that passed before and was not answered yet.
abbrev pub IsAsked : Entry → Bytes → Type 0
IsAsked e payload =
    (id : ℕ) × (q : DnsQuery) × (read_response_id payload ≡ some id)
    × IsIn q e.queries
    × (q.id ≡ id)
    × (is_other (read_answer payload) q ≡ false)

dns_message-permit :
    (t : Table) (e : Entry) (payload : Bytes) (src : AddrPort) (n : ℕ) (dec : Decider) (now : ℕ)
    → (dns_message t e payload src n dec now).outcome ≡ pass
    → allows dec (record (start_dns dec e) { dns_name = name_of (read_query payload) }) ≡ true
unfolding dns_message refuse_query
dns_message-permit t e payload src n none now o = ground arith
dns_message-permit t e payload src n (some f) now o = ground arith

dns_response-IsAsked :
    (t : Table) (e : Entry) (payload : Bytes) (src : AddrPort) (n : ℕ)
    → (dns_response t e payload src n).outcome ≡ pass
    → (e.nameless ≡ true) ⊎ IsAsked e payload
unfolding dns_response
dns_response-IsAsked t e payload src n o = elim (Option-cases (read_response_id payload)) [
  | inl other ↦ ground (arith, other)
  | inr (id, is_id) ↦ elim (Option-cases (match_query id (read_answer payload) e.queries)) [
    | inl unmatched ↦ ground (arith, is_id, unmatched)
    | inr (rest, matched) ↦
        let (q, there, same, ours, size) =
          match_query-IsIn id (read_answer payload) e.queries rest matched in
        inr (id, q, is_id, there, same, ours)
  ]
]

-- A message of a DNS flow passes only in these cases. From the originator: the decider permits the
-- flow under the name that the message asks for. From the other side: the address alone was
-- permitted, or the message answers an outstanding query with its ID, and with its question where
-- the answer can be read.
pub dns_packet-IsPermitted :
    (t : Table) (e : Entry) (h : Header) (pkt : Bytes) (src : AddrPort) (dec : Decider) (now : ℕ)
    → (dns_packet t e h pkt src dec now).outcome ≡ pass
    → let payload = payload_bytes (payload_of h pkt) in
      ((src ≡ e.originator)
        × allows dec (record (start_dns dec e) { dns_name = name_of (read_query payload) }) ≡ true)
      ⊎ ((src ≢ e.originator) × ((e.nameless ≡ true) ⊎ IsAsked e payload))
unfolding dns_packet
dns_packet-IsPermitted t e h pkt src dec now o =
    elim (Bool-cases (same_addr_port src e.originator)) [
      | inl out ↦ inl (
        (same_addr_port_iff src e.originator).0 out,
        dns_message-permit t e (payload_bytes (payload_of h pkt)) src (length pkt) dec now
            (ground (arith, out)),
      )
      | inr back ↦ inr (
        (λ same. ground (arith, back, same_addr_port_iff src e.originator, same)),
        dns_response-IsAsked t e (payload_bytes (payload_of h pkt)) src (length pkt)
            (ground (arith, back)),
      )
    ]

push_query-le :
    (qs : List DnsQuery) (query : Option (ℕ × Bytes))
    → length qs ≤ max_queries
    → length (push_query qs query) ≤ max_queries
unfolding push_query
push_query-le qs none b = b
push_query-le qs (some (id, name)) b = ground (
  arith,
  length-append qs (record { id = id; name = name } ∷ []),
  length-append (drop_list 1 qs) (record { id = id; name = name } ∷ []),
  length-drop 1 qs,
)

dns_message-queries :
    (t : Table) (e : Entry) (payload : Bytes) (src : AddrPort) (n : ℕ) (dec : Decider) (now : ℕ)
    → length e.queries ≤ max_queries
    → length (dns_message t e payload src n dec now).entry.queries ≤ max_queries
unfolding dns_message refuse_query accept_query start_dns count
dns_message-queries t e payload src n dec now b =
    ground (arith, push_query-le e.queries (read_query payload))

dns_response-queries :
    (t : Table) (e : Entry) (payload : Bytes) (src : AddrPort) (n : ℕ)
    → length e.queries ≤ max_queries
    → length (dns_response t e payload src n).entry.queries ≤ max_queries
unfolding dns_response count
dns_response-queries t e payload src n b = elim (Option-cases (read_response_id payload)) [
  | inl other ↦ ground (arith, other)
  | inr (id, is_id) ↦ elim (Option-cases (match_query id (read_answer payload) e.queries)) [
    | inl unmatched ↦ ground (arith, is_id, unmatched)
    | inr (rest, matched) ↦
        let (q, there, same, ours, size) =
          match_query-IsIn id (read_answer payload) e.queries rest matched in
        ground (arith, is_id, matched, size)
  ]
]

-- A DNS flow has at most 32 outstanding queries, whatever message it sees.
pub dns_packet-queries :
    (t : Table) (e : Entry) (h : Header) (pkt : Bytes) (src : AddrPort) (dec : Decider) (now : ℕ)
    → length e.queries ≤ max_queries
    → length (dns_packet t e h pkt src dec now).entry.queries ≤ max_queries
unfolding dns_packet
dns_packet-queries t e h pkt src dec now b =
    let payload = payload_bytes (payload_of h pkt) in
    ground (
      arith,
      dns_message-queries t e payload src (length pkt) dec now,
      dns_response-queries t e payload src (length pkt),
    )
