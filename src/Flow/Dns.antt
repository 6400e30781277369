-- ===== src/Flow/Dns.antt =====
-- Table.dnsPacket: a DNS flow is decided message by message.
use bound_gate_vpn.Prelude.{
  ℕ, Bool, true, false, not, ◌||◌, Option, none, some, ◌==◌, if◌then◌else◌, Bytes, bytes_eq,
  same_bytes, List, [], ◌∷◌, ◌++◌, length, value_or, drop as drop_bytes,
}
use bound_gate_vpn.Netip.{AddrPort, same_addr_port}
use bound_gate_vpn.Netparse.Header.{Header}
use bound_gate_vpn.Netparse.Dns.{Answer, dns_query, dns_response_id, dns_answer}
use bound_gate_vpn.Flow.State.{
  Entry, Decider, Result, no_result, DnsQuery, Table, emit, event_of, event_open, event_deny,
  Outcome, drop, pass, max_queries,
}
use bound_gate_vpn.Flow.Inspect.{count, payload_of}

-- The readers of DNS messages, which do not panic (Netparse.Dns.Messages).
abbrev pub read_query : Bytes → Option (ℕ × Bytes)
read_query payload = value_or none (dns_query payload)

abbrev pub read_response_id : Bytes → Option ℕ
read_response_id payload = value_or none (dns_response_id payload)

abbrev pub read_answer : Bytes → Option Answer
read_answer payload = value_or none (dns_answer payload)

-- The answer to `q` is one to another question.
abbrev pub is_other : Option Answer → DnsQuery → Bool
is_other none q = false
is_other (some a) q = not (same_bytes a.name q.name)

abbrev pub keep_query : DnsQuery → Option (List DnsQuery) → Option (List DnsQuery)
keep_query q none = none
keep_query q (some qs) = some (q ∷ qs)

-- The loop over e.queries: what is left when the response answers a query; `none` when it answers
-- none, or the first one of its ID asked something else.
unfoldable pub match_query : ℕ → Option Answer → List DnsQuery → Option (List DnsQuery)
match_query id answer [] = none
match_query id answer (q ∷ qs) =
    let rest = match_query id answer qs in
    if not (q.id == id) then keep_query q rest else if is_other answer q then none else some qs

-- What a handler of one flow gives: the outcome, the entry as it is left, and the table, to whose
-- heap the entry is written at the end.
pub record Handled : Type 0 where
  pub outcome : Outcome
  pub entry : Entry
  pub table : Table

abbrev pub handled : Outcome → Entry → Table → Handled
handled out e t = record { outcome = out; entry = e; table = t }

-- t.learn(e, name, addrs, ttl), where a Learner is installed and an answer was read
abbrev pub teach : Table → Entry → Option Answer → Table
teach t e none = t
teach t e (some a) =
    if t.learns
    then record t {
      learned = record { entry = e; name = a.name; addrs = a.addrs; ttl = a.ttl } ∷ t.learned;
    }
    else t

-- A packet from the resolver that answers no query.
abbrev pub unasked : Table → Entry → AddrPort → ℕ → Handled
unasked t e src n = if e.nameless then handled pass (count src n e) t else handled drop e t

-- An answer to a query; the other queries stay.
abbrev pub answered : Table → Entry → AddrPort → ℕ → Option Answer → List DnsQuery → Handled
answered t e src n answer qs =
    let e' = record e { queries = qs } in handled pass (count src n e') (teach t e' answer)

unfoldable pub dns_response : Table → Entry → Bytes → AddrPort → ℕ → Handled
dns_response t e payload src n = elim (read_response_id payload) [
  | none ↦ unasked t e src n
  | some id ↦ elim (match_query id (read_answer payload) e.queries) [
    | none ↦ unasked t e src n
    | some qs ↦ answered t e src n (read_answer payload) qs
  ]
]

-- decide != nil && decide(e).Allow
abbrev pub allows : Decider → Entry → Bool
allows none e = false
allows (some f) e = (f e).allow

-- The result of decide, Result{} without one
abbrev pub result_of : Decider → Entry → Result
result_of none e = no_result
result_of (some f) e = f e

-- Before the first message of a flow, the address alone is decided.
unfoldable pub start_dns : Decider → Entry → Entry
start_dns decide e =
    if e.dns_started
    then e
    else (let e' = record e { dns_started = true; dns_name = [] } in
        record e' { nameless = allows decide e' })

abbrev pub name_of : Option (ℕ × Bytes) → Bytes
name_of none = []
name_of (some (id, name)) = name

-- e.queries with a query that passed; the oldest one is forgotten when they are too many.
unfoldable pub push_query : List DnsQuery → Option (ℕ × Bytes) → List DnsQuery
push_query qs none = qs
push_query qs (some (id, name)) =
    (if length qs == max_queries then drop_bytes 1 qs else qs)
    ++ record { id = id; name = name } ∷ []

-- A message that is refused. `report`: it is the first one or another name than the last refused.
unfoldable pub refuse_query : Table → Entry → Result → Bool → ℕ → Handled
refuse_query t e res report now =
    let d = record e { allowed = false; result = res; queries = [] } in
    let t' = if report then emit t (event_of event_deny d now) else t in
    handled drop
      (record e { last_denied = e.dns_name; deny_only = if e.allowed then e.deny_only else true })
      t'

-- A message that is permitted.
unfoldable pub accept_query :
    Table → Entry → Result → Option (ℕ × Bytes) → AddrPort → ℕ → ℕ → Handled
accept_query t e res query src n now =
    let e' = record e {
      last_denied = [];
      queries = push_query e.queries query;
      result = res;
      deny_only = false;
      allowed = true;
    } in
    let t' = if e.allowed then t else emit t (event_of event_open e' now) in
    handled pass (count src n e') t'

unfoldable pub dns_message : Table → Entry → Bytes → AddrPort → ℕ → Decider → ℕ → Handled
dns_message t e payload src n decide now =
    let query = read_query payload in
    let e' = record (start_dns decide e) { dns_name = name_of query } in
    let res = result_of decide e' in
    if not res.allow
    then refuse_query t e' res (not e.dns_started || not (same_bytes e'.dns_name e.last_denied)) now
    else accept_query t e' res query src n now

abbrev pub payload_bytes : Option Bytes → Bytes
payload_bytes none = []
payload_bytes (some b) = b

unfoldable pub dns_packet : Table → Entry → Header → Bytes → AddrPort → Decider → ℕ → Handled
dns_packet t e h pkt src decide now =
    let payload = payload_bytes (payload_of h pkt) in
    if not (same_addr_port src e.originator)
    then dns_response t e payload src (length pkt)
    else dns_message t e payload src (length pkt) decide now
