-- ===== src/Flow/Sweep.antt =====
-- Table.Expire, CloseWhere, Reevaluate and timeout. Go walks a map in no fixed
-- order; here the walk follows the list.
use bound_gate_vpn.Prelude.{
  ℕ, ◌+◌, ◌-◌, Bool, true, not, ◌&&◌, ◌||◌, ltb, leb, ◌==◌, if◌then◌else◌, Bytes, bytes_eq, List,
  [], ◌∷◌, length,
}
use bound_gate_vpn.Prelude.Assoc.{insert, remove}
use bound_gate_vpn.Netparse.Header.{proto_tcp, proto_udp, proto_icmp}
use bound_gate_vpn.Flow.State.{
  Entry, Decider, Table, put, emit, event_of, event_deny, event_close, Key, FragKey, FragState,
  idle, no_client_hello, policy_changed, given, held,
}
use bound_gate_vpn.Flow.Inspect.{decide, release_sni}
use bound_gate_vpn.Flow.Dns.{allows}

-- timeout
unfoldable pub timeout : Table → Entry → ℕ
timeout t e =
    if e.deny_only || e.probing
    then t.timeouts.deny
    else if e.closing
    then t.timeouts.closing
    else if e.proto == proto_tcp && e.packets_out == 0
    then t.timeouts.embryonic
    else if e.proto == proto_tcp
    then t.timeouts.tcp
    else if e.proto == proto_udp
    then t.timeouts.udp
    else if e.proto == proto_icmp
    then t.timeouts.icmp
    else t.timeouts.other

-- The accounts of forget: perPeer without one flow of p.
abbrev pub less_one : List (Bytes × ℕ) → Bytes → List (Bytes × ℕ)
less_one m p = if leb (held m p) 1 then remove p m else insert p (held m p - 1) m

-- forget
unfoldable pub forget : Table → ℕ → Table
forget t r =
    let e = t.heap r in
    put
      (record t {
        sni_free = t.sni_free + length e.sni_buf;
        per_peer = less_one t.per_peer e.origin.principal;
      })
      r (release_sni e)

-- A walk over the flows that forgets those of the test and gathers their references; `kept` holds
-- the flows that stay.
pub record Swept : Type 0 where
  pub table : Table
  pub kept : List (Key × ℕ)
  pub closed : List ℕ

unfoldable pub sweep : (Entry → Bool) → List (Key × ℕ) → Table → Swept
sweep test [] t = record { table = t; kept = []; closed = [] }
sweep test ((k, r) ∷ flows) t =
    let gone = test (t.heap r) in
    let s = sweep test flows (if gone then forget t r else t) in
    if gone then record s { closed = r ∷ s.closed } else record s { kept = (k, r) ∷ s.kept }

abbrev pub swept_table : Swept → Table
swept_table s = record s.table { flows = s.kept }

-- The fragments whose time is over go.
unfoldable pub live_frags : ℕ → List (FragKey × FragState) → List (FragKey × FragState)
live_frags now [] = []
live_frags now ((k, f) ∷ fs) =
    let rest = live_frags now fs in if ltb f.until now then rest else (k, f) ∷ rest

-- One event for each closed flow, oldest first.
unfoldable pub report : (Table → Entry → Table) → List ℕ → Table → Table
report say [] t = t
report say (r ∷ rs) t = report say rs (say t (t.heap r))

abbrev pub say_expired : ℕ → Table → Entry → Table
say_expired now t e =
    if e.allowed
    then emit t (record (event_of event_close e now) { reason = idle })
    else if e.probing
    then emit t (record (event_of event_deny e now) { reason = no_client_hello })
    else t

-- Expire, with the number of flows that were closed
unfoldable pub expire : Table → ℕ → Table × ℕ
expire t now =
    let s = sweep (λ e. ltb (timeout t e) (now - e.last_seen)) t.flows t in
    let t' = record (swept_table s) { frags = live_frags now t.frags } in
    (report (say_expired now) s.closed t', length s.closed)

abbrev pub say_closed : Bytes → ℕ → Table → Entry → Table
say_closed why now t e =
    if e.allowed then emit t (record (event_of event_close e now) { reason = given why }) else t

-- CloseWhere
unfoldable pub close_where : Table → (Entry → Bool) → Bytes → ℕ → Table × ℕ
close_where t test why now =
    let s = sweep test t.flows t in
    (report (say_closed why now) s.closed (swept_table s), length s.closed)

-- Reevaluate's loop body: the entry, decided anew. A DNS flow forgets its questions, and whether
-- its address alone is permitted is asked again.
unfoldable pub decide_again : Decider → Entry → Entry
decide_again dec e =
    let bare = record e { queries = []; dns_name = [] } in
    let asked = if e.dns then record e { queries = []; nameless = allows dec bare } else e in
    let e' = decide dec asked in
    if e'.allowed then e' else record e' { deny_only = true; closing = true }

-- The walk of Reevaluate, with the references of the flows that are denied now.
pub record Judged : Type 0 where
  pub table : Table
  pub denied : List ℕ

unfoldable pub judge_all : Decider → List (Key × ℕ) → Table → Judged
judge_all dec [] t = record { table = t; denied = [] }
judge_all dec ((k, r) ∷ flows) t =
    let e = t.heap r in
    let open_flow = e.decided && e.allowed in
    let e' = decide_again dec e in
    let j = judge_all dec flows (if open_flow then put t r e' else t) in
    if open_flow && not e'.allowed then record j { denied = r ∷ j.denied } else j

abbrev pub say_changed : ℕ → Table → Entry → Table
say_changed now t e =
    emit (emit t (record (event_of event_deny e now) { reason = policy_changed }))
      (record (event_of event_close e now) { reason = policy_changed })

-- Reevaluate
unfoldable pub reevaluate : Table → Decider → ℕ → Table × ℕ
reevaluate t dec now =
    let j = judge_all dec t.flows t in (report (say_changed now) j.denied j.table, length j.denied)
