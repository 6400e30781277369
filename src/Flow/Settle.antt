-- ===== src/Flow/Settle.antt =====
-- What one packet changes: only its own flow's entry, and bytes move only between the table's free
-- ones and that entry's buffer.
use bound_gate_vpn.Prelude.{
  ℕ, ◌+◌, ◌-◌, ◌≡◌, Bool, true, false, Option, none, some, arith, Bytes, ◌++◌, length,
  length-append, drop as drop_bytes, min, ◌∙◌, refl, List, if◌then◌else◌,
}
use bound_gate_vpn.Netip.{AddrPort}
use bound_gate_vpn.Netparse.Header.{Header}
use bound_gate_vpn.Netparse.Tls.{SniResult, not_tls, no_name, need_more, found}
use bound_gate_vpn.Flow.State.{Entry, Decider, Result, Table, src_of, Outcome, Event, pass, drop}
use bound_gate_vpn.Flow.Inspect.{
  Inspected, name_read, read_sni, take_bytes, at_offset, at_payload, acknowledged, inspect_tcp,
  inspect_udp, inspect, decide, count,
}
use bound_gate_vpn.Flow.Dns.{
  Handled, handled, dns_packet, dns_response, dns_message, refuse_query, accept_query, start_dns,
}
use bound_gate_vpn.Flow.Handle.{
  end_probe, probe_payload, probe, pass_inspected, known_flow, judge, first_packet,
}

pub record Metered (e : Entry) (free : ℕ) (i : Inspected) : Type 0 where
  pub origin : i.entry.origin ≡ e.origin
  pub key : i.entry.key ≡ e.key
  pub allowed : i.entry.allowed ≡ e.allowed
  pub probing : i.entry.probing ≡ e.probing
  pub result : i.entry.result ≡ e.result
  pub bytes : i.free + length i.entry.sni_buf ≡ free + length e.sni_buf

name_read-Metered : (e : Entry) (free : ℕ) (r : SniResult) → Metered e free (name_read e free r)
name_read-Metered e free (found name) = ground arith
name_read-Metered e free not_tls = ground arith
name_read-Metered e free no_name = ground arith
name_read-Metered e free need_more = ground arith

take_bytes-Metered : (e : Entry) (rest : Bytes) (free : ℕ) → Metered e free (take_bytes e rest free)
unfolding take_bytes
take_bytes-Metered e rest free =
    let buf : Bytes = e.sni_buf ++ rest in
    ground (
      arith,
      length-append e.sni_buf rest,
      name_read-Metered (record e { sni_buf = buf }) (free - length rest) (read_sni buf),
    )

at_offset-Metered :
    (e : Entry) (payload : Bytes) (off free : ℕ) → Metered e free (at_offset e payload off free)
unfolding at_offset
at_offset-Metered e payload off free = ground (
  arith,
  take_bytes-Metered e (drop_bytes (min (length payload) (length e.sni_buf - off)) payload) free,
)

at_payload-Metered :
    (e : Entry) (payload : Bytes) (seq free : ℕ) → Metered e free (at_payload e payload seq free)
unfolding at_payload
at_payload-Metered e payload seq free = grind (arith, at_offset-Metered)

inspect_tcp-Metered :
    (e : Entry) (h : Header) (pkt : Bytes) (src : AddrPort) (free : ℕ)
    → Metered e free (inspect_tcp e h pkt src free)
unfolding inspect_tcp acknowledged
inspect_tcp-Metered e h pkt src free = grind (arith, at_payload-Metered)

pub inspect-Metered :
    (e : Entry) (h : Header) (pkt : Bytes) (src : AddrPort) (free : ℕ)
    → Metered e free (inspect e h pkt src free)
unfolding inspect inspect_udp
inspect-Metered e h pkt src free = grind (arith, inspect_tcp-Metered)

pub record Settled (t : Table) (e : Entry) (d : Handled) : Type 0 where
  pub flows : d.table.flows ≡ t.flows
  pub next : d.table.next ≡ t.next
  pub per_peer : d.table.per_peer ≡ t.per_peer
  pub heap : d.table.heap ≡ t.heap
  pub frags : d.table.frags ≡ t.frags
  pub origin : d.entry.origin ≡ e.origin
  pub key : d.entry.key ≡ e.key
  pub bytes : d.table.sni_free + length d.entry.sni_buf ≡ t.sni_free + length e.sni_buf

-- Counting and deciding leave the books alone.
record Same (e f : Entry) : Type 0 where
  origin : f.origin ≡ e.origin
  key : f.key ≡ e.key
  buf : f.sni_buf ≡ e.sni_buf

count-Same : (src : AddrPort) (n : ℕ) (e : Entry) → Same e (count src n e)
unfolding count
count-Same src n e = ground arith

decide-Same : (dec : Decider) (e : Entry) → Same e (decide dec e)
unfolding decide
decide-Same none e = ground arith
decide-Same (some f) e = ground arith

start_dns-Same : (dec : Decider) (e : Entry) → Same e (start_dns dec e)
unfolding start_dns
start_dns-Same dec e = ground arith

refuse_query-Settled :
    (t : Table) (e : Entry) (res : Result) (report : Bool) (now : ℕ)
    → Settled t e (refuse_query t e res report now)
unfolding refuse_query
refuse_query-Settled t e res report now = ground arith

accept_query-Settled :
    (t : Table) (e : Entry) (res : Result) (query : Option (ℕ × Bytes)) (src : AddrPort) (n now : ℕ)
    → Settled t e (accept_query t e res query src n now)
unfolding accept_query count
accept_query-Settled t e res query src n now = ground arith

dns_message-Settled :
    (t : Table) (e : Entry) (payload : Bytes) (src : AddrPort) (n : ℕ) (dec : Decider) (now : ℕ)
    → Settled t e (dns_message t e payload src n dec now)
unfolding dns_message
dns_message-Settled t e payload src n dec now =
    grind (arith, start_dns-Same dec e, refuse_query-Settled, accept_query-Settled)

dns_response-Settled :
    (t : Table) (e : Entry) (payload : Bytes) (src : AddrPort) (n : ℕ)
    → Settled t e (dns_response t e payload src n)
unfolding dns_response
dns_response-Settled t e payload src n = grind (arith, count-Same)

pub dns_packet-Settled :
    (t : Table) (e : Entry) (h : Header) (pkt : Bytes) (src : AddrPort) (dec : Decider) (now : ℕ)
    → Settled t e (dns_packet t e h pkt src dec now)
unfolding dns_packet
dns_packet-Settled t e h pkt src dec now = grind (arith, dns_response-Settled, dns_message-Settled)

end_probe-Settled :
    (t : Table) (e : Entry) (src : AddrPort) (n now : ℕ) → Settled t e (end_probe t e src n now)
unfolding end_probe count
end_probe-Settled t e src n now = ground arith

probe_payload-Settled :
    (t : Table) (e : Entry) (i : Inspected) (src : AddrPort) (n : ℕ) (dec : Decider) (now : ℕ)
    → Metered e t.sni_free i
    → Settled t e (probe_payload t i src n dec now)
unfolding probe_payload
probe_payload-Settled t e i src n dec now m =
    let t' : Table = record t { sni_free = i.free } in
    ground (
      arith,
      decide-Same dec i.entry,
      end_probe-Settled t' i.entry src n now,
      end_probe-Settled t' (decide dec i.entry) src n now,
    )

pub probe-Settled :
    (t : Table) (e : Entry) (h : Header) (pkt : Bytes) (src : AddrPort) (dec : Decider) (now : ℕ)
    → Settled t e (probe t e h pkt src dec now)
unfolding probe
probe-Settled t e h pkt src dec now =
    let e' : Entry = record e { closing = true } in
    let i : Inspected = inspect e h pkt src t.sni_free in
    let i' : Inspected = inspect e' h pkt src t.sni_free in
    ground (
      arith,
      probe_payload-Settled t e i src (length pkt) dec now (inspect-Metered e h pkt src t.sni_free),
      probe_payload-Settled t e' i' src (length pkt) dec now
          (inspect-Metered e' h pkt src t.sni_free),
      end_probe-Settled t e src (length pkt) now,
      end_probe-Settled t e' src (length pkt) now,
    )

pass_inspected-Settled :
    (t : Table) (e : Entry) (i : Inspected) (h : Header) (src : AddrPort) (n : ℕ) (dec : Decider)
    (now : ℕ)
    → Metered e t.sni_free i
    → Settled t e (pass_inspected t i h src n dec now)
unfolding pass_inspected
pass_inspected-Settled t e i h src n dec now m = ground (
  arith,
  decide-Same dec i.entry,
  count-Same src n i.entry,
  count-Same src n (decide dec i.entry),
)

-- An entry that was inspected, and a table that takes over what is free.
charged-Settled :
    (t : Table) (e : Entry) (i : Inspected) (out : Outcome) (f : Entry) (events : List Event)
    (strays : ℕ)
    → Metered e t.sni_free i
    → Same i.entry f
    → Settled t e (handled out f (record t { sni_free = i.free; events = events; strays = strays }))
charged-Settled t e i out f events strays m s = record {
  flows = refl;
  next = refl;
  per_peer = refl;
  heap = refl;
  frags = refl;
  origin = s.origin ∙ m.origin;
  key = s.key ∙ m.key;
  bytes = rw s.buf m.bytes;
}

mark-Same :
    (e f : Entry) (probing deny_only : Bool)
    → Same e f
    → Same e (record f { probing = probing; deny_only = deny_only })
mark-Same e f probing deny_only s = record { origin = s.origin; key = s.key; buf = s.buf }

count-after : (e f : Entry) (src : AddrPort) (n : ℕ) → Same e f → Same e (count src n f)
count-after e f src n s =
    let c = count-Same src n f in
    record { origin = c.origin ∙ s.origin; key = c.key ∙ s.key; buf = c.buf ∙ s.buf }

decided-Same : (dec : Decider) (e : Entry) → Same e (decide dec (record e { decided = true }))
decided-Same dec e =
    let s = decide-Same dec (record e { decided = true }) in
    record { origin = s.origin; key = s.key; buf = s.buf }

if-Settled :
    (t : Table) (e : Entry) (b : Bool) (x y : Handled)
    → Settled t e x
    → Settled t e y
    → Settled t e (if b then x else y)
if-Settled t e true x y p q = p
if-Settled t e false x y p q = q

judge-Settled :
    (t : Table) (e : Entry) (i : Inspected) (h : Header) (src : AddrPort) (n : ℕ) (dec : Decider)
    (now : ℕ)
    → Metered e t.sni_free i
    → Settled t e (judge t i h src n dec now)
unfolding judge
judge-Settled t e i h src n dec now m =
    let f : Entry = decide dec (record i.entry { decided = true }) in
    let s = decided-Same dec i.entry in
    let here =
      count-after i.entry (record i.entry { allowed = true }) src n
        (record { origin = refl; key = refl; buf = refl }) in
    if-Settled t e _ _ _ (charged-Settled t e i pass _ _ t.strays m here) (
      if-Settled t e _ _ _
        (charged-Settled t e i pass _ _ t.strays m (count-after i.entry f src n s))
        (if-Settled t e _ _ _
          (charged-Settled t e i pass _ t.events t.strays m
            (mark-Same i.entry f true f.deny_only s))
          (if-Settled t e _ _ _
            (charged-Settled t e i drop _ t.events _ m (mark-Same i.entry f f.probing true s))
            (charged-Settled t e i drop _ _ t.strays m (mark-Same i.entry f f.probing true s)))))

pub known_flow-Settled :
    (t : Table) (e : Entry) (h : Header) (pkt : Bytes) (src : AddrPort) (dec : Decider) (now : ℕ)
    → Settled t e (known_flow t e h pkt src dec now)
unfolding known_flow
known_flow-Settled t e h pkt src dec now =
    let e' : Entry = record e { last_seen = now } in
    let e'' : Entry = record e { last_seen = now; closing = true } in
    let i : Inspected = inspect e' h pkt src t.sni_free in
    let i' : Inspected = inspect e'' h pkt src t.sni_free in
    ground (
      arith,
      dns_packet-Settled t e' h pkt src dec now,
      probe-Settled t e' h pkt src dec now,
      pass_inspected-Settled t e' i h src (length pkt) dec now
          (inspect-Metered e' h pkt src t.sni_free),
      pass_inspected-Settled t e'' i' h src (length pkt) dec now
          (inspect-Metered e'' h pkt src t.sni_free),
    )

pub first_packet-Settled :
    (t : Table) (e : Entry) (h : Header) (pkt : Bytes) (dec : Decider) (now : ℕ)
    → Settled t e (first_packet t e h pkt dec now)
unfolding first_packet
first_packet-Settled t e h pkt dec now =
    let e' : Entry = record e { dns = true; decided = true } in
    let i : Inspected = inspect e h pkt (src_of h) t.sni_free in
    ground (
      arith,
      dns_packet-Settled t e' h pkt (src_of h) dec now,
      judge-Settled t e i h (src_of h) (length pkt) dec now
          (inspect-Metered e h pkt (src_of h) t.sni_free),
    )
