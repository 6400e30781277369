-- ===== src/Tests/Flows.antt =====
-- A connection, a fragment and a DNS flow of one peer.
use bound_gate_vpn.Prelude.{
  ℕ, ◌+◌, ◌-◌, ◌≡◌, ◌≤◌, ◌≢◌, ◌⊎◌, refl, true, false, none, some, arith, Bytes, [], ◌∷◌, length,
  ltb, List, ◌++◌, IsIn,
}
use bound_gate_vpn.Prelude.Assoc.{lookup, insert}
use bound_gate_vpn.Netip.{v4}
use bound_gate_vpn.Netparse.Header.{Header, proto_tcp, proto_udp, is_syn, is_ack}
use bound_gate_vpn.Netparse.Reset.{build_rst}
use bound_gate_vpn.Flow.State.{
  update, Table, Entry, Origin, Decider, no_result, new_table, held, max_entries, max_sni_bytes,
  src_of, pass, max_queries, default_timeouts, frag_eq,
}
use bound_gate_vpn.Flow.Totals.{total, buffered, owned, Distinct}
use bound_gate_vpn.Flow.Inspect.{inspect, inspect_tcp, count, Inspected, decide, seen, payload_of}
use bound_gate_vpn.Flow.Dns.{
  dns_packet, dns_message, start_dns, accept_query, push_query, allows, name_of, read_query,
  payload_bytes,
}
use bound_gate_vpn.Flow.Handle.{
  handle, judge, known_flow, pass_inspected, new_entry, fragment, follow, frag_key, Done,
  handle_whole, unknown_flow, new_flow, first_packet, remember_frag, related, allocate,
}
use bound_gate_vpn.Flow.Sweep.{expire, close_where, timeout}
use bound_gate_vpn.Flow.Account.{Account, IsOrigin, quota, new_table-Account}
use bound_gate_vpn.Flow.Account.Packets.{handle-Account}
use bound_gate_vpn.Flow.Account.Reach.{Reached, start, after, packet, Reached-bounds}
use bound_gate_vpn.Flow.Purge.{Survives, expire-Survives, close_where-Survives}
use bound_gate_vpn.Flow.Verdict.{IsPermitted, known_flow-IsPermitted, judge-IsPermitted}
use bound_gate_vpn.Flow.Fragments.{Opening, opened_by, Run, begun, received}
use bound_gate_vpn.Flow.Fragments.Recorded.{fragment-IsPermitted}
use bound_gate_vpn.Flow.Questions.{IsAsked, dns_packet-IsPermitted}

abbrev device : Bytes
device = b'd' ∷ b'1' ∷ []

abbrev peer_origin : Origin
peer_origin = record { principal = device; local = false }

peer_origin-IsOrigin : IsOrigin peer_origin
peer_origin-IsOrigin = ((λ h. absurd (ground arith)), (λ h. ground arith))

-- A SYN from 10.0.0.1 port 40000 to 10.0.0.2 port 443.
abbrev syn : Header
syn = record {
  version = 4;
  src = v4 0x0a000001;
  dst = v4 0x0a000002;
  proto = proto_tcp;
  src_port = 40000;
  dst_port = 443;
  payload = some 40;
  tcp_flags = 2;
  seq = 7;
  ack = 0;
  frag_offset = 0;
  more_fragments = false;
  frag_id = 0;
}

abbrev syn_packet : Bytes
syn_packet = build_rst 0x0a000001 0x0a000002 40000 443 7 0 2

abbrev permit_all : Decider
permit_all = some (λ e. record no_result { allow = true })

abbrev some_entry : ℕ → Entry
some_entry r = new_entry [] syn peer_origin 0

abbrev empty_table : Table
empty_table = new_table default_timeouts some_entry

abbrev opened : Table
opened = (handle empty_table [] syn syn_packet peer_origin permit_all 5).table

opened-Reached : Reached opened
opened-Reached =
    after empty_table opened (start default_timeouts some_entry)
      (packet [] syn syn_packet peer_origin permit_all 5 peer_origin-IsOrigin)

Reached-bounds_example :
    length opened.flows ≤ max_entries
    × ((p : Bytes)
        → held opened.per_peer p ≡ total (owned p) opened.heap opened.flows
          × held opened.per_peer p ≤ quota p)
    × opened.sni_free + total buffered opened.heap opened.flows ≡ max_sni_bytes
Reached-bounds_example = Reached-bounds opened opened-Reached

handle-Account_example : Account opened
handle-Account_example =
    handle-Account empty_table [] syn syn_packet peer_origin permit_all 5
      (new_table-Account default_timeouts some_entry) peer_origin-IsOrigin

-- The flow of the SYN, permitted.
abbrev open_entry : Entry
open_entry = record (new_entry [] syn peer_origin 0) { decided = true; allowed = true }

open_entry-passes :
    (known_flow empty_table open_entry syn syn_packet (src_of syn) permit_all 9).outcome ≡ pass
unfolding known_flow pass_inspected inspect inspect_tcp new_entry build_rst count
open_entry-passes = refl

open_entry-is_tcp : open_entry.dns ≡ false
unfolding new_entry
open_entry-is_tcp = refl

known_flow-IsPermitted_example :
    IsPermitted syn syn_packet
      (known_flow empty_table open_entry syn syn_packet (src_of syn) permit_all 9)
known_flow-IsPermitted_example =
    known_flow-IsPermitted empty_table open_entry syn syn_packet (src_of syn) permit_all 9
      open_entry-is_tcp open_entry-passes

abbrev first_look : Inspected
first_look = seen open_entry 100 false false

first_look-passes : (judge empty_table first_look syn (src_of syn) 40 permit_all 9).outcome ≡ pass
unfolding judge decide new_entry
first_look-passes = refl

first_look-is_peer : first_look.entry.origin.local ≡ false
unfolding new_entry
first_look-is_peer = refl

judge-IsPermitted_example :
    let e = (judge empty_table first_look syn (src_of syn) 40 permit_all 9).entry in
    (e.allowed ≡ true × allows permit_all (record first_look.entry { decided = true }) ≡ true)
    ⊎ ((e.allowed ≡ false)
        × (e.probing ≡ true)
        × (e.result.permit_by_sni ≡ true)
        × (syn.proto ≡ proto_tcp)
        × (is_syn syn.tcp_flags ≡ true)
        × (is_ack syn.tcp_flags ≡ false))
judge-IsPermitted_example =
    judge-IsPermitted empty_table first_look syn (src_of syn) 40 permit_all 9 first_look-is_peer
      first_look-passes

-- A packet in two fragments.
abbrev first_half : Header
first_half = record syn { more_fragments = true; frag_id = 3 }

abbrev half : Header
half = record syn { frag_offset = 1480; payload = none; src_port = 0; dst_port = 0; frag_id = 3 }

abbrev half_done : Done
half_done = handle empty_table [] first_half syn_packet peer_origin permit_all 5

abbrev half_log : List Opening
half_log = opened_by first_half 5 half_done ++ []

half_run : Run half_done.table half_log
half_run =
    received empty_table [] (begun default_timeouts some_entry) [] first_half syn_packet peer_origin
      permit_all 5

half-passes : (handle half_done.table [] half [] peer_origin permit_all 9).outcome ≡ pass
unfolding handle handle_whole unknown_flow new_flow first_packet judge inspect inspect_tcp decide
    count remember_frag related allocate fragment follow insert lookup new_table new_entry build_rst
    update
half-passes = refl

fragment-IsPermitted_example :
    (o : Opening) × IsIn o half_log
    × (o.key ≡ frag_key half)
    × (9 ≤ o.time + 10_000_000_000)
    × ((half_done.table.heap o.entry).allowed ≡ true)
    × (24 ≤ half.frag_offset)
fragment-IsPermitted_example =
    fragment-IsPermitted half_done.table half_log [] half [] peer_origin permit_all 9 half_run refl
      half-passes

-- A datagram to port 53 that is no query.
abbrev datagram : Header
datagram = record syn { proto = proto_udp; dst_port = 53; payload = none }

abbrev dns_entry : Entry
dns_entry = record (new_entry [] datagram peer_origin 0) { dns = true; decided = true }

datagram-passes :
    (dns_packet empty_table dns_entry datagram syn_packet (src_of datagram) permit_all 9).outcome
    ≡ pass
unfolding dns_packet dns_message start_dns accept_query push_query new_entry count
datagram-passes = refl

dns_packet-IsPermitted_example :
    let payload = payload_bytes (payload_of datagram syn_packet) in
    ((src_of datagram ≡ dns_entry.originator)
      × allows permit_all
          (record (start_dns permit_all dns_entry) { dns_name = name_of (read_query payload) })
        ≡ true)
    ⊎ ((src_of datagram ≢ dns_entry.originator)
        × ((dns_entry.nameless ≡ true) ⊎ IsAsked dns_entry payload))
dns_packet-IsPermitted_example =
    dns_packet-IsPermitted empty_table dns_entry datagram syn_packet (src_of datagram) permit_all 9
      datagram-passes

dns_entry-queries : length dns_entry.queries ≤ max_queries
unfolding new_entry
dns_entry-queries = omega arith

opened-Distinct : Distinct opened.flows
opened-Distinct = handle-Account_example.distinct

expire-Survives_example :
    Survives (λ e. ltb (timeout opened e) (1000 - e.last_seen)) opened (expire opened 1000).0
    × ((expire opened 1000).1 + length (expire opened 1000).0.flows ≡ length opened.flows)
expire-Survives_example = expire-Survives opened 1000 opened-Distinct

close_where-Survives_example :
    Survives (λ e. e.allowed) opened (close_where opened (λ e. e.allowed) device 9).0
    × ((close_where opened (λ e. e.allowed) device 9).1
          + length (close_where opened (λ e. e.allowed) device 9).0.flows
        ≡ length opened.flows)
close_where-Survives_example = close_where-Survives opened (λ e. e.allowed) device 9 opened-Distinct
