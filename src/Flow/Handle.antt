-- ===== src/Flow/Handle.antt =====
-- Table.Handle, handle, fragment, probe and relatedLocked. Handle takes the table's lock once for the
-- packet and again for the entry of a first fragment; here both are one step.
use bound_gate_vpn.Prelude.{
  ℕ, suc, ◌+◌, ◌*◌, ◌%◌, ◌^◌, Bool, true, false, not, ◌&&◌, ◌||◌, Option, none, some, ltb, leb,
  ◌==◌, if◌then◌else◌, Bytes, bytes_eq, [], length, value_or, get_or, drop as drop_bytes,
}
use bound_gate_vpn.Prelude.Assoc.{lookup, insert, remove}
use bound_gate_vpn.Netip.{Addr, AddrPort, same_addr, same_addr_port}
use bound_gate_vpn.Netparse.Header.{
  Header, parse_quoted, is_fragment, proto_tcp, proto_udp, proto_icmp, is_syn, is_ack, is_fin,
  is_rst,
}
use bound_gate_vpn.Flow.State.{
  Entry, Decider, no_result, Table, put, emit, event_of, event_open, event_deny, Outcome, drop,
  pass, reset, Key, key_of, key_eq, src_of, dst_of, Origin, FragKey, frag_eq, FragState,
  max_entries, max_per_peer, max_local, max_frags, frag_ttl, min_frag_offset, held,
}
use bound_gate_vpn.Flow.Inspect.{count, payload_of, inspect, decide, Inspected}
use bound_gate_vpn.Flow.Dns.{Handled, handled, dns_packet}

-- stray: a TCP segment that does not open a connection
abbrev pub is_stray : Header → Bool
is_stray h = h.proto == proto_tcp && not (is_syn h.tcp_flags && not (is_ack h.tcp_flags))

abbrev pub frag_key : Header → FragKey
frag_key h = record { src = h.src; dst = h.dst; proto = h.proto; id = h.frag_id }

-- srcPortOf
abbrev pub src_port_of : Entry → Addr → ℕ
src_port_of e src = if same_addr e.originator.addr src then e.originator.port else e.target.port

-- What Handle returns, with the new table; an entry is named by its reference.
pub record Done : Type 0 where
  pub outcome : Outcome
  pub entry : Option ℕ
  pub table : Table

abbrev pub dropped : Table → Done
dropped t = record { outcome = drop; entry = none; table = t }

-- The entry of a handled flow is written to the heap.
abbrev pub write : ℕ → Handled → Done
write r d = record { outcome = d.outcome; entry = some r; table = put d.table r d.entry }

-- fragment, for the state of the packet's first fragment
unfoldable pub follow : Table → Header → ℕ → ℕ → Option FragState → Done
follow t h n now none = dropped (record t { strays = (t.strays + 1) % 2 ^ 64 })
follow t h n now (some f) =
    let e = t.heap f.entry in
    if ltb f.until now || not e.allowed || ltb h.frag_offset min_frag_offset
    then dropped (record t { strays = (t.strays + 1) % 2 ^ 64 })
    else (let t' =
          if h.more_fragments then t else record t { frags = remove (frag_key h) t.frags } in
        let src : AddrPort = record { addr = h.src; port = src_port_of e h.src } in
        write f.entry (handled pass (count src n (record e { last_seen = now })) t'))

unfoldable pub fragment : Table → Header → ℕ → ℕ → Done
fragment t h n now = follow t h n now (lookup (frag_key h) t.frags)

-- relatedLocked from the parsed inner packet on
abbrev pub related_inner : Table → Header → Option Header → Option ℕ
related_inner t h none = none
related_inner t h (some inner) =
    if not (same_addr h.dst inner.src) then none else elim (lookup (key_of inner) t.flows) [
      | none ↦ none
      | some r ↦ if (t.heap r).allowed then some r else none
    ]

-- The ICMP errors that may pass: unreachable, source quench, time exceeded, parameter problem.
abbrev pub error_type : ℕ → Bool
error_type typ = typ == 3 || typ == 4 || typ == 11 || typ == 12

unfoldable pub related : Table → Header → Bytes → Option ℕ
related t h pkt =
    let ihl = get_or pkt 0 0 % 16 * 4 in
    if not (h.proto == proto_icmp) || not (h.version == 4) || ltb (length pkt) 20
    then none
    else if ltb (length pkt) (ihl + 8 + 20)
    then none
    else if not (error_type (get_or pkt ihl 0))
    then none
    else related_inner t h (value_or none (parse_quoted (drop_bytes (ihl + 8) pkt)))

-- probe, once the name is decided or will never be
unfoldable pub end_probe : Table → Entry → AddrPort → ℕ → ℕ → Handled
end_probe t e src n now =
    if e.allowed
    then (let e' = count src n (record e { probing = false }) in
        handled pass e' (emit t (event_of event_open e' now)))
    else (let e' = record e { probing = false; deny_only = true; closing = true } in
        handled reset e' (emit t (record (event_of event_deny e' now) { reset = true })))

-- The originator's payload: it is held back until the name was read.
unfoldable pub probe_payload : Table → Inspected → AddrPort → ℕ → Decider → ℕ → Handled
probe_payload t i src n dec now =
    let t' = record t { sni_free = i.free } in
    if i.hold || not i.entry.sni_done
    then handled drop i.entry t'
    else end_probe t' (if length i.entry.sni == 0 then i.entry else decide dec i.entry) src n now

abbrev pub is_end : Header → Bool
is_end h = is_fin h.tcp_flags || is_rst h.tcp_flags

unfoldable pub probe : Table → Entry → Header → Bytes → AddrPort → Decider → ℕ → Handled
probe t e h pkt src dec now =
    let e' = if is_end h then record e { closing = true } else e in
    elim (payload_of h pkt) [
      | none ↦ handled pass e' t
      | some payload ↦
          if same_addr_port src e.originator
          then probe_payload t (inspect e' h pkt src t.sni_free) src (length pkt) dec now
          else end_probe t e' src (length pkt) now
    ]

-- handle for an allowed flow, behind the inspection
unfoldable pub pass_inspected : Table → Inspected → Header → AddrPort → ℕ → Decider → ℕ → Handled
pass_inspected t i h src n dec now =
    let t' = record t { sni_free = i.free } in
    let e = if i.changed && i.entry.decided then decide dec i.entry else i.entry in
    if i.hold && not i.entry.origin.local
    then handled drop i.entry t'
    else if e.allowed || not (i.changed && i.entry.decided)
    then handled pass (count src n e) t'
    else (let resets = h.proto == proto_tcp in
        let t'' = emit t' (record (event_of event_deny e now) { reset = resets }) in
        handled (if resets then reset else drop) (record e { closing = true }) t'')

-- handle for a flow of the table
unfoldable pub known_flow : Table → Entry → Header → Bytes → AddrPort → Decider → ℕ → Handled
known_flow t old h pkt src dec now =
    let e = record old { last_seen = now } in
    if e.dns
    then dns_packet t e h pkt src dec now
    else if e.probing
    then probe t e h pkt src dec now
    else if not e.allowed
    then handled drop e t
    else (let e' = if h.proto == proto_tcp && is_end h then record e { closing = true } else e in
        pass_inspected t (inspect e' h pkt src t.sni_free) h src (length pkt) dec now)

-- The entry of a first packet; `id` is the random one that newID drew.
unfoldable pub new_entry : Bytes → Header → Origin → ℕ → Entry
new_entry id h origin now = record {
  id = id;
  key = key_of h;
  originator = src_of h;
  target = dst_of h;
  proto = h.proto;
  origin = origin;
  decided = false;
  allowed = false;
  result = no_result;
  sni = [];
  dns_name = [];
  opened = now;
  last_seen = now;
  bytes_in = 0;
  bytes_out = 0;
  packets_in = 0;
  packets_out = 0;
  sni_buf = [];
  sni_start = 0;
  sni_seq = false;
  sni_done = false;
  dns_done = false;
  closing = false;
  deny_only = false;
  dns = false;
  dns_started = false;
  nameless = false;
  queries = [];
  last_denied = [];
  probing = false;
}

-- t.m[key] = e; t.perPeer[origin.Principal]++
unfoldable pub allocate : Table → Key → Bytes → Table
allocate t key principal = record t {
  next = suc t.next;
  flows = insert key t.next t.flows;
  per_peer = insert principal (held t.per_peer principal + 1) t.per_peer;
}

-- handle for a first packet, behind the inspection
unfoldable pub judge : Table → Inspected → Header → AddrPort → ℕ → Decider → ℕ → Handled
judge t i h src n dec now =
    let t' = record t { sni_free = i.free } in
    let e = decide dec (record i.entry { decided = true }) in
    if i.entry.origin.local
    then (let e' = count src n (record i.entry { allowed = true }) in
        handled pass e' (emit t' (event_of event_open e' now)))
    else if e.allowed
    then (let e' = count src n e in handled pass e' (emit t' (event_of event_open e' now)))
    else if e.result.permit_by_sni && h.proto == proto_tcp && not (is_stray h)
    then handled pass (record e { probing = true }) t'
    else (let e' = record e { deny_only = true } in
        if is_stray h
        then handled drop e' (record t' { strays = (t'.strays + 1) % 2 ^ 64 })
        else handled drop e' (emit t' (event_of event_deny e' now)))

-- handle for a first packet whose entry `e` is in the table
unfoldable pub first_packet : Table → Entry → Header → Bytes → Decider → ℕ → Handled
first_packet t e h pkt dec now =
    if not e.origin.local && h.proto == proto_udp && h.dst_port == 53
    then dns_packet t (record e { dns = true; decided = true }) h pkt (src_of h) dec now
    else judge t (inspect e h pkt (src_of h) t.sni_free) h (src_of h) (length pkt) dec now

-- handle for a packet that opens a flow
unfoldable pub new_flow : Table → Bytes → Header → Bytes → Origin → Decider → ℕ → Done
new_flow t id h pkt origin dec now =
    if leb max_entries (length t.flows)
      || leb (if origin.local then max_local else max_per_peer) (held t.per_peer origin.principal)
    then dropped (record t { overflow = (t.overflow + 1) % 2 ^ 64 })
    else write t.next (
        first_packet (allocate t (key_of h) origin.principal) (new_entry id h origin now) h pkt dec
          now)

-- handle for a packet of no flow
unfoldable pub unknown_flow : Table → Bytes → Header → Bytes → Origin → Decider → ℕ → Done
unknown_flow t id h pkt origin dec now = elim (related t h pkt) [
  | some r ↦ write r (handled pass (record (t.heap r) { last_seen = now }) t)
  | none ↦ new_flow t id h pkt origin dec now
]

unfoldable pub handle_whole : Table → Bytes → Header → Bytes → Origin → Decider → ℕ → Done
handle_whole t id h pkt origin dec now = elim (lookup (key_of h) t.flows) [
  | none ↦ unknown_flow t id h pkt origin dec now
  | some r ↦ write r (known_flow t (t.heap r) h pkt (src_of h) dec now)
]

abbrev pub is_pass : Outcome → Bool
is_pass pass = true
is_pass _ = false

-- t.frags[...] = fragState{...}, while there is room
abbrev pub add_frag : Table → Header → ℕ → ℕ → Table
add_frag t h r now =
    if ltb (length t.frags) max_frags
    then record t {
      frags = insert (frag_key h) (record { entry = r; until = now + frag_ttl }) t.frags;
    }
    else t

-- The fragments of a packet whose first one passed may follow it.
unfoldable pub remember_frag : Header → ℕ → Done → Done
remember_frag h now d = elim d.entry [
  | none ↦ d
  | some r ↦
      if is_pass d.outcome && h.more_fragments
      then record d { table = add_frag d.table h r now }
      else d
]

-- Handle
unfoldable pub handle : Table → Bytes → Header → Bytes → Origin → Decider → ℕ → Done
handle t id h pkt origin dec now =
    if is_fragment h
    then fragment t h (length pkt) now
    else remember_frag h now (handle_whole t id h pkt origin dec now)
