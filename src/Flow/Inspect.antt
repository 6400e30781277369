-- ===== src/Flow/Inspect.antt =====
-- Entry.decide, count, releaseSNI, inspect and inspectTCP.
use bound_gate_vpn.Prelude.{
  ℕ, ◌+◌, ◌-◌, ◌%◌, ◌^◌, min, Bool, true, false, not, ◌&&◌, ◌||◌, Option, none, some, ltb, leb,
  ◌==◌, if◌then◌else◌, Bytes, bytes_eq, same_bytes, [], ◌++◌, length, take, drop, value_or,
}
use bound_gate_vpn.Netip.{AddrPort, same_addr_port}
use bound_gate_vpn.Netparse.Header.{Header, proto_tcp, proto_udp, is_syn, is_ack}
use bound_gate_vpn.Netparse.Tls.{
  SniResult, not_tls, no_name, need_more, found, client_hello_sni, max_client_hello,
}
use bound_gate_vpn.Netparse.Dns.{dns_query_name}
use bound_gate_vpn.Flow.State.{Entry, Decider, no_result}

-- Entry.decide
unfoldable pub decide : Decider → Entry → Entry
decide none e = record e { allowed = false; result = no_result }
decide (some f) e = let r = f e in record e { allowed = r.allow; result = r }

-- Entry.count; the counters are 64 bits wide.
unfoldable pub count : AddrPort → ℕ → Entry → Entry
count src n e =
    if same_addr_port src e.originator
    then record e { packets_in = (e.packets_in + 1) % 2 ^ 64; bytes_in = (e.bytes_in + n) % 2 ^ 64 }
    else record e {
      packets_out = (e.packets_out + 1) % 2 ^ 64;
      bytes_out = (e.bytes_out + n) % 2 ^ 64;
    }

-- What an inspection leaves: the entry, what the table has left for split ClientHellos, and the two
-- results.
pub record Inspected : Type 0 where
  pub entry : Entry
  pub free : ℕ
  pub changed : Bool
  pub hold : Bool

abbrev pub seen : Entry → ℕ → Bool → Bool → Inspected
seen e free changed hold = record { entry = e; free = free; changed = changed; hold = hold }

-- releaseSNI
abbrev pub release_sni : Entry → Entry
release_sni e = record e { sni_buf = [] }

-- uint32 a - b
abbrev pub sub32 : ℕ → ℕ → ℕ
sub32 a b = (a + 2 ^ 32 - b) % 2 ^ 32

-- The payload of a packet; `none` is h.Payload < 0 || h.Payload >= len(pkt).
abbrev pub payload_of : Header → Bytes → Option Bytes
payload_of h pkt = elim h.payload [
  | none ↦ none
  | some p ↦ if ltb p (length pkt) then some (drop p pkt) else none
]

-- The end of inspectTCP: the buffer has grown, and is read.
abbrev pub name_read : Entry → ℕ → SniResult → Inspected
name_read e free (found name) = seen (record e { sni = name; sni_done = true }) free true false
name_read e free not_tls = seen (record e { sni_done = true }) free false false
name_read e free no_name = seen (record e { sni_done = true }) free false false
name_read e free need_more = seen e free false false

-- ClientHelloSNI, which does not panic (Netparse.Tls.Hosts).
abbrev pub read_sni : Bytes → SniResult
read_sni b = value_or not_tls (client_hello_sni b)

-- New bytes behind the buffer.
unfoldable pub take_bytes : Entry → Bytes → ℕ → Inspected
take_bytes e rest free =
    if ltb max_client_hello (length e.sni_buf + length rest) || ltb free (length rest)
    then seen (record e { sni_buf = []; sni_done = true }) (free + length e.sni_buf) false false
    else (let buf = e.sni_buf ++ rest in
        name_read (record e { sni_buf = buf }) (free - length rest) (read_sni buf))

-- inspectTCP from the comparison of `off` with the buffer on.
unfoldable pub at_offset : Entry → Bytes → ℕ → ℕ → Inspected
at_offset e payload off free =
    let n = min (length payload) (length e.sni_buf - off) in
    let rest = drop n payload in
    if ltb (length e.sni_buf) off
    then seen e free false (not e.sni_done)
    else if not (same_bytes (take n payload) (take n (drop off e.sni_buf)))
    then seen e free false true
    else if e.sni_done || length rest == 0
    then seen e free false false
    else take_bytes e rest free

-- inspectTCP from `payload := pkt[h.Payload:]` on, with the segment's first sequence number.
unfoldable pub at_payload : Entry → Bytes → ℕ → ℕ → Inspected
at_payload e payload seq free =
    let e' = if e.sni_seq then e else record e { sni_start = seq; sni_seq = true } in
    let d = sub32 seq e'.sni_start in
    if ltb d (2 ^ 31)
    then at_offset e' payload d free
    else if leb (length payload) (2 ^ 32 - d)
    then seen e' free false false
    else at_offset e' (drop (2 ^ 32 - d) payload) 0 free

-- inspectTCP for a segment of the other side
unfoldable pub acknowledged : Entry → Header → ℕ → Inspected
acknowledged e h free =
    if e.sni_done
      && not (length e.sni_buf == 0)
      && is_ack h.tcp_flags
      && ltb (sub32 h.ack ((e.sni_start + length e.sni_buf) % 2 ^ 32)) (2 ^ 31)
    then seen (release_sni e) (free + length e.sni_buf) false false
    else seen e free false false

unfoldable pub inspect_tcp : Entry → Header → Bytes → AddrPort → ℕ → Inspected
inspect_tcp e h pkt src free =
    if not (same_addr_port src e.originator)
    then acknowledged e h free
    else (let seq = if is_syn h.tcp_flags then (h.seq + 1) % 2 ^ 32 else h.seq in
        let e' =
          if is_syn h.tcp_flags && not e.sni_seq
          then record e { sni_start = seq; sni_seq = true }
          else e in
        elim (payload_of h pkt) [
          | none ↦ seen e' free false false
          | some payload ↦
              if e.sni_done && length e.sni_buf == 0
              then seen e' free false false
              else at_payload e' payload seq free
        ])

-- The name of a DNS question, which is read without a panic (Netparse.Dns.Messages).
abbrev pub read_question : Bytes → Option Bytes
read_question payload = value_or none (dns_query_name payload)

-- inspect for UDP: the question of the first packet to port 53
unfoldable pub inspect_udp : Entry → Bytes → ℕ → Inspected
inspect_udp e payload free = elim (read_question payload) [
  | none ↦ seen (record e { dns_done = true }) free false false
  | some name ↦ seen (record e { dns_done = true; dns_name = name }) free true false
]

unfoldable pub inspect : Entry → Header → Bytes → AddrPort → ℕ → Inspected
inspect e h pkt src free =
    if h.proto == proto_tcp
    then inspect_tcp e h pkt src free
    else if not (same_addr_port src e.originator)
    then seen e free false false
    else elim (payload_of h pkt) [
      | none ↦ seen e free false false
      | some payload ↦
          if h.proto == proto_udp && not e.dns_done && h.dst_port == 53
          then inspect_udp e payload free
          else seen e free false false
    ]
