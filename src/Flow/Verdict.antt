-- ===== src/Flow/Verdict.antt =====
-- What passes a table: a peer's packets pass under a permission.
use bound_gate_vpn.Prelude.{ℕ, ◌≡◌, ◌⊎◌, true, false, none, some, arith, Bytes, length}
use bound_gate_vpn.Netip.{AddrPort}
use bound_gate_vpn.Netparse.Header.{Header, proto_tcp, is_syn, is_ack}
use bound_gate_vpn.Flow.State.{Entry, Decider, Table, pass, key_eq, frag_eq}
use bound_gate_vpn.Flow.Inspect.{Inspected, inspect, decide, count, payload_of}
use bound_gate_vpn.Flow.Dns.{Handled, allows}
use bound_gate_vpn.Flow.Handle.{end_probe, probe_payload, probe, pass_inspected, known_flow, judge}
use bound_gate_vpn.Flow.Settle.{Metered, inspect-Metered}

-- The packet passed under a permission, or is a handshake segment without payload of a flow whose
-- server name is still to come.
abbrev pub IsPermitted : Header → Bytes → Handled → Type 0
IsPermitted h pkt d =
    (d.entry.allowed ≡ true) ⊎ ((d.entry.probing ≡ true) × (payload_of h pkt ≡ none))

count-allowed : (src : AddrPort) (n : ℕ) (e : Entry) → (count src n e).allowed ≡ e.allowed
unfolding count
count-allowed src n e = ground arith

end_probe-IsPermitted :
    (t : Table) (e : Entry) (src : AddrPort) (n now : ℕ)
    → (end_probe t e src n now).outcome ≡ pass
    → (end_probe t e src n now).entry.allowed ≡ true
unfolding end_probe
end_probe-IsPermitted t e src n now h =
    ground (arith, count-allowed src n (record e { probing = false }))

probe-IsPermitted :
    (t : Table) (e : Entry) (h : Header) (pkt : Bytes) (src : AddrPort) (dec : Decider) (now : ℕ)
    → e.probing ≡ true
    → (probe t e h pkt src dec now).outcome ≡ pass
    → IsPermitted h pkt (probe t e h pkt src dec now)
unfolding probe probe_payload
probe-IsPermitted t e h pkt src dec now p o = grind (arith, end_probe-IsPermitted)

pass_inspected-IsPermitted :
    (t : Table) (e : Entry) (i : Inspected) (h : Header) (src : AddrPort) (n : ℕ) (dec : Decider)
    (now : ℕ)
    → Metered e t.sni_free i
    → e.allowed ≡ true
    → (pass_inspected t i h src n dec now).outcome ≡ pass
    → (pass_inspected t i h src n dec now).entry.allowed ≡ true
unfolding pass_inspected
pass_inspected-IsPermitted t e i h src n dec now m a o =
    ground (arith, count-allowed src n i.entry, count-allowed src n (decide dec i.entry))

-- A packet of a known flow that is not DNS passes only when the flow is allowed afterwards, or when
-- the packet has no payload and its flow still waits for the server name.
pub known_flow-IsPermitted :
    (t : Table) (e : Entry) (h : Header) (pkt : Bytes) (src : AddrPort) (dec : Decider) (now : ℕ)
    → e.dns ≡ false
    → (known_flow t e h pkt src dec now).outcome ≡ pass
    → IsPermitted h pkt (known_flow t e h pkt src dec now)
unfolding known_flow
known_flow-IsPermitted t e h pkt src dec now no_dns o =
    let e' : Entry = record e { last_seen = now } in
    let e'' : Entry = record e { last_seen = now; closing = true } in
    let i : Inspected = inspect e' h pkt src t.sni_free in
    let i' : Inspected = inspect e'' h pkt src t.sni_free in
    ground (
      arith,
      probe-IsPermitted t e' h pkt src dec now,
      pass_inspected-IsPermitted t e' i h src (length pkt) dec now
          (inspect-Metered e' h pkt src t.sni_free),
      pass_inspected-IsPermitted t e'' i' h src (length pkt) dec now
          (inspect-Metered e'' h pkt src t.sni_free),
    )

-- Behind the inspection, the first packet of a peer's flow that is not DNS passes only when the
-- decider permits the flow as it was inspected; or when it opens a TCP connection that is not
-- permitted yet, and the decider said that a server name could permit it.
pub judge-IsPermitted :
    (t : Table) (i : Inspected) (h : Header) (src : AddrPort) (n : ℕ) (dec : Decider) (now : ℕ)
    → i.entry.origin.local ≡ false
    → (judge t i h src n dec now).outcome ≡ pass
    → let e = (judge t i h src n dec now).entry in
      (e.allowed ≡ true × allows dec (record i.entry { decided = true }) ≡ true)
      ⊎ ((e.allowed ≡ false)
          × (e.probing ≡ true)
          × (e.result.permit_by_sni ≡ true)
          × (h.proto ≡ proto_tcp)
          × (is_syn h.tcp_flags ≡ true)
          × (is_ack h.tcp_flags ≡ false))
unfolding judge decide
judge-IsPermitted t i h src n none now l o = ground arith
judge-IsPermitted t i h src n (some f) now l o =
    ground (arith, count-allowed src n (decide (some f) (record i.entry { decided = true })))
