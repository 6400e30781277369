-- ===== src/Flow/Keys.antt =====
-- KeyOf: both directions of a flow have one key.
use bound_gate_vpn.Prelude.{◌≡◌, arith}
use bound_gate_vpn.Netip.{same_addr_iff}
use bound_gate_vpn.Netip.Laws.{less_total, less_asym}
use bound_gate_vpn.Netparse.Header.{Header}
use bound_gate_vpn.Flow.State.{key_of}

-- The header of a packet the other way.
abbrev pub swap : Header → Header
swap h = record h { src = h.dst; dst = h.src; src_port = h.dst_port; dst_port = h.src_port }

-- A packet and one from its destination back to its source have the same key, whatever their
-- addresses and ports are.
pub key_of-swap : (h : Header) → key_of (swap h) ≡ key_of h
unfolding key_of
key_of-swap h = ground (
  arith,
  less_total h.src h.dst,
  less_asym h.src h.dst,
  less_asym h.dst h.src,
  same_addr_iff h.src h.dst,
  same_addr_iff h.dst h.src,
)
