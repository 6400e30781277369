-- ===== src/Netparse/Header.antt =====
-- internal/netparse/netparse.go: the summary of an IP packet. Bytes are numbers; an index or a
-- slice bound out of range is a panic. The payload offset -1 (unknown) is `none`.
use bound_gate_vpn.Prelude.{
  ℕ, ◌+◌, ◌*◌, ◌/◌, ◌%◌, ◌^◌, Bool, true, false, not, ◌&&◌, ◌||◌, Option, none, some, ltb, leb,
  ◌==◌, if◌then◌else◌, Bytes, length, Run, done, ◌>>=◌, byte_at, u16_at, u32_at, from_at,
}
use bound_gate_vpn.Netip.{Addr, invalid, v4, v6}

abbrev pub proto_icmp : ℕ
proto_icmp = 1

abbrev pub proto_tcp : ℕ
proto_tcp = 6

abbrev pub proto_udp : ℕ
proto_udp = 17

-- A bit of a flags byte: the mask is 2 ^ k.
abbrev pub bit : ℕ → ℕ → Bool
bit k x = x / 2 ^ k % 2 == 1

-- TCPFin, TCPSyn, TCPRst, TCPAck
abbrev pub is_fin : ℕ → Bool
is_fin = bit 0

abbrev pub is_syn : ℕ → Bool
is_syn = bit 1

abbrev pub is_rst : ℕ → Bool
is_rst = bit 2

abbrev pub is_ack : ℕ → Bool
is_ack = bit 4

pub record Header : Type 0 where
  pub version : ℕ
  pub src : Addr
  pub dst : Addr
  pub proto : ℕ
  pub src_port : ℕ
  pub dst_port : ℕ
  pub payload : Option ℕ
  pub tcp_flags : ℕ
  pub seq : ℕ
  pub ack : ℕ
  pub frag_offset : ℕ
  pub more_fragments : Bool
  pub frag_id : ℕ

-- The zero Header with Payload -1.
abbrev pub empty_header : Header
empty_header = record {
  version = 0;
  src = invalid;
  dst = invalid;
  proto = 0;
  src_port = 0;
  dst_port = 0;
  payload = none;
  tcp_flags = 0;
  seq = 0;
  ack = 0;
  frag_offset = 0;
  more_fragments = false;
  frag_id = 0;
}

-- Header.Fragment
abbrev pub is_fragment : Header → Bool
is_fragment h = ltb 0 h.frag_offset

unfoldable pub version : Bytes → Run ℕ
version b = if length b == 0 then done 0 else do
  first ← byte_at b 0
  done (if first / 16 == 4 then 4 else if first / 16 == 6 then 6 else 0)

parse_tcp : Header → Bytes → ℕ → Run Header
parse_tcp h l4 off = if ltb (length l4) 20 then done h else do
  src_port ← u16_at l4 0
  dst_port ← u16_at l4 2
  flags ← byte_at l4 13
  seq ← u32_at l4 4
  ack ← u32_at l4 8
  doff_byte ← byte_at l4 12
  let doff = doff_byte / 16 * 4
  done (record h {
    src_port = src_port;
    dst_port = dst_port;
    tcp_flags = flags;
    seq = seq;
    ack = ack;
    payload = if leb 20 doff && leb doff (length l4) then some (off + doff) else h.payload;
  })

parse_udp : Header → Bytes → ℕ → Run Header
parse_udp h l4 off = if ltb (length l4) 8 then done h else do
  src_port ← u16_at l4 0
  dst_port ← u16_at l4 2
  done (record h { src_port = src_port; dst_port = dst_port; payload = some (off + 8) })

unfoldable pub parse_l4 : Header → Bytes → ℕ → Run Header
unfolding parse_tcp parse_udp
parse_l4 h l4 off =
    if h.proto == proto_tcp
    then parse_tcp h l4 off
    else if h.proto == proto_udp
    then parse_udp h l4 off
    else done h

-- The address of the 16 bytes from i on, AddrFrom16.
abbrev pub addr16_at : Bytes → ℕ → Run Addr
addr16_at b i = do
  a ← u32_at b i
  c ← u32_at b (i + 4)
  d ← u32_at b (i + 8)
  e ← u32_at b (i + 12)
  done (v6 (((a * 2 ^ 32 + c) * 2 ^ 32 + d) * 2 ^ 32 + e))

-- The call of parseL4 on b[off:], and the return.
unfoldable pub read_l4 : Header → Bytes → ℕ → Run (Option Header)
read_l4 h b off = do l4 ← from_at b off; full ← parse_l4 h l4 off; done (some full)

-- The fields that case 4 of parse sets.
unfoldable pub read_v4 : Bytes → Run Header
read_v4 b = do
  src ← u32_at b 12
  dst ← u32_at b 16
  proto ← byte_at b 9
  ff ← u16_at b 6
  id ← u16_at b 4
  done (record empty_header {
    version = 4;
    src = v4 src;
    dst = v4 dst;
    proto = proto;
    frag_offset = ff % 0x2000 * 8;
    more_fragments = bit 13 ff;
    frag_id = id;
  })

-- case 4 of parse; `none` is ok=false.
unfoldable pub parse_v4 : Bytes → Bool → Run (Option Header)
parse_v4 b whole = if ltb (length b) 20 then done none else do
  first ← byte_at b 0
  total ← u16_at b 2
  let ihl = first % 16 * 4
  if ltb ihl 20 || ltb total ihl || ltb (length b) ihl || (whole && not (total == length b))
      then done none
      else do h ← read_v4 b; if h.frag_offset == 0 then read_l4 h b ihl else done (some h)

-- case 6 of parse
unfoldable pub parse_v6 : Bytes → Bool → Run (Option Header)
parse_v6 b whole = if ltb (length b) 40 then done none else do
  size ← u16_at b 4
  if whole && not (40 + size == length b) then done none else do
    src ← addr16_at b 8
    dst ← addr16_at b 24
    proto ← byte_at b 6
    read_l4 (record empty_header { version = 6; src = src; dst = dst; proto = proto }) b 40

unfoldable pub parse_in : Bytes → Bool → Run (Option Header)
parse_in b whole = do
  v ← version b
  if v == 4 then parse_v4 b whole else if v == 6 then parse_v6 b whole else done none

-- Parse and ParseQuoted
abbrev pub parse : Bytes → Run (Option Header)
parse b = parse_in b true

abbrev pub parse_quoted : Bytes → Run (Option Header)
parse_quoted b = parse_in b false
