-- ===== src/Netparse/Reset/Parsed.antt =====
-- What the reader of packets makes of the segments that are sent.
use bound_gate_vpn.Prelude.{
  ℕ, ◌+◌, ◌*◌, ◌/◌, ◌%◌, ◌^◌, ◌≡◌, ◌<◌, ◌-◌, arith, some, if◌then◌else◌, done, Bytes, length, subst,
  ◌==◌,
}
use bound_gate_vpn.Netip.{v4}
use bound_gate_vpn.Netparse.Header.{
  Header, parse, parse_in, version, parse_v4, read_v4, read_l4, parse_l4, proto_tcp, empty_header,
  is_ack,
}
use bound_gate_vpn.Netparse.Reset.{build_rst, resets, segment_len, tcp_reset}
use bound_gate_vpn.Netparse.Reset.Again.{tcp_reset-resets}

abbrev pub rst_header : ℕ → ℕ → ℕ → ℕ → ℕ → ℕ → ℕ → Header
rst_header src dst sport dport seq ack flags = record empty_header {
  version = 4;
  src = v4 src;
  dst = v4 dst;
  proto = proto_tcp;
  src_port = sport;
  dst_port = dport;
  payload = some 40;
  tcp_flags = flags;
  seq = seq;
  ack = ack;
}

u16_lem : (v : ℕ) → v < 65536 → v / 256 % 256 * 256 + v % 256 ≡ v
u16_lem v h = omega arith

u32_lem :
    (v : ℕ)
    → v < 2 ^ 32
    → ((v / 2 ^ 24 % 256 * 256 + v / 2 ^ 16 % 256) * 256 + v / 256 % 256) * 256 + v % 256 ≡ v
u32_lem v h = omega arith

parse-build_rst :
    (src dst sport dport seq ack flags : ℕ)
    → src < 2 ^ 32
    → dst < 2 ^ 32
    → sport < 65536
    → dport < 65536
    → seq < 2 ^ 32
    → ack < 2 ^ 32
    → parse (build_rst src dst sport dport seq ack flags)
      ≡ done (some (rst_header src dst sport dport seq ack flags))
unfolding build_rst parse_in version parse_v4 read_v4 read_l4 parse_l4
parse-build_rst src dst sport dport seq ack flags a b c d e f =
    rw
      (u32_lem src a, u32_lem dst b, u16_lem sport c, u16_lem dport d, u32_lem seq e, u32_lem ack f)

parse-resets :
    (h : Header) (src dst seq ack total payload : ℕ)
    → h.src ≡ v4 src
    → h.dst ≡ v4 dst
    → src < 2 ^ 32
    → dst < 2 ^ 32
    → h.src_port < 65536
    → h.dst_port < 65536
    → seq < 2 ^ 32
    → ack < 2 ^ 32
    → (parse (resets h seq ack total payload).0
        ≡ done (
            some (
              rst_header dst src h.dst_port h.src_port
                (if is_ack h.tcp_flags then ack else 0)
                ((seq + segment_len h.tcp_flags total payload) % 2 ^ 32)
                0x14)))
      × (parse (resets h seq ack total payload).1
          ≡ done (some (rst_header src dst h.src_port h.dst_port seq 0 0x04)))
unfolding resets
parse-resets h src dst seq ack total payload a b s d p q e f =
    rw (a, b)
      (
        parse-build_rst dst src h.dst_port h.src_port (if is_ack h.tcp_flags then ack else 0) _ 0x14
            d s q p (ground arith) (omega arith),
        parse-build_rst src dst h.src_port h.dst_port seq 0 0x04 s d p q e (omega arith),
      )

-- What a packet took of the sequence numbers: its payload, a SYN, a FIN.
abbrev pub taken : ℕ → ℕ → ℕ → ℕ
taken flags size off = size - off + flags / 2 % 2 + flags % 2

segment_len-taken : (flags size off : ℕ) → segment_len flags size off ≡ taken flags size off
segment_len-taken flags size off = ground arith

-- For a whole packet that is read as TCP over IPv4, with its header's numbers in the ranges of
-- their types, TCPReset gives two segments that are read as TCP over IPv4 with a RST and no payload:
-- the one to the sender comes from the destination, has the packet's acknowledgement number if the
-- packet has an ACK and 0 if not, and acknowledges all that the packet took (its payload, one for a
-- SYN and one for a FIN); the one to the receiver comes from the sender with the packet's own
-- sequence number.
pub parse-tcp_reset :
    (b : Bytes) (h : Header) (off src dst : ℕ)
    → parse b ≡ done (some h)
    → h.version ≡ 4
    → h.proto ≡ proto_tcp
    → h.payload ≡ some off
    → h.src ≡ v4 src
    → h.dst ≡ v4 dst
    → src < 2 ^ 32
    → dst < 2 ^ 32
    → h.src_port < 65536
    → h.dst_port < 65536
    → h.seq < 2 ^ 32
    → h.ack < 2 ^ 32
    → (to_sender : Bytes) × (to_receiver : Bytes) × (tcp_reset b
        ≡ done (some (to_sender, to_receiver)))
      × (parse to_sender
          ≡ done (
              some (
                rst_header dst src h.dst_port h.src_port
                  (if h.tcp_flags / 16 % 2 == 1 then h.ack else 0)
                  ((h.seq + taken h.tcp_flags (length b) off) % 2 ^ 32)
                  0x14)))
      × (parse to_receiver ≡ done (some (rst_header src dst h.src_port h.dst_port h.seq 0 0x04)))
parse-tcp_reset b h off src dst parsed v tcp found s d small_s small_d sport dport seq ack =
    let r = resets h h.seq h.ack (length b) off in
    let ack_number = if is_ack h.tcp_flags then h.ack else 0 in
    let (x, y) =
      parse-resets h src dst h.seq h.ack (length b) off s d small_s small_d sport dport seq ack in
    let acknowledges =
      subst
        (λ n.
          parse r.0
          ≡ done (
              some
                (rst_header dst src h.dst_port h.src_port ack_number ((h.seq + n) % 2 ^ 32) 0x14)))
        (segment_len-taken h.tcp_flags (length b) off) x in
    (r.0, r.1, tcp_reset-resets b h off parsed v tcp found, acknowledges, y)
