-- ===== src/Netparse/Reset.antt =====
-- internal/netparse/tcp.go: the RST segments that abort a connection, and the Internet checksum.
pub mod Sums
pub mod Again
pub mod Parsed
use bound_gate_vpn.Prelude.{
  ℕ, zero, suc, ◌+◌, ◌-◌, ◌*◌, ◌/◌, ◌%◌, ◌^◌, Bool, true, false, not, ◌&&◌, ◌||◌, Option, none,
  some, ltb, leb, ◌==◌, if◌then◌else◌, Bytes, length, get_or, Run, done, panic, ◌>>=◌, byte_at,
  u16_at, u32_at, from_at, List, [], ◌∷◌, ◌++◌,
}
use bound_gate_vpn.Netip.{Addr, invalid, v4, v6, number}
use bound_gate_vpn.Netparse.Header.{Header, parse, proto_tcp, is_syn, is_fin, is_ack}

-- binary.BigEndian.PutUint16, PutUint32
abbrev pub put_u16 : ℕ → Bytes
put_u16 v = v / 256 % 256 ∷ v % 256 ∷ []

abbrev pub put_u32 : ℕ → Bytes
put_u32 v = v / 2 ^ 24 % 256 ∷ v / 2 ^ 16 % 256 ∷ v / 256 % 256 ∷ v % 256 ∷ []

-- The two loops of Checksum that add up the words, the odd byte last.
unfoldable pub sum_words : Bytes → ℕ
sum_words [] = 0
sum_words (a ∷ []) = a * 256
sum_words (a ∷ c ∷ rest) = a * 256 + c + sum_words rest

-- for sum>>16 != 0: the carries are added in. A sum of 32 bits takes at most two turns.
unfoldable pub fold_carries : ℕ → ℕ → ℕ
fold_carries zero sum = sum
fold_carries (suc fuel) sum =
    let rest = fold_carries fuel (sum % 65536 + sum / 65536) in
    if sum / 65536 == 0 then sum else rest

-- ^uint16(x)
abbrev pub complement16 : ℕ → ℕ
complement16 x = 65535 - x % 65536

unfoldable pub checksum : Bytes → ℕ → ℕ
checksum b initial = complement16 (fold_carries 3 (initial + sum_words b))

-- The IP header of buildRST with the checksum `sum`.
abbrev pub rst_ip : ℕ → ℕ → ℕ → Bytes
rst_ip src dst sum =
    0x45
    ∷ 0
    ∷ (put_u16 40
        ++ put_u16 0
        ++ put_u16 0x4000
        ++ 64 ∷ proto_tcp ∷ []
        ++ put_u16 sum
        ++ put_u32 src
        ++ put_u32 dst)

-- Its TCP header.
abbrev pub rst_tcp : ℕ → ℕ → ℕ → ℕ → ℕ → ℕ → Bytes
rst_tcp sport dport seq ack flags sum =
    put_u16 sport
    ++ put_u16 dport
    ++ put_u32 seq
    ++ put_u32 ack
    ++ 0x50 ∷ flags ∷ []
    ++ put_u16 0
    ++ put_u16 sum
    ++ put_u16 0

abbrev pub pseudo_header : ℕ → ℕ → Bytes
pseudo_header src dst = put_u32 src ++ put_u32 dst ++ 0 ∷ proto_tcp ∷ [] ++ put_u16 20

unfoldable pub build_rst : ℕ → ℕ → ℕ → ℕ → ℕ → ℕ → ℕ → Bytes
build_rst src dst sport dport seq ack flags =
    rst_ip src dst (checksum (rst_ip src dst 0) 0)
    ++ rst_tcp sport dport seq ack flags (
        checksum (rst_tcp sport dport seq ack flags 0)
          (complement16 (checksum (pseudo_header src dst) 0)))

-- The sequence numbers that the segment takes: its payload, a SYN, a FIN.
abbrev pub segment_len : ℕ → ℕ → ℕ → ℕ
segment_len flags total payload =
    (if ltb total payload then 0 else total - payload)
    + (if is_syn flags then 1 else 0)
    + (if is_fin flags then 1 else 0)

-- The two segments, from the header, the numbers read again and the offset of the payload.
unfoldable pub resets : Header → ℕ → ℕ → ℕ → ℕ → Bytes × Bytes
resets h seq ack total payload =
    let next = (seq + segment_len h.tcp_flags total payload) % 2 ^ 32 in
    (
      build_rst (number h.dst) (number h.src) h.dst_port h.src_port
          (if is_ack h.tcp_flags then ack else 0) next 0x14,
      build_rst (number h.src) (number h.dst) h.src_port h.dst_port seq 0 0x04,
    )

-- TCPReset behind its check.
unfoldable pub reset_segment : Bytes → Header → ℕ → Run (Option (Bytes × Bytes))
reset_segment pkt h payload = do
  first ← byte_at pkt 0
  tcp ← from_at pkt (first % 16 * 4)
  seq ← u32_at tcp 4
  ack ← u32_at tcp 8
  total ← u16_at pkt 2
  done (some (resets h seq ack (if ltb (length pkt) total then length pkt else total) payload))

unfoldable pub reset_parsed : Bytes → Option Header → Run (Option (Bytes × Bytes))
reset_parsed pkt none = done none
reset_parsed pkt (some h) = elim h.payload [
  | none ↦ done none
  | some payload ↦
      if not (h.version == 4) || not (h.proto == proto_tcp)
      then done none
      else reset_segment pkt h payload
]

-- TCPReset; `none` is (nil, nil).
unfoldable pub tcp_reset : Bytes → Run (Option (Bytes × Bytes))
tcp_reset pkt = parse pkt >>= reset_parsed pkt
