-- ===== src/Netparse/Reset/Again.antt =====
-- What TCPReset reads from a packet a second time, against the header that Parse gave.
use bound_gate_vpn.Prelude.{
  ℕ, ◌*◌, ◌%◌, ◌≡◌, ◌≤◌, arith, Option, none, some, if◌then◌else◌, done, Bytes, length, drop,
  get_or, u16_at, u32_at, byte_at, from_at, ltb, false, is_some, true, Bool-cases, inl, inr, refl,
  subst, Holds, Holds-bind, le→leb, ◌==◌,
}
use bound_gate_vpn.Netparse.Header.{
  Header, parse, parse_in, version, parse_v4, read_v4, read_l4, parse_l4, proto_tcp, parse_v6,
}
use bound_gate_vpn.Netparse.Reset.{resets, reset_segment, reset_parsed, tcp_reset}

-- What TCPReset reads again is what the header says.
abbrev Again : Bytes → ℕ → Header → Type 0
Again b ihl h =
    (20 ≤ length (drop ihl b))
    × (u32_at (drop ihl b) 4 ≡ done h.seq)
    × (u32_at (drop ihl b) 8 ≡ done h.ack)

abbrev Read : Bytes → ℕ → Header → Type 0
Read b ihl h = h.proto ≡ proto_tcp → is_some h.payload ≡ true → Again b ihl h

parse_l4-Read :
    (b : Bytes) (ihl : ℕ) (h : Header) (off : ℕ)
    → h.payload ≡ none
    → Holds (λ g. (g.version ≡ h.version) × Read b ihl g) (parse_l4 h (drop ihl b) off)
unfolding parse_l4
parse_l4-Read b ihl h off e = ground arith

-- The whole packet, as case 4 of parse accepts it.
abbrev Whole : Bytes → Option Header → Type 0
Whole b none = Unit
Whole b (some h) =
    h.version ≡ 4
    → h.proto ≡ proto_tcp
    → is_some h.payload ≡ true
    → (20 ≤ length b)
      × (get_or b 0 0 % 16 * 4 ≤ length b)
      × (u16_at b 2 ≡ done (length b))
      × Again b (get_or b 0 0 % 16 * 4) h

read_l4-Whole :
    (b : Bytes) (h : Header)
    → 20 ≤ length b
    → u16_at b 2 ≡ done (length b)
    → get_or b 0 0 % 16 * 4 ≤ length b
    → h.payload ≡ none
    → Holds (Whole b) (read_l4 h b (get_or b 0 0 % 16 * 4))
unfolding read_l4
read_l4-Whole b h long total fits e =
    let ihl = get_or b 0 0 % 16 * 4 in
    rw (le→leb ihl _ fits) (
      Holds-bind (λ g. (g.version ≡ h.version) × Read b ihl g) (Whole b)
        (parse_l4 h (drop ihl b) ihl) (λ g. done (some g)) (parse_l4-Read b ihl h ihl e)
        (λ g f v tcp found. (long, fits, total, f.1 tcp found)))

-- The end of case 4, past its checks.
read_on-Whole :
    (b : Bytes) (h : Header)
    → 20 ≤ length b
    → u16_at b 2 ≡ done (length b)
    → get_or b 0 0 % 16 * 4 ≤ length b
    → h.payload ≡ none
    → Holds
        (Whole b)
        (if h.frag_offset == 0 then read_l4 h b (get_or b 0 0 % 16 * 4) else done (some h))
read_on-Whole b h long total fits e = elim (Bool-cases (h.frag_offset == 0)) [
  | inl first ↦ rw first (read_l4-Whole b h long total fits e)
  | inr later ↦ rw later (λ v tcp found. absurd (ground (arith, e, found)))
]

read_v4-payload : (b : Bytes) → 20 ≤ length b → Holds (λ h. h.payload ≡ none) (read_v4 b)
unfolding read_v4
read_v4-payload b fits = ground arith

parse_v4-Whole : (b : Bytes) → Holds (Whole b) (parse_v4 b true)
unfolding parse_v4
parse_v4-Whole b = ground (
  arith,
  λ (k : 20 ≤ length b) (fits : get_or b 0 0 % 16 * 4 ≤ length b)
        (t : u16_at b 2 ≡ done (length b)).
      Holds-bind (λ h. h.payload ≡ none) (Whole b) (read_v4 b)
        (λ h. if h.frag_offset == 0 then read_l4 h b (get_or b 0 0 % 16 * 4) else done (some h))
        (read_v4-payload b k) (λ h. read_on-Whole b h k t fits),
)

read_l4-six :
    (b : Bytes) (h : Header)
    → 40 ≤ length b
    → h.version ≡ 6
    → h.payload ≡ none
    → Holds (Whole b) (read_l4 h b 40)
unfolding read_l4
read_l4-six b h long six e = rw (le→leb 40 _ long) (
    Holds-bind (λ g. (g.version ≡ h.version) × Read b 40 g) (Whole b) (parse_l4 h (drop 40 b) 40)
      (λ g. done (some g)) (parse_l4-Read b 40 h 40 e)
      (λ g f v tcp found. absurd (ground (arith, f.0, six, v))))

parse_v6-Whole : (b : Bytes) → Holds (Whole b) (parse_v6 b true)
unfolding parse_v6
parse_v6-Whole b = grind (arith, read_l4-six b)

parse-Whole : (b : Bytes) → Holds (Whole b) (parse b)
unfolding parse_in version
parse-Whole b = ground (arith, parse_v4-Whole b, parse_v6-Whole b)

not_less : (n : ℕ) → ltb n n ≡ false
not_less n = ground arith

reset_segment-Again :
    (b : Bytes) (h : Header) (off : ℕ)
    → h.version ≡ 4
    → h.proto ≡ proto_tcp
    → h.payload ≡ some off
    → Whole b (some h)
    → reset_segment b h off ≡ done (some (resets h h.seq h.ack (length b) off))
unfolding reset_segment
reset_segment-Again b h off v tcp found whole =
    let (long, fits, total, (enough, seq, ack)) = whole v tcp (ground (arith, found)) in
    let front : byte_at b 0 ≡ done (get_or b 0 0) = ground (arith, long) in
    let tail : from_at b (get_or b 0 0 % 16 * 4) ≡ done (drop (get_or b 0 0 % 16 * 4) b) =
      ground (arith, fits) in
    rw (front, reset_segment) (rw tail (rw seq (rw ack (rw total (rw (not_less (length b)) refl)))))

pub tcp_reset-resets :
    (b : Bytes) (h : Header) (off : ℕ)
    → parse b ≡ done (some h)
    → h.version ≡ 4
    → h.proto ≡ proto_tcp
    → h.payload ≡ some off
    → tcp_reset b ≡ done (some (resets h h.seq h.ack (length b) off))
unfolding tcp_reset reset_parsed reset_segment resets
tcp_reset-resets b h off parsed v tcp found =
    let whole : Whole b (some h) = subst (Holds (Whole b)) parsed (parse-Whole b) in
    let segment = reset_segment-Again b h off v tcp found whole in
    rw (parsed, found, v, tcp) segment
