-- ===== src/Netparse/Bounds.antt =====
-- The header reader stays inside its packet.
use bound_gate_vpn.Prelude.{
  ℕ, ◌+◌, ◌*◌, ◌%◌, ◌≡◌, ◌≤◌, ◌≢◌, Bool, true, Option, none, some, arith, ◌==◌, if◌then◌else◌,
  Bytes, length, done, length-drop, drop, ◌⊎◌, Holds, Holds-bind, get_or, le→leb,
}
use bound_gate_vpn.Netparse.Header.{
  Header, version, parse_l4, read_l4, read_v4, parse_v4, parse_v6, parse_in, is_fragment, proto_tcp,
}

abbrev Within : ℕ → Option ℕ → Type 0
Within n none = Unit
Within n (some p) = p ≤ n

-- What holds of a header that was read from `b`, the whole packet or not.
pub record IsSound (b : Bytes) (whole : Bool) (h : Header) : Type 0 where
  pub known : (h.version ≡ 4) ⊎ (h.version ≡ 6)
  pub inside : Within (length b) h.payload
  pub ports : is_fragment h ≡ true → (h.src_port ≡ 0) × (h.dst_port ≡ 0) × (h.payload ≡ none)
  pub flags : h.proto ≢ proto_tcp → (h.tcp_flags ≡ 0) × (h.seq ≡ 0) × (h.ack ≡ 0)

abbrev pub Accepted : Bytes → Bool → Option Header → Type 0
Accepted b whole none = Unit
Accepted b whole (some h) = IsSound b whole h

-- What `parse_l4` fills in.
record Filled (h : Header) (n : ℕ) (g : Header) : Type 0 where
  version_kept : g.version ≡ h.version
  proto_kept : g.proto ≡ h.proto
  offset_kept : g.frag_offset ≡ h.frag_offset
  inside : Within n g.payload
  flags : h.proto ≢ proto_tcp → (g.tcp_flags ≡ 0) × (g.seq ≡ 0) × (g.ack ≡ 0)

abbrev Blank : Header → Type 0
Blank h =
    (h.payload ≡ none)
    × (h.src_port ≡ 0)
    × (h.dst_port ≡ 0)
    × (h.tcp_flags ≡ 0)
    × (h.seq ≡ 0)
    × (h.ack ≡ 0)

parse_l4-Filled :
    (h : Header) (l4 : Bytes) (off : ℕ)
    → Blank h
    → Holds (Filled h (off + length l4)) (parse_l4 h l4 off)
unfolding parse_l4
parse_l4-Filled h l4 off e = ground arith

module _ (b : Bytes) (whole : Bool) where
  read_l4-IsSound :
      (h : Header) (off : ℕ)
      → Blank h
      → h.frag_offset ≡ 0
      → (h.version ≡ 4) ⊎ (h.version ≡ 6)
      → off ≤ length b
      → Holds (Accepted b whole) (read_l4 h b off)
  unfolding read_l4
  read_l4-IsSound h off blank unfragmented known fits = rw (le→leb off _ fits) (
      Holds-bind (Filled h (off + length (drop off b))) (Accepted b whole)
        (parse_l4 h (drop off b) off) (λ g. done (some g))
        (parse_l4-Filled h (drop off b) off blank) λ g f. ground (arith, length-drop {0} off b))

abbrev V4Fields : Header → Type 0
V4Fields h = (h.version ≡ 4) × Blank h

read_v4-V4Fields : (b : Bytes) → 20 ≤ length b → Holds V4Fields (read_v4 b)
unfolding read_v4
read_v4-V4Fields b fits = ground arith

-- The end of case 4, past its checks.
read_on-IsSound :
    (b : Bytes) (whole : Bool) (ihl : ℕ) (h : Header)
    → ihl ≤ length b
    → V4Fields h
    → Holds (Accepted b whole) (if h.frag_offset == 0 then read_l4 h b ihl else done (some h))
read_on-IsSound b whole ihl h fits f = ground (arith, read_l4-IsSound b whole h ihl)

parse_v4-IsSound : (b : Bytes) (whole : Bool) → Holds (Accepted b whole) (parse_v4 b whole)
unfolding parse_v4
parse_v4-IsSound b whole = ground (
  arith,
  λ (k : 20 ≤ length b) (fits : get_or b 0 0 % 16 * 4 ≤ length b).
      Holds-bind V4Fields (Accepted b whole) (read_v4 b)
        (λ h. if h.frag_offset == 0 then read_l4 h b (get_or b 0 0 % 16 * 4) else done (some h))
        (read_v4-V4Fields b k) (λ h. read_on-IsSound b whole (get_or b 0 0 % 16 * 4) h fits),
)

parse_v6-IsSound : (b : Bytes) (whole : Bool) → Holds (Accepted b whole) (parse_v6 b whole)
unfolding parse_v6
parse_v6-IsSound b whole = grind (arith, read_l4-IsSound b whole)

-- Reading a packet never panics, whatever its bytes; a header that is accepted has version 4 or
-- 6, its payload starts inside the packet, a later fragment has no ports and no payload, and only
-- TCP has flags and sequence numbers.
pub parse_in-IsSound : (b : Bytes) (whole : Bool) → Holds (Accepted b whole) (parse_in b whole)
unfolding parse_in version
parse_in-IsSound b whole = ground (arith, parse_v4-IsSound b whole, parse_v6-IsSound b whole)
