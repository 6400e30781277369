-- ===== src/Registry/Entries.antt =====
-- internal/registry/listentry.go: the address entries of a dynamic list. How netip reads and writes
-- addresses is a parameter.
pub mod Range
pub mod Parsing
use bound_gate_vpn.Prelude.{
  ℕ, zero, suc, ◌+◌, ◌-◌, ◌*◌, ◌/◌, ◌^◌, Bool, true, false, not, ◌&&◌, ◌||◌, Option, none, some,
  ltb, leb, ◌==◌, if◌then◌else◌, List, [], ◌∷◌, ◌++◌, length, Bytes,
}
use bound_gate_vpn.Prelude.Text.{cut_at, cut_last, cut_prefix, has_byte, trim_space, atoi, itoa}
use bound_gate_vpn.Netip.{
  Addr, invalid, v4, v6, is_valid, less, same_addr, unmap, is_4in6, Prefix, prefix, masked, bit_len,
}

-- netip.ParseAddr, netip.ParsePrefix and the texts of addresses and prefixes
pub record Texts : Type 0 where
  pub parse_addr : Bytes → Option Addr
  pub parse_prefix : Bytes → Option Prefix
  pub addr_text : Addr → Bytes
  pub prefix_text : Prefix → Bytes

-- AddrEntry
pub record AddrEntry : Type 0 where
  pub lo : Addr
  pub hi : Addr
  pub port : ℕ
  pub port_to : ℕ

abbrev pub is_4 : Addr → Bool
is_4 (v4 a) = true
is_4 _ = false

abbrev pub same_bool : Bool → Bool → Bool
same_bool true b = b
same_bool false b = not b

-- Matches
unfoldable pub matches : AddrEntry → Addr → ℕ → Bool
matches e b port =
    let a = unmap b in
    is_valid a
    && same_bool (is_4 a) (is_4 e.lo)
    && not (less a e.lo)
    && not (less e.hi a)
    && (e.port == 0 || leb e.port port && leb port e.port_to)

-- lastOf: the bits behind the prefix are set.
abbrev pub last_number : ℕ → ℕ → ℕ → ℕ
last_number len n a = a / 2 ^ (len - n) * 2 ^ (len - n) + (2 ^ (len - n) - 1)

unfoldable pub last_of : Prefix → Addr
last_of (prefix (v4 a) n) = v4 (last_number 32 n a)
last_of (prefix (v6 a) n) = v6 (last_number 128 n a)
last_of _ = invalid

-- p.Addr()
abbrev pub prefix_addr : Prefix → Addr
prefix_addr Prefix.none = invalid
prefix_addr (prefix a n) = a

-- The loop of prefixOf, with the bits that are left and those of the next round.
unfoldable pub find_prefix : Addr → Addr → ℕ → ℕ → Option Prefix
find_prefix lo hi zero bits = none
find_prefix lo hi (suc left) bits =
    let rest = find_prefix lo hi left (bits + 1) in
    let p = prefix lo bits in
    if same_addr (prefix_addr (masked p)) lo && same_addr (last_of p) hi then some p else rest

-- prefixOf, before its text
unfoldable pub prefix_of : Addr → Addr → Option Prefix
prefix_of lo hi = find_prefix lo hi (bit_len lo + 1) 0

-- parsePorts; `none` is the error
unfoldable pub port_pair : Option ℕ → Option ℕ → Option (ℕ × ℕ)
port_pair (some a) (some b) =
    if ltb a 1 || ltb b 1 || ltb 65535 a || ltb 65535 b || ltb b a then none else some (a, b)
port_pair _ _ = none

unfoldable pub parse_ports : Bytes → Option (ℕ × ℕ)
parse_ports s = elim (cut_at b'-' s) [
  | none ↦ port_pair (atoi s) (atoi s)
  | some (lo, hi) ↦ port_pair (atoi lo) (atoi hi)
]

-- The entry of two addresses, of any port.
abbrev pub span : Addr → Addr → AddrEntry
span lo hi = record { lo = lo; hi = hi; port = 0; port_to = 0 }

unfoldable pub range_of : Option Addr → Option Addr → Option AddrEntry
range_of (some x) (some y) =
    let a = unmap x in
    let b = unmap y in
    if not (same_bool (is_4 a) (is_4 b)) || less b a then none else some (span a b)
range_of _ _ = none

-- The entry of a prefix; one around mapped addresses is refused.
unfoldable pub prefix_entry : Prefix → Option AddrEntry
prefix_entry p =
    if is_4in6 (prefix_addr p)
    then none
    else some (span (prefix_addr (masked p)) (last_of (masked p)))

abbrev pub addr_entry : Option Addr → Option AddrEntry
addr_entry none = none
addr_entry (some a) = some (span (unmap a) (unmap a))

-- What ParseAddrEntry returns: not an address, an entry, or an error.
pub data Parsed : Type 0 where
  name : Parsed
  entry : AddrEntry → Parsed
  missing_bracket trailing port_of_name bad_ports : Parsed

-- s split into the address and its ports
pub data Parts : Type 0 where
  parts : Bytes → Bytes → Parts
  no_bracket trailing_text : Parts

abbrev pub behind_bracket : Bytes → Bytes → Parts
behind_bracket addr [] = parts addr []
behind_bracket addr (c ∷ rest) = if c == b':' then parts addr rest else trailing_text

unfoldable pub split_ports : Bytes → Parts
split_ports s = elim (cut_prefix (b'[' ∷ []) s) [
  | some inner ↦ elim (cut_at b']' inner) [
    | none ↦ no_bracket
    | some (addr, rest) ↦ behind_bracket addr rest
  ]
  | none ↦ elim (cut_last b':' s) [
    | none ↦ parts s []
    | some (addr, ports) ↦ if has_byte b':' addr then parts s [] else parts addr ports
  ]
]

module _ (texts : Texts) where
  open texts use {parse_addr, parse_prefix, addr_text, prefix_text}

  -- parseRange
  unfoldable pub parse_range : Bytes → Option AddrEntry
  parse_range s = elim (cut_at b'-' s) [
    | some (lo, hi) ↦ range_of (parse_addr lo) (parse_addr hi)
    | none ↦ elim (parse_prefix s) [ some p ↦ prefix_entry p | none ↦ addr_entry (parse_addr s) ]
  ]

  abbrev pub with_ports : AddrEntry → Bytes → Parsed
  with_ports e [] = entry e
  with_ports e (c ∷ ports) = elim (parse_ports (c ∷ ports)) [
    | none ↦ bad_ports
    | some (lo, hi) ↦ entry (record e { port = lo; port_to = hi })
  ]

  -- ParseAddrEntry behind the split
  unfoldable pub read_parts : Parts → Parsed
  read_parts no_bracket = missing_bracket
  read_parts trailing_text = trailing
  read_parts (parts addr ports) = elim (parse_range addr) [
    | none ↦ if length ports == 0 then name else port_of_name
    | some e ↦ with_ports e ports
  ]

  -- ParseAddrEntry
  unfoldable pub parse_addr_entry : Bytes → Parsed
  parse_addr_entry s =
      if length (trim_space s) == 0 then name else read_parts (split_ports (trim_space s))

  -- String
  unfoldable pub entry_text : AddrEntry → Bytes
  entry_text e =
      let addr = if same_addr e.lo e.hi then addr_text e.lo else elim (prefix_of e.lo e.hi) [
        | some p ↦ prefix_text p
        | none ↦ addr_text e.lo ++ (b'-' ∷ addr_text e.hi)
      ] in
      let bracketed =
        if is_4 e.lo || not (is_valid e.lo) then addr else b'[' ∷ (addr ++ b']' ∷ []) in
      if e.port == 0
      then addr
      else if e.port == e.port_to
      then bracketed ++ (b':' ∷ itoa e.port)
      else bracketed ++ (b':' ∷ (itoa e.port ++ (b'-' ∷ itoa e.port_to)))
