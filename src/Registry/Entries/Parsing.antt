-- ===== src/Registry/Entries/Parsing.antt =====
-- What every parsed entry satisfies.
use bound_gate_vpn.Prelude.{
  ◌≡◌, refl, arith, Bool, true, false, not, ◌||◌, Option, Option-cases, none, some, ◌==◌, [], ◌∷◌,
  Bytes, inl, inr, sym, ◌∙◌, subst, Bool-cases, length,
}
use bound_gate_vpn.Prelude.Text.{cut_at, trim_space}
use bound_gate_vpn.Netip.{Addr, invalid, v4, v6, less, unmap, Prefix, prefix, masked}
use bound_gate_vpn.Registry.Entries.{
  Texts, AddrEntry, is_4, same_bool, last_of, prefix_entry, span, parse_ports, range_of, addr_entry,
  entry, parse_range, with_ports, read_parts, parse_addr_entry, split_ports, parts, Parts,
  no_bracket, trailing_text,
}
use bound_gate_vpn.Registry.Entries.Range.{
  PortsOk, AddrsOk, parse_ports-ok, some_same, prefix_entry_4, prefix_entry_6,
}

-- What a range is, before its ports.
abbrev AnyPort : AddrEntry → Type 0
AnyPort e = AddrsOk e × (e.port ≡ 0) × (e.port_to ≡ 0)

less_irrefl : (a : Addr) → less a a ≡ false
less_irrefl a = ground arith

same_family : (a b : Bool) → same_bool a b ≡ true → a ≡ b
same_family true b h = sym h
same_family false b h = ground arith

ordered :
    (a b : Addr) → (not (same_bool (is_4 a) (is_4 b)) || less b a) ≡ false → AnyPort (span a b)
ordered a b h = ((same_family (is_4 a) (is_4 b) (ground arith), ground arith), refl, refl)

entry_same : (x y : AddrEntry) → entry x ≡ entry y → x ≡ y
entry_same x y h = ground arith

range_of-AnyPort : (x y : Option Addr) (e : AddrEntry) → range_of x y ≡ some e → AnyPort e
unfolding range_of
range_of-AnyPort none y e h = absurd (ground arith)
range_of-AnyPort (some x) none e h = absurd (ground arith)
range_of-AnyPort (some x) (some y) e h =
    elim (Bool-cases
      (not (same_bool (is_4 (unmap x)) (is_4 (unmap y))) || less (unmap y) (unmap x))) [
        | inl bad ↦ absurd (ground arith)
        | inr good ↦
            let made : some (span (unmap x) (unmap y)) ≡ some e = ground arith in
            subst AnyPort (some_same _ e made) (ordered (unmap x) (unmap y) good)
      ]

prefix_entry-AnyPort : (p : Prefix) (e : AddrEntry) → prefix_entry p ≡ some e → AnyPort e
unfolding prefix_entry masked last_of
prefix_entry-AnyPort Prefix.none e h = subst AnyPort (some_same _ e h) ((refl, refl), refl, refl)
prefix_entry-AnyPort (prefix invalid n) e h =
    subst AnyPort (some_same _ e h) ((refl, refl), refl, refl)
prefix_entry-AnyPort (prefix (v4 x) n) e h =
    subst AnyPort (some_same _ e (sym (prefix_entry_4 x n) ∙ h)) ((refl, ground arith), refl, refl)
prefix_entry-AnyPort (prefix (v6 x) n) e h =
    subst AnyPort (prefix_entry_6 x n e h) ((refl, ground arith), refl, refl)

addr_entry-AnyPort : (a : Option Addr) (e : AddrEntry) → addr_entry a ≡ some e → AnyPort e
addr_entry-AnyPort none e h = absurd (ground arith)
addr_entry-AnyPort (some a) e h =
    subst AnyPort (some_same _ e h) ((refl, less_irrefl (unmap a)), refl, refl)

module _ (texts : Texts) where
  parse_range-AnyPort : (s : Bytes) (e : AddrEntry) → parse_range texts s ≡ some e → AnyPort e
  unfolding parse_range
  parse_range-AnyPort s e h = elim (Option-cases (cut_at b'-' s)) [
    | inr (x, cut) ↦ range_of-AnyPort (texts.parse_addr x.0) (texts.parse_addr x.1) e (ground arith)
    | inl uncut ↦ elim (Option-cases (texts.parse_prefix s)) [
      | inr (p, is_prefix) ↦ prefix_entry-AnyPort p e (ground arith)
      | inl other ↦ addr_entry-AnyPort (texts.parse_addr s) e (ground arith)
    ]
  ]

  with_ports-ok :
      (r e : AddrEntry) (ports : Bytes)
      → AnyPort r
      → with_ports texts r ports ≡ entry e
      → AddrsOk e × PortsOk e
  with_ports-ok r e [] (addrs, from, to) h =
      subst (λ x. AddrsOk x × PortsOk x) (entry_same r e h) (addrs, inl (from, to))
  with_ports-ok r e (c ∷ ports) (addrs, from, to) h =
      elim (Option-cases (parse_ports (c ∷ ports))) [
        | inl bad ↦ absurd (ground arith)
        | inr (range, good) ↦
            let made : entry (record r { port = range.0; port_to = range.1 }) ≡ entry e =
              ground arith in
            subst (λ x. AddrsOk x × PortsOk x) (entry_same _ e made)
              (addrs, inr (parse_ports-ok (c ∷ ports) range.0 range.1 good))
      ]

  read_parts-ok : (p : Parts) (e : AddrEntry) → read_parts texts p ≡ entry e → AddrsOk e × PortsOk e
  unfolding read_parts
  read_parts-ok no_bracket e h = absurd (ground arith)
  read_parts-ok trailing_text e h = absurd (ground arith)
  read_parts-ok (parts addr ports) e h = elim (Option-cases (parse_range texts addr)) [
    | inl missing ↦ absurd (ground arith)
    | inr (r, found) ↦ with_ports-ok r e ports (parse_range-AnyPort addr r found) (ground arith)
  ]

  -- An entry that ParseAddrEntry accepts has addresses of one family, the first not above the last,
  -- and either no ports or an ascending range of ports from 1 to 65535.
  pub parse_addr_entry-ok :
      (s : Bytes) (e : AddrEntry) → parse_addr_entry texts s ≡ entry e → AddrsOk e × PortsOk e
  unfolding parse_addr_entry
  parse_addr_entry-ok s e h = elim (Bool-cases (length (trim_space s) == 0)) [
    | inl empty ↦ absurd (ground arith)
    | inr other ↦ read_parts-ok (split_ports (trim_space s)) e (ground arith)
  ]
