-- ===== src/Acl/Lists.antt =====
-- Named lists: compileList, has and hasName.
use bound_gate_vpn.Prelude.{
  ℕ, Bool, false, ◌&&◌, ◌||◌, Option, none, some, ltb, ◌==◌, if◌then◌else◌, List, [], ◌∷◌, length,
  Bytes, same_bytes, bytes_eq,
}
use bound_gate_vpn.Prelude.Text.{to_lower, cut_prefix, has_suffix, trim_suffix}
use bound_gate_vpn.Netip.{Addr, Prefix, contains}
use bound_gate_vpn.Registry.{NamedList}
use bound_gate_vpn.Registry.Entries.{Texts, AddrEntry, matches, Parsed, entry, parse_addr_entry}
use bound_gate_vpn.Acl.Entities.{Uid, uid_of, type_list}
use bound_gate_vpn.Acl.Word

-- Request, without assumeSession and Now, which are arguments of their own.
pub record Request : Type 0 where
  pub principal : Bytes
  pub dst : Addr
  pub port : ℕ
  pub proto : ℕ
  pub sni : Bytes
  pub dns_name : Bytes
  pub resolved : List Bytes

-- list; `exact` and `under` are in the order of the entries.
pub record CompiledList : Type 0 where
  pub name : Bytes
  pub kind : Bytes
  pub uid : Uid
  pub prefixes : List Prefix
  pub addrs : List AddrEntry
  pub exact : List Bytes
  pub under : List Bytes

abbrev pub empty_list : NamedList → CompiledList
empty_list l = record {
  name = l.name;
  kind = l.kind;
  uid = uid_of type_list l.name;
  prefixes = [];
  addrs = [];
  exact = [];
  under = [];
}

-- A name entry, in lower case, by what follows its "*.".
unfoldable pub add_by : Option Bytes → Bytes → CompiledList → CompiledList
add_by (some rest) e c = record c { under = (b'.' ∷ rest) ∷ c.under }
add_by none e c = record c { exact = e ∷ c.exact }

unfoldable pub add_name : Bytes → CompiledList → CompiledList
add_name e c = add_by (cut_prefix (b'*' ∷ b'.' ∷ []) e) e c

abbrev pub add_prefix : Option Prefix → CompiledList → CompiledList
add_prefix none c = c
add_prefix (some p) c = record c { prefixes = p ∷ c.prefixes }

abbrev pub add_parsed : Parsed → Bytes → CompiledList → CompiledList
add_parsed (entry a) e c = record c { addrs = a ∷ c.addrs }
add_parsed _ e c = add_name (to_lower e) c

-- compileList's loop body
unfoldable pub add_entry : Texts → Bytes → Bytes → CompiledList → CompiledList
add_entry texts kind e c =
    if same_bytes kind Word.ip
    then add_prefix (texts.parse_prefix e) c
    else if same_bytes kind Word.dynamic
    then add_parsed (parse_addr_entry texts e) e c
    else add_name (to_lower e) c

unfoldable pub add_entries : Texts → Bytes → List Bytes → CompiledList → CompiledList
add_entries texts kind [] c = c
add_entries texts kind (e ∷ es) c = add_entry texts kind e (add_entries texts kind es c)

-- compileList
unfoldable pub compile_list : Texts → NamedList → CompiledList
compile_list texts l = add_entries texts l.kind l.entries (empty_list l)

unfoldable pub is_member : Bytes → List Bytes → Bool
is_member s [] = false
is_member s (t ∷ ts) = same_bytes t s || is_member s ts

unfoldable pub is_under : Bytes → List Bytes → Bool
is_under s [] = false
is_under s (u ∷ us) = has_suffix s u && ltb (length u) (length s) || is_under s us

-- The name as hasName compares it.
abbrev pub plain_name : Bytes → Bytes
plain_name s = to_lower (trim_suffix s (b'.' ∷ []))

-- hasName
unfoldable pub has_name : CompiledList → Bytes → Bool
has_name c s =
    if length s == 0
    then false
    else is_member (plain_name s) c.exact || is_under (plain_name s) c.under

unfoldable pub in_prefixes : Addr → List Prefix → Bool
in_prefixes a [] = false
in_prefixes a (p ∷ ps) = contains p a || in_prefixes a ps

unfoldable pub matches_any : Addr → ℕ → List AddrEntry → Bool
matches_any a port [] = false
matches_any a port (e ∷ es) = matches e a port || matches_any a port es

unfoldable pub any_name : CompiledList → List Bytes → Bool
any_name c [] = false
any_name c (s ∷ ss) = has_name c s || any_name c ss

-- has
unfoldable pub has : CompiledList → Request → Bool → Bool
has c r sni_fallback =
    if same_bytes c.kind Word.ip
    then in_prefixes r.dst c.prefixes
    else if same_bytes c.kind Word.sni
    then has_name c r.sni
    else if same_bytes c.kind Word.dns
    then has_name c r.dns_name
    else if same_bytes c.kind Word.dynamic
    then matches_any r.dst r.port c.addrs
      || has_name c r.dns_name
      || sni_fallback && has_name c r.sni
      || any_name c r.resolved
    else false
