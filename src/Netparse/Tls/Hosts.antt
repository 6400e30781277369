-- ===== src/Netparse/Tls/Hosts.antt =====
-- The ClientHello reader never panics, and a name that it finds is a plain host name.
use bound_gate_vpn.Prelude.{
  ℕ, zero, suc, ◌+◌, ◌-◌, ◌*◌, ◌≡◌, ◌≤◌, ◌<◌, refl, Bool, true, false, not, ◌&&◌, arith, leb, Bytes,
  length, done, Holds, Holds-bind, [], ◌∷◌, map, all_of, take, drop, get_or, length-drop,
}
use bound_gate_vpn.Netparse.Dns.{lower}
use bound_gate_vpn.Netparse.Tls.{
  SniResult, not_tls, no_name, need_more, found, host_byte, valid_hostname, accept_name,
  read_entries, parse_server_name, truncated, read_extensions, read_methods, read_suites,
  parse_client_hello, if_found, read_body, client_hello_sni,
}

abbrev pub plain_host_byte : ℕ → Bool
plain_host_byte c = host_byte c && not (leb b'A' c && leb c b'Z')

abbrev pub IsHost : SniResult → Type 0
IsHost (found name) = (all_of plain_host_byte name ≡ true) × (0 < length name) × (length name ≤ 253)
IsHost _ = Unit

all_of-lower : (s : Bytes) → valid_hostname s ≡ true → all_of plain_host_byte (map lower s) ≡ true
all_of-lower [] h = refl
all_of-lower (c ∷ cs) h = ground (arith, all_of-lower cs)

length-lower : (s : Bytes) → length (map lower s) ≡ length s
length-lower [] = refl
length-lower (c ∷ cs) = omega (arith, length-lower cs)

accept_name-IsHost : (name : Bytes) → IsHost (accept_name name)
accept_name-IsHost name = ground (arith, all_of-lower name, length-lower name)

truncated-IsHost : (complete : Bool) → IsHost (truncated complete)
truncated-IsHost complete = ground arith

read_entries-IsHost : (fuel : ℕ) (b : Bytes) → length b < fuel → Holds IsHost (read_entries fuel b)
unfolding read_entries
read_entries-IsHost zero b enough = absurd (omega arith)
read_entries-IsHost (suc fuel) b enough =
    let l = get_or b 1 0 * 256 + get_or b (1 + 1) 0 in
    ground (
      arith,
      length-drop {0} 3 b,
      length-drop {0} l (drop 3 b),
      accept_name-IsHost (take (l - 0) (drop 0 (drop 3 b))),
      read_entries-IsHost fuel (drop l (drop 3 b)),
    )

parse_server_name-IsHost : (b : Bytes) → Holds IsHost (parse_server_name b)
unfolding parse_server_name
parse_server_name-IsHost b =
    ground (arith, read_entries-IsHost (suc (length (drop 2 b))) (drop 2 b))

read_extensions-IsHost :
    (fuel : ℕ) (b : Bytes) (complete : Bool) (end off : ℕ)
    → length b < fuel + off
    → 0 < fuel
    → Holds IsHost (read_extensions fuel b complete end off)
unfolding read_extensions
read_extensions-IsHost zero b complete end off enough pos = absurd (omega arith)
read_extensions-IsHost (suc fuel) b complete end off enough pos =
    let l = get_or b (off + 2) 0 * 256 + get_or b (off + 2 + 1) 0 in
    ground (
      arith,
      truncated-IsHost complete,
      parse_server_name-IsHost (take (off + 4 + l - (off + 4)) (drop (off + 4) b)),
      read_extensions-IsHost fuel b complete end (off + 4 + l),
    )

parse_client_hello-IsHost :
    (b : Bytes) (complete : Bool) → Holds IsHost (parse_client_hello b complete)
unfolding parse_client_hello read_suites read_methods
parse_client_hello-IsHost b complete = grind (
  arith,
  truncated-IsHost complete,
  λ (end off : ℕ).
      read_extensions-IsHost (suc (length b)) b complete end off (omega arith) (omega arith),
)

if_found-IsHost : (r : SniResult) → IsHost r → IsHost (if_found r)
if_found-IsHost (found name) h = h
if_found-IsHost not_tls h = tt
if_found-IsHost no_name h = tt
if_found-IsHost need_more h = tt

read_body-IsHost : (body : Bytes) (hs_len : ℕ) → Holds IsHost (read_body body hs_len)
unfolding read_body
read_body-IsHost body hs_len = ground (
  arith,
  Holds-bind IsHost IsHost (parse_client_hello body false) (λ r. done (if_found r))
      (parse_client_hello-IsHost body false) if_found-IsHost,
  parse_client_hello-IsHost (take (hs_len - 0) body) true,
)

-- Reading a ClientHello never panics, whatever the bytes; a name that is found has 1 to 253 bytes,
-- each a small letter, a digit, a dash, a dot or an underscore.
pub client_hello_sni-IsHost : (payload : Bytes) → Holds IsHost (client_hello_sni payload)
unfolding client_hello_sni
client_hello_sni-IsHost payload = grind (arith, read_body-IsHost)
