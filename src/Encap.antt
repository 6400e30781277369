-- ===== src/Encap.antt =====
-- internal/mux/encap.go: the header of a datagram between the front and a backend. `none` is the
-- error of getEncap.
pub mod RoundTrip
use bound_gate_vpn.Prelude.{
  ℕ, zero, suc, ◌+◌, ◌*◌, ◌/◌, ◌%◌, ◌^◌, Bool, true, false, not, ◌&&◌, ◌||◌, Option, none, some,
  ltb, ◌==◌, if◌then◌else◌, List, [], ◌∷◌, ◌++◌, length, take, drop, get_or, Bytes, same_bytes,
}
use bound_gate_vpn.Netip.{Addr, invalid, v4, v6, as16, is_4in6, unmap, AddrPort}
use bound_gate_vpn.Netparse.Reset.{put_u16}

abbrev pub encap_len : ℕ
encap_len = 22

-- "BG\x01"
abbrev pub encap_magic : Bytes
encap_magic = 66 ∷ 71 ∷ 1 ∷ []

abbrev pub is_4 : Addr → Bool
is_4 (v4 a) = true
is_4 _ = false

-- The last k bytes of a number, the highest first.
unfoldable pub put_bytes : ℕ → ℕ → Bytes
put_bytes zero n = []
put_bytes (suc k) n = put_bytes k (n / 256) ++ n % 256 ∷ []

-- The number that bytes spell.
unfoldable pub get_bytes : ℕ → Bytes → ℕ
get_bytes acc [] = acc
get_bytes acc (b ∷ bs) = get_bytes (acc * 256 + b) bs

-- putEncap
unfoldable pub put_encap : AddrPort → Bytes
put_encap client =
    let a = client.addr in
    encap_magic
    ++ (if is_4 a || is_4in6 a then 4 else 6) ∷ (put_bytes 16 (as16 a) ++ put_u16 client.port)

-- getEncap
unfoldable pub get_encap : Bytes → Option (AddrPort × Bytes)
get_encap b =
    let family = get_or b 3 0 in
    let a = v6 (get_bytes 0 (take 16 (drop 4 b))) in
    if ltb (length b) encap_len
      || not (same_bytes (take 3 b) encap_magic)
      || not (family == 4) && not (family == 6)
    then none
    else some (
      record {
        addr = if family == 4 then unmap a else a;
        port = get_or b 20 0 * 256 + get_or b 21 0;
      },
      drop encap_len b,
    )

-- WriteTo's datagram
unfoldable pub encapsulate : AddrPort → Bytes → Bytes
encapsulate client payload = put_encap client ++ payload
