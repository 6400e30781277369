-- ===== src/Netparse/Tls.antt =====
-- internal/netparse/tls.go: the server name of a TLS ClientHello. The two loops take fuel, and
-- running out of it is a panic here, so a result that is proved shows that the fuel was enough.
pub mod Hosts
pub mod Prefixes
use bound_gate_vpn.Prelude.{
  ℕ, zero, suc, ◌+◌, ◌-◌, ◌*◌, Bool, true, false, not, ◌&&◌, ◌||◌, ltb, leb, ◌==◌, if◌then◌else◌,
  Bytes, length, Run, done, panic, ◌>>=◌, byte_at, u16_at, from_at, slice_at, [], ◌∷◌, map, all_of,
}
use bound_gate_vpn.Netparse.Dns.{lower}

-- SNIResult, with the name that was found.
pub data SniResult : Type 0 where
  not_tls no_name need_more : SniResult
  found : Bytes → SniResult

abbrev pub max_client_hello : ℕ
max_client_hello = 16384

-- A byte that validHostname takes.
abbrev pub host_byte : ℕ → Bool
host_byte c =
    (leb b'a' c && leb c b'z')
    || (leb b'A' c && leb c b'Z')
    || (leb b'0' c && leb c b'9')
    || c == b'-'
    || c == b'.'
    || c == b'_'

abbrev pub valid_hostname : Bytes → Bool
valid_hostname = all_of host_byte

-- The name of an entry of type 0.
abbrev pub accept_name : Bytes → SniResult
accept_name name =
    if length name == 0 || ltb 253 (length name) || not (valid_hostname name)
    then not_tls
    else found (map lower name)

-- The loop of parseServerName.
unfoldable pub read_entries : ℕ → Bytes → Run SniResult
read_entries zero b = panic
read_entries (suc fuel) b = if ltb (length b) 3 then done no_name else do
  typ ← byte_at b 0
  l ← u16_at b 1
  rest ← from_at b 3
  if ltb (length rest) l then done not_tls else do
    name ← slice_at rest 0 l
    next ← from_at rest l
    let later = read_entries fuel next
    if typ == 0 then done (accept_name name) else later

unfoldable pub parse_server_name : Bytes → Run SniResult
parse_server_name b = if ltb (length b) 2 then done not_tls else do
  list_len ← u16_at b 0
  rest ← from_at b 2
  if ltb (length rest) list_len then done not_tls else read_entries (suc (length rest)) rest

abbrev pub truncated : Bool → SniResult
truncated complete = if complete then not_tls else need_more

-- The loop over the extensions of parseClientHello, and its end.
unfoldable pub read_extensions : ℕ → Bytes → Bool → ℕ → ℕ → Run SniResult
read_extensions zero b complete end off = panic
read_extensions (suc fuel) b complete end off =
    if not (leb (off + 4) (length b) && ltb off end)
    then done (if leb end off && leb end (length b) then no_name else truncated complete)
    else do
      typ ← u16_at b off
      l ← u16_at b (off + 2)
      let later = read_extensions fuel b complete end (off + 4 + l)
      if typ == 0
          then (if ltb (length b) (off + 4 + l)
              then done (truncated complete)
              else (slice_at b (off + 4) (off + 4 + l) >>= parse_server_name))
          else later

-- parseClientHello from the compression methods on.
unfoldable pub read_methods : Bytes → Bool → ℕ → Run SniResult
read_methods b complete off = if ltb (length b) (off + 1) then done (truncated complete) else do
  cm_len ← byte_at b off
  let exts = off + 1 + cm_len
  if ltb (length b) (exts + 2) then done (if complete then no_name else need_more) else do
    ext_len ← u16_at b exts
    read_extensions (suc (length b)) b complete (exts + 2 + ext_len) (exts + 2)

-- parseClientHello from the cipher suites on.
unfoldable pub read_suites : Bytes → Bool → ℕ → Run SniResult
read_suites b complete off =
    if ltb (length b) (off + 2)
    then done (truncated complete)
    else do cs_len ← u16_at b off; read_methods b complete (off + 2 + cs_len)

unfoldable pub parse_client_hello : Bytes → Bool → Run SniResult
parse_client_hello b complete =
    if ltb (length b) (2 + 32 + 1) then done (truncated complete) else do
      major ← byte_at b 0
      sid_len ← byte_at b 34
      if not (major == 3) then done not_tls else read_suites b complete (34 + 1 + sid_len)

-- A name that is found in a message that is not whole counts; anything else waits for more.
abbrev pub if_found : SniResult → SniResult
if_found (found name) = found name
if_found _ = need_more

-- ClientHelloSNI behind the two headers.
unfoldable pub read_body : Bytes → ℕ → Run SniResult
read_body body hs_len =
    if ltb (length body) hs_len
    then parse_client_hello body false >>= (λ r. done (if_found r))
    else (slice_at body 0 hs_len >>= λ b. parse_client_hello b true)

unfoldable pub client_hello_sni : Bytes → Run SniResult
client_hello_sni payload =
    if ltb (length payload) 5
    then (if ltb 0 (length payload)
        then byte_at payload 0 >>= (λ typ. done (if not (typ == 0x16) then not_tls else need_more))
        else done need_more)
    else do
      typ ← byte_at payload 0
      major ← byte_at payload 1
      rec_len ← u16_at payload 3
      if not (typ == 0x16) || not (major == 3) || ltb max_client_hello rec_len
          then done not_tls
          else if ltb (length payload) 9
          then done need_more
          else do
            hs_type ← byte_at payload 5
            high ← byte_at payload 6
            low ← u16_at payload 7
            body ← from_at payload 9
            if not (hs_type == 1) || ltb max_client_hello (high * 65536 + low)
                then done not_tls
                else read_body body (high * 65536 + low)
