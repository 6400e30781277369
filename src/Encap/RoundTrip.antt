-- ===== src/Encap/RoundTrip.antt =====
-- What the front sends is what the backend reads.
use bound_gate_vpn.Prelude.{
  ℕ, zero, suc, ◌+◌, ◌*◌, ◌/◌, ◌%◌, ◌^◌, ◌≡◌, ◌<◌, refl, ap, true, ◌||◌, some, ◌==◌, if◌then◌else◌,
  [], ◌∷◌, ◌++◌, length, take, drop, get_or, Bytes, length-append, arith, bytes_eq,
}
use bound_gate_vpn.Netip.{Addr, invalid, v4, v6, as16, is_4in6, unmap, AddrPort}
use bound_gate_vpn.Netparse.Reset.{put_u16}
use bound_gate_vpn.Encap.{put_bytes, get_bytes, put_encap, get_encap, encapsulate, is_4}

-- The numbers of k bytes.
abbrev pub space : ℕ → ℕ
space zero = 1
space (suc k) = 256 * space k

length-put_bytes : (k n : ℕ) → length (put_bytes k n) ≡ k
unfolding put_bytes
length-put_bytes zero n = refl
length-put_bytes (suc k) n =
    omega
      (arith, length-append (put_bytes k (n / 256)) (n % 256 ∷ []), length-put_bytes k (n / 256))

get_bytes-append :
    (acc x : ℕ) (bs : Bytes) → get_bytes acc (bs ++ x ∷ []) ≡ get_bytes acc bs * 256 + x
unfolding get_bytes
get_bytes-append acc x [] = refl
get_bytes-append acc x (b ∷ bs) = get_bytes-append (acc * 256 + b) x bs

get_bytes-put_bytes : (k n : ℕ) → n < space k → get_bytes 0 (put_bytes k n) ≡ n
unfolding put_bytes get_bytes
get_bytes-put_bytes zero n h = omega arith
get_bytes-put_bytes (suc k) n h = omega (
  arith,
  get_bytes-append 0 (n % 256) (put_bytes k (n / 256)),
  get_bytes-put_bytes k (n / 256) (omega arith),
)

take_front : (n : ℕ) (l ys : Bytes) → n ≡ length l → take n (l ++ ys) ≡ l
take_front zero [] ys h = refl
take_front zero (x ∷ l) ys h = absurd (omega arith)
take_front (suc n) [] ys h = absurd (omega arith)
take_front (suc n) (x ∷ l) ys h = rw (take_front n l ys (omega arith))

drop_front : (n i : ℕ) (l ys : Bytes) → n ≡ length l + i → drop n (l ++ ys) ≡ drop i ys
drop_front n i [] ys h = let same : n ≡ i = omega arith in ap (λ j. drop j ys) same
drop_front zero i (x ∷ l) ys h = absurd (omega arith)
drop_front (suc n) i (x ∷ l) ys h = drop_front n i l ys (omega arith)

get_front : (n i : ℕ) (l ys : Bytes) → n ≡ length l + i → get_or (l ++ ys) n 0 ≡ get_or ys i 0
get_front n i [] ys h = let same : n ≡ i = omega arith in ap (λ j. get_or ys j 0) same
get_front zero i (x ∷ l) ys h = absurd (omega arith)
get_front (suc n) i (x ∷ l) ys h = get_front n i l ys (omega arith)

-- An address that is not the zero one, as the number of its bytes.
abbrev pub IsAddr : Addr → Type 0
IsAddr invalid = ⊥
IsAddr (v4 a) = a < 2 ^ 32
IsAddr (v6 a) = a < 2 ^ 128

fits : (a : Addr) → IsAddr a → as16 a < space 16
fits invalid h = absurd h
fits (v4 a) h = omega arith
fits (v6 a) h = omega arith

unmap-as16 :
    (a : Addr)
    → IsAddr a
    → (if (if is_4 a || is_4in6 a then 4 else 6) == 4 then unmap (v6 (as16 a)) else v6 (as16 a))
      ≡ unmap a
unmap-as16 invalid h = absurd h
unmap-as16 (v4 a) h = ground arith
unmap-as16 (v6 a) h = ground arith

-- Sixteen bytes in a datagram, whatever they are.
get_encap-bytes :
    (family : ℕ) (bs : Bytes) (port : ℕ) (payload : Bytes)
    → length bs ≡ 16
    → (family == 4 || family == 6) ≡ true
    → port < 2 ^ 16
    → get_encap (66 ∷ 71 ∷ 1 ∷ family ∷ (bs ++ put_u16 port ++ payload))
      ≡ some (
        record {
          addr = if family == 4 then unmap (v6 (get_bytes 0 bs)) else v6 (get_bytes 0 bs);
          port = port;
        },
        payload,
      )
unfolding get_encap
get_encap-bytes family bs port payload size known b =
    let rest = put_u16 port ++ payload in
    ground (
      arith,
      take_front 16 bs rest (omega (arith, size)),
      get_front 16 0 bs rest (omega (arith, size)),
      get_front 17 1 bs rest (omega (arith, size)),
      drop_front 18 2 bs rest (omega (arith, size)),
      length-append bs rest,
    )

-- A backend that reads what a front sent for a client has the client's address, unmapped, its port
-- and the payload, for every valid address and 16-bit port.
pub get_encap-encapsulate :
    (client : AddrPort) (payload : Bytes)
    → IsAddr client.addr
    → client.port < 2 ^ 16
    → get_encap (encapsulate client payload)
      ≡ some (record { addr = unmap client.addr; port = client.port }, payload)
unfolding encapsulate put_encap
get_encap-encapsulate client payload valid b =
    let a : Addr = client.addr in
    let family = if is_4 a || is_4in6 a then 4 else 6 in
    let n = as16 a in
    let known : (family == 4 || family == 6) ≡ true = ground arith in
    let read =
      get_encap-bytes family (put_bytes 16 n) client.port payload (length-put_bytes 16 n) known b in
    let same = get_bytes-put_bytes 16 n (fits a valid) in
    rw (read, same)
      (ap (λ x. some (record { addr = x; port = client.port }, payload)) (unmap-as16 a valid))
