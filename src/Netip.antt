-- ===== src/Netip.antt =====
-- Go's net/netip, as far as the source uses it: addresses without zones, and prefixes. An address
-- is the number that its bytes spell, with the family; the zero Addr is `invalid`.
pub mod Laws
pub mod Kinds
use bound_gate_vpn.Prelude.{
  ℕ, ◌+◌, ◌-◌, ◌*◌, ◌/◌, ◌%◌, ◌^◌, ◌≡◌, refl, ◌↔◌, Bool, true, false, not, ◌&&◌, ◌||◌, arith, ltb,
  leb, ◌==◌, if◌then◌else◌, Eq, nat_eq, ◌=?◌,
}

pub data Addr : Type 0 where
  invalid : Addr
  v4 : ℕ → Addr
  v6 : ℕ → Addr

abbrev pub same_addr : Addr → Addr → Bool
same_addr invalid invalid = true
same_addr (v4 a) (v4 b) = a == b
same_addr (v6 a) (v6 b) = a == b
same_addr _ _ = false

pub same_addr_iff : (a b : Addr) → (same_addr a b ≡ true) ↔ (a ≡ b)
same_addr_iff invalid b = ground arith
same_addr_iff (v4 x) b = ground arith
same_addr_iff (v6 x) b = ground arith

instance abbrev pub addr_eq : Eq Addr
addr_eq = record { beq = same_addr; beq_iff = same_addr_iff }

abbrev pub is_valid : Addr → Bool
is_valid invalid = false
is_valid _ = true

-- BitLen
abbrev pub bit_len : Addr → ℕ
bit_len invalid = 0
bit_len (v4 _) = 32
bit_len (v6 _) = 128

abbrev pub number : Addr → ℕ
number invalid = 0
number (v4 a) = a
number (v6 a) = a

-- Less: by the bit length, then by the number.
abbrev pub less : Addr → Addr → Bool
less a b = ltb (bit_len a) (bit_len b) || (bit_len a == bit_len b && ltb (number a) (number b))

-- The first number of ::ffff:0:0/96.
abbrev pub mapped : ℕ
mapped = 0xffff * 2 ^ 32

-- Is4In6
abbrev pub is_4in6 : Addr → Bool
is_4in6 (v6 a) = a / 2 ^ 32 == 0xffff
is_4in6 _ = false

-- Unmap
abbrev pub unmap : Addr → Addr
unmap (v6 a) = if a / 2 ^ 32 == 0xffff then v4 (a % 2 ^ 32) else v6 a
unmap a = a

-- The number of As16: an IPv4 address in its mapped form.
abbrev pub as16 : Addr → ℕ
as16 invalid = 0
as16 (v4 a) = mapped + a
as16 (v6 a) = a

-- The bits of an address at `bits` and below it are cut off.
abbrev pub high_bits : ℕ → ℕ → ℕ → ℕ
high_bits len bits a = a / 2 ^ (len - bits)

-- The zero Prefix, and what PrefixFrom makes of a bit count that is too large, is `none`.
pub data Prefix : Type 0 where
  none : Prefix
  prefix : Addr → ℕ → Prefix

unfoldable pub same_prefix : Prefix → Prefix → Bool
same_prefix none none = true
same_prefix (prefix a m) (prefix b n) = same_addr a b && m == n
same_prefix _ _ = false

pub same_prefix_iff : (p q : Prefix) → (same_prefix p q ≡ true) ↔ (p ≡ q)
unfolding same_prefix
same_prefix_iff none q = ground arith
same_prefix_iff (prefix a m) none = ground arith
same_prefix_iff (prefix a m) (prefix b n) = ground (arith, same_addr_iff a b)

instance abbrev pub prefix_eq : Eq Prefix
prefix_eq = record { beq = same_prefix; beq_iff = same_prefix_iff }

abbrev pub prefix_valid : Prefix → Bool
prefix_valid none = false
prefix_valid (prefix a n) = true

-- Bits() + 1: Bits is -1 for an invalid prefix.
abbrev pub bits_succ : Prefix → ℕ
bits_succ none = 0
bits_succ (prefix a n) = n + 1

-- Contains
unfoldable pub contains : Prefix → Addr → Bool
contains (prefix (v4 a) n) (v4 b) = high_bits 32 n a == high_bits 32 n b
contains (prefix (v6 a) n) (v6 b) = high_bits 128 n a == high_bits 128 n b
contains _ _ = false

-- Masked
unfoldable pub masked : Prefix → Prefix
masked (prefix (v4 a) n) = prefix (v4 (high_bits 32 n a * 2 ^ (32 - n))) n
masked (prefix (v6 a) n) = prefix (v6 (high_bits 128 n a * 2 ^ (128 - n))) n
masked _ = none

-- AddrPort
pub record AddrPort : Type 0 where
  pub addr : Addr
  pub port : ℕ

abbrev pub same_addr_port : AddrPort → AddrPort → Bool
same_addr_port a b = same_addr a.addr b.addr && a.port == b.port

pub same_addr_port_iff : (a b : AddrPort) → (same_addr_port a b ≡ true) ↔ (a ≡ b)
same_addr_port_iff a b = ground (arith, same_addr_iff a.addr b.addr)

instance abbrev pub addr_port_eq : Eq AddrPort
addr_port_eq = record { beq = same_addr_port; beq_iff = same_addr_port_iff }
