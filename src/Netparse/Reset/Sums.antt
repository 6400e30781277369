-- ===== src/Netparse/Reset/Sums.antt =====
-- The checksums of the segments that are sent.
use bound_gate_vpn.Prelude.{
  ℕ, ◌+◌, ◌^◌, ◌≡◌, ◌<◌, ◌*◌, ◌-◌, ◌/◌, ◌%◌, refl, arith, Bytes, length, take, drop, [], ◌∷◌, ◌++◌,
}
use bound_gate_vpn.Netparse.Reset.{
  sum_words, fold_carries, complement16, checksum, rst_ip, rst_tcp, pseudo_header, build_rst,
}

-- The sum of RFC 1071: bytes at even places count 256 times, the others once.
abbrev pub word_sum : ℕ → Bytes → ℕ
word_sum w [] = 0
word_sum w (x ∷ xs) = w * x + word_sum (257 - w) xs

-- Sixteen-bit words that hold a right checksum: their one's complement sum is all ones.
abbrev pub IsRight : Bytes → Type 0
IsRight b = (0 < word_sum 256 b) × (word_sum 256 b % 65535 ≡ 0)

-- What a TCP checksum covers (RFC 793): both addresses, a zero, TCP's number and the length of the
-- segment, then the segment, for a packet with an IP header of 20 bytes.
abbrev pub tcp_covered : Bytes → Bytes
tcp_covered b =
    let segment = drop 20 b in
    take 8 (drop 12 b) ++ 0 ∷ 6 ∷ length segment / 256 ∷ length segment % 256 ∷ [] ++ segment

word_sum_lem : (b : Bytes) → word_sum 256 b ≡ sum_words b
unfolding sum_words
word_sum_lem [] = refl
word_sum_lem (x ∷ []) = omega arith
word_sum_lem (x ∷ y ∷ rest) = omega (arith, word_sum_lem rest)

-- Folding keeps the sum, where 65535 counts as 0.
fold_mod : (s : ℕ) → s < 2 ^ 24 → fold_carries 3 s % 65535 ≡ s % 65535
unfolding fold_carries
fold_mod s small = ground arith

fold-lt : (s : ℕ) → s < 2 ^ 24 → fold_carries 3 s < 65536
unfolding fold_carries
fold-lt s small = ground arith

checksum_mod :
    (b : Bytes) (i : ℕ) → i + sum_words b < 2 ^ 24 → (i + sum_words b + checksum b i) % 65535 ≡ 0
unfolding checksum
checksum_mod b i small =
    omega (arith, fold_mod (i + sum_words b) small, fold-lt (i + sum_words b) small)

ip_sum :
    (src dst sum : ℕ)
    → sum < 65536
    → sum_words (rst_ip src dst sum) ≡ sum_words (rst_ip src dst 0) + sum
unfolding sum_words
ip_sum src dst sum h = omega arith

ip_small : (src dst : ℕ) → sum_words (rst_ip src dst 0) < 2 ^ 24
unfolding sum_words
ip_small src dst = omega arith

checksum-lt : (b : Bytes) (initial : ℕ) → checksum b initial < 65536
unfolding checksum
checksum-lt b initial = omega arith

tcp_sum :
    (sport dport seq ack flags sum : ℕ)
    → sum < 65536
    → sum_words (rst_tcp sport dport seq ack flags sum)
      ≡ sum_words (rst_tcp sport dport seq ack flags 0) + sum
unfolding sum_words
tcp_sum sport dport seq ack flags sum h = omega arith

tcp_small :
    (sport dport seq ack flags : ℕ)
    → flags < 256
    → sum_words (rst_tcp sport dport seq ack flags 0) < 2 ^ 23
unfolding sum_words
tcp_small sport dport seq ack flags h = omega arith

pseudo_small : (src dst : ℕ) → sum_words (pseudo_header src dst) < 2 ^ 23
unfolding sum_words
pseudo_small src dst = omega arith

-- The sum of the pseudo header that the code carries over.
pseudo_mod :
    (src dst : ℕ)
    → let p = complement16 (checksum (pseudo_header src dst) 0) in
      (p < 65536) × (p % 65535 ≡ sum_words (pseudo_header src dst) % 65535)
unfolding checksum
pseudo_mod src dst =
    let s = sum_words (pseudo_header src dst) in
    let small = pseudo_small src dst in
    (
      omega arith,
      omega
          (arith, fold_mod (0 + s) (omega (arith, small)), fold-lt (0 + s) (omega (arith, small))),
    )

covered_sum :
    (src dst sport dport seq ack flags c d : ℕ)
    → sum_words (tcp_covered (rst_ip src dst c ++ rst_tcp sport dport seq ack flags d))
      ≡ sum_words (pseudo_header src dst) + sum_words (rst_tcp sport dport seq ack flags d)
unfolding sum_words
covered_sum src dst sport dport seq ack flags c d = omega arith

-- The segment that `build_rst` makes has 40 bytes, and both its checksums are right by RFC 1071 and
-- RFC 793: the words of the IP header add up to all ones, and so do those of the two addresses, a
-- zero, TCP's number, the length of the segment and the segment. The flags are a byte.
pub build_rst-checksum :
    (src dst sport dport seq ack flags : ℕ)
    → flags < 256
    → let b = build_rst src dst sport dport seq ack flags in
      (length b ≡ 40) × IsRight (take 20 b) × IsRight (tcp_covered b)
unfolding build_rst
build_rst-checksum src dst sport dport seq ack flags h =
    let ip : Bytes = rst_ip src dst 0 in
    let tcp : Bytes = rst_tcp sport dport seq ack flags 0 in
    let p : ℕ = complement16 (checksum (pseudo_header src dst) 0) in
    let c : ℕ = checksum ip 0 in
    let d : ℕ = checksum tcp p in
    let b : Bytes = build_rst src dst sport dport seq ack flags in
    let (low, same) = pseudo_mod src dst in
    let small = tcp_small sport dport seq ack flags h in
    (
      refl,
      (
        omega arith,
        omega (
          arith,
          word_sum_lem (rst_ip src dst c),
          checksum_mod ip 0 (omega (arith, ip_small src dst)),
          ip_sum src dst c (checksum-lt ip 0),
        ),
      ),
      (
        omega arith,
        omega (
          arith,
          word_sum_lem (tcp_covered b),
          covered_sum src dst sport dport seq ack flags c d,
          same,
          checksum_mod tcp p (omega (arith, small, low)),
          tcp_sum sport dport seq ack flags d (checksum-lt tcp p),
        ),
      ),
    )
