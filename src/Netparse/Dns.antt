-- ===== src/Netparse/Dns.antt =====
-- internal/netparse/dns.go: questions and answers of DNS messages. `none` is ok=false. The two
-- loops without a counter take fuel, and running out of it is a panic here: a result that is
-- proved shows that the fuel, the length of the message, was enough.
pub mod Names
pub mod Messages
pub mod RoundTrip
use bound_gate_vpn.Prelude.{
  ℕ, zero, suc, ◌+◌, ◌-◌, ◌*◌, ◌/◌, ◌%◌, ◌^◌, min, Bool, true, false, not, ◌&&◌, ◌||◌, Option, none,
  some, ltb, leb, ◌==◌, if◌then◌else◌, Bytes, length, Run, done, panic, ◌>>=◌, byte_at, u16_at,
  u32_at, slice_at, List, [], ◌∷◌, ◌++◌, map, all_of,
}
use bound_gate_vpn.Netip.{Addr, invalid, v4, v6, is_valid}
use bound_gate_vpn.Netparse.Header.{bit, addr16_at}

abbrev pub max_dns_answers : ℕ
max_dns_answers = 64

-- strings.ToLower on ASCII text
abbrev pub lower : ℕ → ℕ
lower c = if leb b'A' c && leb c b'Z' then c + 32 else c

-- The bytes that a label may hold.
abbrev pub label_byte : ℕ → Bool
label_byte c = not (ltb c 0x21 || ltb 0x7e c || c == b'.')

abbrev pub with_dot : Bytes → Bytes
with_dot [] = []
with_dot (c ∷ cs) = (c ∷ cs) ++ b'.' ∷ []

-- The loop of questionName, from `off` on, behind the labels `sb`.
unfoldable pub read_labels : ℕ → Bytes → ℕ → Bytes → Run (Option (Bytes × ℕ))
read_labels zero payload off sb = panic
read_labels (suc fuel) payload off sb = if leb (length payload) off then done none else do
  l ← byte_at payload off
  let start = off + 1
  if l == 0
      then done (some (sb, start))
      else if not (l / 64 % 4 == 0)
          || ltb (length payload) (start + l)
          || ltb 253 (length sb + l + 1)
      then done none
      else do
        label ← slice_at payload start (start + l)
        let rest = read_labels fuel payload (start + l) (with_dot sb ++ label)
        if all_of label_byte label then rest else done none

-- What questionName returns behind its loop.
unfoldable pub end_question : Bytes → Option (Bytes × ℕ) → Option (Bytes × ℕ)
end_question payload none = none
end_question payload (some (sb, off)) =
    if length sb == 0 || ltb (length payload) (off + 4) then none else some (map lower sb, off)

unfoldable pub question_name : Bytes → Run (Option (Bytes × ℕ))
unfolding end_question
question_name payload = do
  qdcount ← u16_at payload 4
  if qdcount == 0 then done none else do
    labels ← read_labels (suc (length payload)) payload 12 []
    done (end_question payload labels)

-- The message ID, with the name that was read.
abbrev pub named : ℕ → Option (Bytes × ℕ) → Option (ℕ × Bytes)
named id none = none
named id (some (name, off)) = some (id, name)

-- DNSQuery, with the ID and the name of a query.
unfoldable pub dns_query : Bytes → Run (Option (ℕ × Bytes))
dns_query payload = if ltb (length payload) 12 then done none else do
  flags ← u16_at payload 2
  qdcount ← u16_at payload 4
  ancount ← u16_at payload 6
  nscount ← u16_at payload 8
  arcount ← u16_at payload 10
  if bit 15 flags || not (flags / 2 ^ 11 % 16 == 0)
      then done none
      else if not (qdcount == 1) || not (ancount == 0) || not (nscount == 0) || ltb 1 arcount
      then done none
      else do question ← question_name payload; id ← u16_at payload 0; done (named id question)

-- DNSQueryName
abbrev pub dns_query_name : Bytes → Run (Option Bytes)
dns_query_name payload = do
  q ← dns_query payload
  done (elim q [ none ↦ none | some (id, name) ↦ some name ])

unfoldable pub dns_response_id : Bytes → Run (Option ℕ)
dns_response_id payload = if ltb (length payload) 12 then done none else do
  flags ← u16_at payload 2
  id ← u16_at payload 0
  done (if not (bit 15 flags) then none else some id)

unfoldable pub skip_name : ℕ → Bytes → ℕ → Run (Option ℕ)
skip_name zero payload off = panic
skip_name (suc fuel) payload off = if leb (length payload) off then done none else do
  l ← byte_at payload off
  let rest = skip_name fuel payload (off + 1 + l)
  if l == 0
      then done (some (off + 1))
      else if l / 64 % 4 == 3
      then done (if ltb (length payload) (off + 2) then none else some (off + 2))
      else if not (l / 64 % 4 == 0)
      then done none
      else rest

-- The address of an A or AAAA record with `n` bytes of data at `off`; `invalid` for any other.
unfoldable pub record_addr : ℕ → ℕ → ℕ → Bytes → ℕ → Run Addr
record_addr class typ n payload off =
    if not (class == 1)
    then done invalid
    else if typ == 1 && n == 4
    then u32_at payload off >>= (λ a. done (v4 a))
    else if typ == 28 && n == 16
    then addr16_at payload off
    else done invalid

-- The addresses read so far, with the smallest time to live among them.
pub record Answers : Type 0 where
  pub addrs : List Addr
  pub least : ℕ

abbrev pub add_answer : Answers → Addr → ℕ → Answers
add_answer found a ttl =
    if is_valid a
    then record { addrs = found.addrs ++ a ∷ []; least = min found.least ttl }
    else found

-- The end of one turn of the loop: the record's data, and where the next record starts.
unfoldable pub take_record : ℕ → ℕ → ℕ → ℕ → Bytes → ℕ → Answers → Run (Option (Answers × ℕ))
take_record class typ ttl n payload off found =
    if ltb (length payload) (off + n)
    then done none
    else do a ← record_addr class typ n payload off; done (some (add_answer found a ttl, off + n))

-- The rest of the loop of DNSAnswer after skipName: the fixed part of one record, and its data.
unfoldable pub read_record : Bytes → ℕ → Answers → Run (Option (Answers × ℕ))
read_record payload off found = if ltb (length payload) (off + 10) then done none else do
  typ ← u16_at payload off
  class ← u16_at payload (off + 2)
  ttl ← u32_at payload (off + 4)
  n ← u16_at payload (off + 8)
  take_record class typ ttl n payload (off + 10) found

-- One turn of the loop; `none` is a break.
unfoldable pub read_answer : Bytes → ℕ → Answers → Run (Option (Answers × ℕ))
read_answer payload off found = do
  next ← skip_name (suc (length payload)) payload off
  elim next [ none ↦ done none | some start ↦ read_record payload start found ]

unfoldable pub read_answers : ℕ → Bytes → ℕ → Answers → Run Answers
read_answers zero payload off found = done found
read_answers (suc count) payload off found = do
  turn ← read_answer payload off found
  elim turn [ none ↦ done found | some (more, next) ↦ read_answers count payload next more ]

-- The name of the question, the addresses, and the time to live in nanoseconds.
pub record Answer : Type 0 where
  pub name : Bytes
  pub addrs : List Addr
  pub ttl : ℕ

abbrev pub end_answer : Bytes → List Addr → ℕ → Option Answer
end_answer name [] least = none
end_answer name (a ∷ rest) least =
    some (record { name = name; addrs = a ∷ rest; ttl = least * 1_000_000_000 })

-- DNSAnswer behind the header checks.
unfoldable pub read_response : Bytes → ℕ → Run (Option Answer)
read_response payload ancount = do
  question ← question_name payload
  elim question [
    | none ↦ done none
    | some (name, off) ↦
        read_answers (min ancount max_dns_answers) payload (off + 4)
          (record { addrs = []; least = 2 ^ 32 - 1 })
        >>= λ found. done (end_answer name found.addrs found.least)
  ]

unfoldable pub dns_answer : Bytes → Run (Option Answer)
dns_answer payload = if ltb (length payload) 12 then done none else do
  flags ← u16_at payload 2
  qdcount ← u16_at payload 4
  ancount ← u16_at payload 6
  if not (bit 15 flags) || not (flags % 16 == 0) || bit 9 flags || not (qdcount == 1)
      then done none
      else read_response payload ancount
