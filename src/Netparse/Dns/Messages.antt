-- ===== src/Netparse/Dns/Messages.antt =====
-- Whole messages: no panic, and what an accepted query or answer holds.
use bound_gate_vpn.Prelude.{
  ℕ, zero, suc, ◌+◌, ◌-◌, ◌*◌, ◌^◌, ◌≡◌, ◌≤◌, ◌<◌, refl, Bool, true, Option, none, some, arith,
  Bytes, length, done, ◌>>=◌, u16_at, Holds, Holds-bind, Holds-map, List, [], ◌∷◌, ◌++◌, all_of,
  length-append, get_or, min,
}
use bound_gate_vpn.Netip.{Addr, is_valid}
use bound_gate_vpn.Netparse.Dns.{
  dns_query, dns_answer, question_name, named, record_addr, Answers, take_record, read_record,
  read_answer, read_answers, end_answer, Answer, read_response, max_dns_answers, add_answer,
  skip_name,
}
use bound_gate_vpn.Netparse.Dns.Names.{
  IsPlainName, Question, question_name-Question, Skipped, skip_name-Skipped,
}

abbrev pub Query : Option (ℕ × Bytes) → Type 0
Query none = Unit
Query (some (id, name)) = IsPlainName name

abbrev all_of_addrs : List Addr → Bool
all_of_addrs = all_of is_valid

all_of_addrs-append :
    (xs : List Addr) (a : Addr)
    → all_of_addrs xs ≡ true
    → is_valid a ≡ true
    → all_of_addrs (xs ++ a ∷ []) ≡ true
all_of_addrs-append [] a h k = rw k
all_of_addrs-append (x ∷ xs) a h k = ground (arith, all_of_addrs-append xs a)

named-Query :
    (payload : Bytes) (id : ℕ) (q : Option (Bytes × ℕ)) → Question payload q → Query (named id q)
named-Query payload id none h = tt
named-Query payload id (some (name, off)) h = h.0

-- The end of DNSQuery, past its checks.
Query-end :
    (payload : Bytes)
    → 12 ≤ length payload
    → Holds Query (question_name payload >>= λ q. u16_at payload 0 >>= λ id. done (named id q))
Query-end payload long =
    Holds-bind (Question payload) Query (question_name payload)
      (λ q. u16_at payload 0 >>= λ id. done (named id q)) (question_name-Question payload long)
      (λ q h.
        ground (arith, named-Query payload (get_or payload 0 0 * 256 + get_or payload 1 0) q h))

-- Reading a query never panics, whatever the bytes; the name of one that is accepted has 1 to 253
-- bytes, each printable and none a capital letter.
pub dns_query-IsPlainName : (payload : Bytes) → Holds Query (dns_query payload)
unfolding dns_query
dns_query-IsPlainName payload = ground (arith, Query-end payload)

-- What the loop has found: valid addresses, at most `n`, none of them before the first record.
abbrev IsFound : ℕ → Answers → Type 0
IsFound n found = (all_of_addrs found.addrs ≡ true) × (length found.addrs ≤ n)

record_addr-Holds :
    (class typ n : ℕ) (payload : Bytes) (off : ℕ)
    → off + n ≤ length payload
    → Holds (λ a. Unit {0}) (record_addr class typ n payload off)
unfolding record_addr
record_addr-Holds class typ n payload off fits = ground arith

abbrev Turn : Bytes → ℕ → ℕ → Option (Answers × ℕ) → Type 0
Turn payload n off none = Unit
Turn payload n off (some (found, next)) =
    IsFound (n + 1) found × (off < next) × (next ≤ length payload)

add_answer-IsFound :
    (n : ℕ) (found : Answers) (a : Addr) (ttl : ℕ)
    → IsFound n found
    → IsFound (n + 1) (add_answer found a ttl)
add_answer-IsFound n found a ttl h =
    ground (arith, length-append {0} found.addrs (a ∷ []), all_of_addrs-append found.addrs a h.0)

take_record-Turn :
    (payload : Bytes) (m from class typ ttl n off : ℕ) (found : Answers)
    → from < off
    → IsFound m found
    → Holds (Turn payload m from) (take_record class typ ttl n payload off found)
unfolding take_record
take_record-Turn payload m from class typ ttl n off found later h = ground (
  arith,
  λ (fits : off + n ≤ length payload).
      Holds-bind (λ a. Unit {0}) (Turn payload m from) (record_addr class typ n payload off)
        (λ a. done (some (add_answer found a ttl, off + n)))
        (record_addr-Holds class typ n payload off fits)
        (λ a u. (add_answer-IsFound m found a ttl h, omega arith, fits)),
)

read_record-Turn :
    (payload : Bytes) (m from off : ℕ) (found : Answers)
    → from < off
    → IsFound m found
    → Holds (Turn payload m from) (read_record payload off found)
unfolding read_record
read_record-Turn payload m from off found later h = grind (
  arith,
  λ (class typ ttl n : ℕ).
      take_record-Turn payload m from class typ ttl n (off + 10) found (omega arith) h,
)

after_name :
    (payload : Bytes) (m off : ℕ) (found : Answers) (o : Option ℕ)
    → IsFound m found
    → Skipped payload off o
    → Holds
        (Turn payload m off)
        (elim o [ none ↦ done none | some start ↦ read_record payload start found ])
after_name payload m off found none h k = tt
after_name payload m off found (some start) h k = read_record-Turn payload m off start found k.0 h

read_answer-Turn :
    (payload : Bytes) (m off : ℕ) (found : Answers)
    → IsFound m found
    → Holds (Turn payload m off) (read_answer payload off found)
unfolding read_answer
read_answer-Turn payload m off found h =
    Holds-bind (Skipped payload off) (Turn payload m off)
      (skip_name (suc (length payload)) payload off) _ (skip_name-Skipped payload off)
      (λ o. after_name payload m off found o h)

after-Turn :
    (payload : Bytes) (count m off : ℕ) (found : Answers) (o : Option (Answers × ℕ))
    → ((n : ℕ) (next : ℕ) (more : Answers)
        → IsFound n more
        → Holds (IsFound (n + count)) (read_answers count payload next more))
    → IsFound m found
    → Turn payload m off o
    → Holds
        (IsFound (m + suc count))
        (elim o [ none ↦ done found | some (more, next) ↦ read_answers count payload next more ])
after-Turn payload count m off found none ih h k = (h.0, omega arith)
after-Turn payload count m off found (some (more, next)) ih h k =
    Holds-map (IsFound (m + 1 + count)) (IsFound (m + suc count))
      (read_answers count payload next more) (ih (m + 1) next more k.0) (λ a f. (f.0, omega arith))

read_answers-IsFound :
    (count : ℕ) (payload : Bytes) (m off : ℕ) (found : Answers)
    → IsFound m found
    → Holds (IsFound (m + count)) (read_answers count payload off found)
unfolding read_answers
read_answers-IsFound zero payload m off found h = (h.0, omega arith)
read_answers-IsFound (suc count) payload m off found h =
    Holds-bind (Turn payload m off) (IsFound (m + suc count)) (read_answer payload off found) _
      (read_answer-Turn payload m off found h)
      (λ o.
        after-Turn payload count m off found o
          (λ n next more. read_answers-IsFound count payload n next more) h)

-- What holds of an answer that was read.
pub record IsAnswer (a : Answer) : Type 0 where
  pub named : IsPlainName a.name
  pub valid : all_of_addrs a.addrs ≡ true
  pub some_addr : 0 < length a.addrs
  pub few : length a.addrs ≤ max_dns_answers

abbrev pub Answered : Option Answer → Type 0
Answered none = Unit
Answered (some a) = IsAnswer a

end_answer-Answered :
    (name : Bytes) (addrs : List Addr) (least : ℕ)
    → IsPlainName name
    → all_of_addrs addrs ≡ true
    → length addrs ≤ max_dns_answers
    → Answered (end_answer name addrs least)
end_answer-Answered name [] least p h k = tt
end_answer-Answered name (a ∷ rest) least p h k = record {
  named = p;
  valid = h;
  some_addr = omega arith;
  few = k;
}

response_on :
    (payload : Bytes) (ancount : ℕ) (q : Option (Bytes × ℕ))
    → Question payload q
    → Holds Answered (elim q [
      | none ↦ done none
      | some (name, off) ↦
          read_answers
            (min ancount max_dns_answers)
            payload
            (off + 4)
            (record { addrs = []; least = 2 ^ 32 - 1 })
          >>= λ found. done (end_answer name found.addrs found.least)
    ])
response_on payload ancount none h = tt
response_on payload ancount (some (name, off)) h =
    Holds-bind (IsFound (0 + min ancount max_dns_answers)) Answered
      (read_answers (min ancount max_dns_answers) payload (off + 4)
        (record { addrs = []; least = 2 ^ 32 - 1 }))
      (λ found. done (end_answer name found.addrs found.least))
      (read_answers-IsFound (min ancount max_dns_answers) payload 0 (off + 4) _ (refl, omega arith))
      (λ found f. end_answer-Answered name found.addrs found.least h.0 f.0 (omega arith))

read_response-Answered :
    (payload : Bytes) (ancount : ℕ)
    → 12 ≤ length payload
    → Holds Answered (read_response payload ancount)
unfolding read_response
read_response-Answered payload ancount long =
    Holds-bind (Question payload) Answered (question_name payload) _
      (question_name-Question payload long) (response_on payload ancount)

-- Reading an answer never panics, whatever the bytes; one that is accepted has a plain name, at
-- least one and at most 64 addresses, and all of these are valid.
pub dns_answer-IsAnswer : (payload : Bytes) → Holds Answered (dns_answer payload)
unfolding dns_answer
dns_answer-IsAnswer payload = grind (arith, read_response-Answered payload)
