-- ===== src/Netparse/Dns/Names.antt =====
-- The name of a question, and the end of a record's name.
use bound_gate_vpn.Prelude.{
  ℕ, zero, suc, ◌+◌, ◌-◌, ◌≡◌, ◌≤◌, ◌<◌, refl, Bool, true, not, ◌&&◌, ◌||◌, Option, none, some,
  arith, leb, ◌==◌, Bytes, length, done, Holds, Holds-bind, [], ◌∷◌, ◌++◌, map, all_of,
  length-append, length-slice, take, drop, get_or,
}
use bound_gate_vpn.Netparse.Dns.{
  lower, label_byte, with_dot, read_labels, end_question, question_name, skip_name,
}

-- A byte of a name: printable, and a dot only between labels.
abbrev pub name_byte : ℕ → Bool
name_byte c = label_byte c || c == b'.'

-- What a finished run of the label loop gives.
abbrev Labels : Bytes → Option (Bytes × ℕ) → Type 0
Labels payload none = Unit
Labels payload (some (sb, off)) =
    (all_of name_byte sb ≡ true) × (length sb ≤ 253) × (off ≤ length payload) × (12 ≤ off)

all_of-append :
    (p : ℕ → Bool) (xs ys : Bytes)
    → all_of p xs ≡ true
    → all_of p ys ≡ true
    → all_of p (xs ++ ys) ≡ true
all_of-append p [] ys h k = k
all_of-append p (x ∷ xs) ys h k = ground (arith, all_of-append p xs ys)

all_of-with_dot : (sb : Bytes) → all_of name_byte sb ≡ true → all_of name_byte (with_dot sb) ≡ true
all_of-with_dot [] h = refl
all_of-with_dot (c ∷ cs) h = all_of-append name_byte (c ∷ cs) (b'.' ∷ []) h refl

all_of-name_byte : (l : Bytes) → all_of label_byte l ≡ true → all_of name_byte l ≡ true
all_of-name_byte [] h = refl
all_of-name_byte (c ∷ cs) h = ground (arith, all_of-name_byte cs)

length-with_dot : (sb : Bytes) → length (with_dot sb) ≤ length sb + 1
length-with_dot [] = omega arith
length-with_dot (c ∷ cs) = omega (arith, length-append cs (b'.' ∷ []))

abbrev label_at : Bytes → ℕ → ℕ → Bytes
label_at payload off l = take (off + 1 + l - (off + 1)) (drop (off + 1) payload)

-- One label more keeps what holds of the labels read.
step_label :
    (payload sb : Bytes) (off l : ℕ)
    → all_of name_byte sb ≡ true
    → off + 1 + l ≤ length payload
    → length sb + l + 1 ≤ 253
    → all_of label_byte (label_at payload off l) ≡ true
    → (all_of name_byte (with_dot sb ++ label_at payload off l) ≡ true)
      × (length (with_dot sb ++ label_at payload off l) ≤ 253)
step_label payload sb off l h fits small good =
    let label : Bytes = label_at payload off l in
    (
      all_of-append name_byte (with_dot sb) label (all_of-with_dot sb h)
          (all_of-name_byte label good),
      omega (
        arith,
        length-append (with_dot sb) label,
        length-with_dot sb,
        length-slice payload (off + 1) (off + 1 + l) (omega arith) fits,
      ),
    )

read_labels-Labels :
    (fuel : ℕ) (payload : Bytes) (off : ℕ) (sb : Bytes)
    → length payload < fuel + off
    → 0 < fuel
    → 11 < off
    → all_of name_byte sb ≡ true
    → length sb ≤ 253
    → Holds (Labels payload) (read_labels fuel payload off sb)
unfolding read_labels
read_labels-Labels zero payload off sb enough pos low h small = absurd (omega arith)
read_labels-Labels (suc fuel) payload off sb enough pos low h small =
    let l = get_or payload off 0 in
    ground (
      arith,
      step_label payload sb off l h,
      read_labels-Labels fuel payload (off + 1 + l) (with_dot sb ++ label_at payload off l),
    )

-- A byte of a name in lower case.
abbrev pub plain_byte : ℕ → Bool
plain_byte c = name_byte c && not (leb b'A' c && leb c b'Z')

abbrev pub IsPlainName : Bytes → Type 0
IsPlainName name = (all_of plain_byte name ≡ true) × (0 < length name) × (length name ≤ 253)

lower-plain_byte :
    (sb : Bytes) → all_of name_byte sb ≡ true → all_of plain_byte (map lower sb) ≡ true
lower-plain_byte [] h = refl
lower-plain_byte (c ∷ cs) h = ground (arith, lower-plain_byte cs)

length-map : (f : ℕ → ℕ) (xs : Bytes) → length (map f xs) ≡ length xs
length-map f [] = refl
length-map f (x ∷ xs) = omega (arith, length-map f xs)

-- What a question that was read holds.
abbrev pub Question : Bytes → Option (Bytes × ℕ) → Type 0
Question payload none = Unit
Question payload (some (name, off)) = IsPlainName name × (off + 4 ≤ length payload)

end_question-Question :
    (payload : Bytes) (r : Option (Bytes × ℕ))
    → Labels payload r
    → Question payload (end_question payload r)
unfolding end_question
end_question-Question payload none h = tt
end_question-Question payload (some (sb, off)) h =
    ground (arith, lower-plain_byte sb h.0, length-map lower sb)

pub question_name-Question :
    (payload : Bytes) → 12 ≤ length payload → Holds (Question payload) (question_name payload)
unfolding question_name
question_name-Question payload long = ground (
  arith,
  Holds-bind (Labels payload) (Question payload) (read_labels (suc (length payload)) payload 12 [])
      (λ labels. done (end_question payload labels))
      (read_labels-Labels (suc (length payload)) payload 12 [] (omega arith) (omega arith)
        (omega arith) refl (omega arith))
      (end_question-Question payload),
)

abbrev pub Skipped : Bytes → ℕ → Option ℕ → Type 0
Skipped payload off none = Unit
Skipped payload off (some next) = (off < next) × (next ≤ length payload)

-- The start `from` of the name stays below the offset that the loop reaches.
skip_name_above :
    (fuel : ℕ) (payload : Bytes) (off from : ℕ)
    → length payload < fuel + off
    → 0 < fuel
    → from ≤ off
    → Holds (Skipped payload from) (skip_name fuel payload off)
unfolding skip_name
skip_name_above zero payload off from enough pos h = absurd (omega arith)
skip_name_above (suc fuel) payload off from enough pos h =
    ground (arith, skip_name_above fuel payload (off + 1 + get_or payload off 0) from)

-- Stepping over a name never panics and ends behind its start and inside the message.
pub skip_name-Skipped :
    (payload : Bytes) (off : ℕ)
    → Holds (Skipped payload off) (skip_name (suc (length payload)) payload off)
skip_name-Skipped payload off =
    skip_name_above (suc (length payload)) payload off off (omega arith) (omega arith) (omega arith)
