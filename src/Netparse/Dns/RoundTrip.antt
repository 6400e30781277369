-- ===== src/Netparse/Dns/RoundTrip.antt =====
-- Reading back the query that a resolver client writes.
use bound_gate_vpn.Prelude.{
  ℕ, zero, suc, ◌+◌, ◌-◌, ◌*◌, ◌/◌, ◌%◌, ◌≡◌, ◌≤◌, ◌<◌, refl, true, false, not, ◌||◌, some, arith,
  ltb, leb, le→leb, slice_at, ◌==◌, Bytes, length, done, List, [], ◌∷◌, ◌++◌, map, all_of, All,
  length-append, take, drop, get_or, append_assoc, sym, ap, ◌∙◌,
}
use bound_gate_vpn.Netparse.Dns.{
  dns_query, question_name, read_labels, with_dot, lower, label_byte, end_question,
}

-- The wire form of a name: each label behind its length, and a zero byte.
abbrev pub encode_name : List Bytes → Bytes
encode_name [] = 0 ∷ []
encode_name (l ∷ ls) = length l ∷ (l ++ encode_name ls)

-- The labels with dots between them, behind what stands before them.
abbrev pub dotted : Bytes → List Bytes → Bytes
dotted sb [] = sb
dotted sb (l ∷ ls) = dotted (with_dot sb ++ l) ls

abbrev pub IsLabel : Bytes → Type 0
IsLabel l = (0 < length l) × (length l ≤ 63) × (all_of label_byte l ≡ true)

-- A query with message ID `hi`, `lo` and recursion desired: one question, and what follows its name.
abbrev pub query_message : ℕ → ℕ → List Bytes → Bytes → Bytes
query_message hi lo ls rest =
    hi ∷ lo ∷ 1 ∷ 0 ∷ 0 ∷ 1 ∷ 0 ∷ 0 ∷ 0 ∷ 0 ∷ 0 ∷ 0 ∷ (encode_name ls ++ rest)

get_or_middle : (pre : Bytes) (x : ℕ) (ys : Bytes) → get_or (pre ++ x ∷ ys) (length pre) 0 ≡ x
get_or_middle [] x ys = refl
get_or_middle (p ∷ pre) x ys = get_or_middle pre x ys

drop_middle : (pre : Bytes) (x : ℕ) (ys : Bytes) → drop (suc (length pre)) (pre ++ x ∷ ys) ≡ ys
drop_middle [] x ys = refl
drop_middle (p ∷ pre) x ys = drop_middle pre x ys

take_front : (l ys : Bytes) → take (length l) (l ++ ys) ≡ l
take_front [] ys = refl
take_front (x ∷ l) ys = ap (◌∷◌ x) (take_front l ys)

length-dotted : (sb : Bytes) (ls : List Bytes) → length sb ≤ length (dotted sb ls)
length-dotted sb [] = omega arith
length-dotted [] (l ∷ ls) = omega (arith, length-dotted l ls)
length-dotted (c ∷ cs) (l ∷ ls) = omega (
  arith,
  length-dotted (((c ∷ cs) ++ b'.' ∷ []) ++ l) ls,
  length-append ((c ∷ cs) ++ b'.' ∷ []) l,
  length-append (c ∷ cs) (b'.' ∷ []),
)

length-step :
    (sb l : Bytes)
    → 0 < length l
    → length (with_dot sb ++ l) ≤ 253
    → length l ≤ 63
    → length sb + length l + 1 ≤ 253
length-step [] l pos h k = omega arith
length-step (c ∷ cs) l pos h k =
    omega (arith, length-append ((c ∷ cs) ++ b'.' ∷ []) l, length-append (c ∷ cs) (b'.' ∷ []))

-- One turn of the label loop.
read_labels_turn :
    (fuel : ℕ) (payload sb l : Bytes) (off : ℕ)
    → get_or payload off 0 ≡ length l
    → take (off + 1 + length l - (off + 1)) (drop (off + 1) payload) ≡ l
    → off + 1 + length l ≤ length payload
    → IsLabel l
    → length sb + length l + 1 ≤ 253
    → read_labels (suc fuel) payload off sb
      ≡ read_labels fuel payload (off + 1 + length l) (with_dot sb ++ l)
unfolding read_labels
read_labels_turn fuel payload sb l off here there fits good small =
    rw (open_end, first, here, nonzero, plain) (simp (cut, good.2))
  where
    open_end : leb (length payload) off ≡ false
    open_end = ground arith

    first : ltb off (length payload) ≡ true
    first = ground arith

    nonzero : (length l == 0) ≡ false
    nonzero = ground arith

    plain :
        (not (length l / 64 % 4 == 0)
          || ltb (length payload) (off + 1 + length l)
          || ltb 253 (length sb + length l + 1))
        ≡ false
    plain = ground arith

    cut : slice_at payload (off + 1) (off + 1 + length l) ≡ done l
    cut = rw (le→leb (off + 1) (off + 1 + length l) (omega arith), le→leb _ _ fits) (ap done there)

-- A label stands in `payload` behind `pre`.
label_here :
    (pre l ys payload : Bytes) (off : ℕ)
    → payload ≡ pre ++ length l ∷ (l ++ ys)
    → off ≡ length pre
    → (get_or payload off 0 ≡ length l)
      × (take (off + 1 + length l - (off + 1)) (drop (off + 1) payload) ≡ l)
      × (off + 1 + length l ≤ length payload)
label_here pre l ys payload off e o =
    let n : off + 1 + length l - (off + 1) ≡ length l = omega arith in
    let m : off + 1 ≡ suc (length pre) = omega arith in
    (
      rw (e, o) (get_or_middle pre (length l) (l ++ ys)),
      rw n (rw m (rw (e, drop_middle pre (length l) (l ++ ys)) (take_front l ys))),
      rw e (omega (arith, length-append pre (length l ∷ (l ++ ys)), length-append l ys)),
    )

-- The label loop, from the end of `pre` on.
read_labels-encode_name :
    (fuel : ℕ) (pre sb rest : Bytes) (ls : List Bytes) (payload : Bytes) (off : ℕ)
    → payload ≡ pre ++ (encode_name ls ++ rest)
    → off ≡ length pre
    → length ls < fuel
    → All IsLabel ls
    → length (dotted sb ls) ≤ 253
    → read_labels fuel payload off sb ≡ done (some (dotted sb ls, off + length (encode_name ls)))
read_labels-encode_name zero pre sb rest ls payload off e o enough good small = absurd (omega arith)
read_labels-encode_name (suc fuel) pre sb rest [] payload off e o enough good small =
    rw (e, o)
      (unfold read_labels in ground (arith, get_or_middle pre 0 rest, length-append pre (0 ∷ rest)))
read_labels-encode_name (suc fuel) pre sb rest (l ∷ ls) payload off e o enough good small =
    let e' : payload ≡ pre ++ length l ∷ (l ++ (encode_name ls ++ rest)) =
      e ∙ ap (λ t. pre ++ length l ∷ t) (append_assoc l (encode_name ls) rest) in
    let (here, there, fits) = label_here pre l (encode_name ls ++ rest) payload off e' o in
    read_labels_turn fuel payload sb l off here there fits good.0
      (length-step sb l good.0.0 (omega (arith, length-dotted (with_dot sb ++ l) ls)) good.0.1)
    ∙ read_labels-encode_name fuel (pre ++ length l ∷ l) (with_dot sb ++ l) rest ls payload
        (off + 1 + length l) (e' ∙ sym (append_assoc pre (length l ∷ l) (encode_name ls ++ rest)))
        (omega (arith, length-append pre (length l ∷ l))) (omega arith) good.1 small
    ∙ ap (λ (k : ℕ). done (some (dotted (with_dot sb ++ l) ls, k)))
        (omega (arith, length-append l (encode_name ls)))

length-encode_name : (ls : List Bytes) → length ls < length (encode_name ls)
length-encode_name [] = omega arith
length-encode_name (l ∷ ls) = omega (arith, length-append l (encode_name ls), length-encode_name ls)

-- The whole query: what a client writes for a list of labels, the name of at most 253 bytes, is
-- read back as its ID and the dotted name in lower case.
pub dns_query-query_message :
    (hi lo : ℕ) (ls : List Bytes) (rest : Bytes)
    → All IsLabel ls
    → 0 < length (dotted [] ls)
    → length (dotted [] ls) ≤ 253
    → 4 ≤ length rest
    → dns_query (query_message hi lo ls rest)
      ≡ done (some (hi * 256 + lo, map lower (dotted [] ls)))
unfolding dns_query question_name end_question
dns_query-query_message hi lo ls rest good named small more =
    let msg : Bytes = query_message hi lo ls rest in
    rw
      (read_labels-encode_name (suc (length msg))
        (hi ∷ lo ∷ 1 ∷ 0 ∷ 0 ∷ 1 ∷ 0 ∷ 0 ∷ 0 ∷ 0 ∷ 0 ∷ 0 ∷ []) [] rest ls msg 12 refl refl
        (omega (arith, length-encode_name ls, length-append (encode_name ls) rest)) good small)
      (ground (arith, length-append (encode_name ls) rest))
