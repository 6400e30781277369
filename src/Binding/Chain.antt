-- ===== src/Binding/Chain.antt =====
-- What a chain of admin key lists that is accepted has been signed by.
use bound_gate_vpn.Prelude.{
  ◌+◌, ◌%◌, ◌^◌, ◌≡◌, refl, arith, Bool, true, false, not, ◌&&◌, Option-cases, some, ltb, ◌==◌,
  if◌then◌else◌, List, [], ◌∷◌, ◌++◌, length, Bytes, same_bytes, same_bytes_iff, inl, inr, ◌⊎◌,
  IsIn, Bool-cases, sym, ap, subst, ◌∙◌,
}
use bound_gate_vpn.Registry.{SignerLink}
use bound_gate_vpn.Binding.{SignerSet, Crypto}
use bound_gate_vpn.Binding.Sshsig.{Sshsig, parse_sshsig, verify_message}
use bound_gate_vpn.Binding.Signers.{
  Trust, SetError, set_form, signers_namespace, is_one_of, is_pinned, key_string, parse_signer_set,
  checked_set, is_valid_set, hash_set, trust_of, check_signature, verify_link, allowed_keys,
  with_genesis, step, follow, behind_pin, finish_chain, find_genesis, verify_chain, is_signer_type,
}

is_one_of-IsIn : (s : Bytes) (ts : List Bytes) → is_one_of s ts ≡ true → IsIn s ts
unfolding is_one_of
is_one_of-IsIn s [] h = absurd (ground arith)
is_one_of-IsIn s (t ∷ ts) h = elim (Bool-cases (same_bytes t s)) [
  | inl e ↦ inl ((same_bytes_iff t s).0 e)
  | inr e ↦ inr (is_one_of-IsIn s ts (ground arith))
]

pub Sum-cases : {A B : Type 0} (x : A ⊎ B) → ((a : A) × (x ≡ inl a)) ⊎ ((b : B) × (x ≡ inr b))
Sum-cases (inl a) = inl (a, refl)
Sum-cases (inr b) = inr (b, refl)

-- A test of verifyLink that a link gets past.
passed :
    (t : Bool) (e : SetError) (o : SetError ⊎ Trust) (u : Trust)
    → (if t then inl e else o) ≡ inr u
    → (t ≡ false) × (o ≡ inr u)
passed true e o u h = absurd (ground arith)
passed false e o u h = (refl, h)

pub inr_same : {A B : Type 0} (x y : B) → ◌≡◌ {A = A ⊎ B} (inr x) (inr y) → x ≡ y
inr_same x y h = ground arith

taken :
    {A : Type 0} (t : Bool) (e : SetError) (x y : A)
    → ◌≡◌ {A = SetError ⊎ A} (if t then inr x else inl e) (inr y)
    → (t ≡ true) × (x ≡ y)
taken true e x y h = (refl, inr_same x y h)
taken false e x y h = absurd (ground arith)

first_taken :
    {A : Type 0} (p t : Bool) (e : SetError) (x y : A) (other : SetError ⊎ A)
    → p ≡ true
    → ◌≡◌ {A = SetError ⊎ A} (if p then if t then inr x else inl e else other) (inr y)
    → (t ≡ true) × (x ≡ y)
first_taken true t e x y other h g = taken t e x y g
first_taken false t e x y other h g = absurd (ground arith)

with_genesis-keys : (t u : Trust) → is_pinned u ≡ true → is_pinned (with_genesis t u) ≡ true
with_genesis-keys t u h = elim (Bool-cases (length u.genesis == 0)) [
  | inl e ↦ rw (e) h
  | inr e ↦ rw (e) h
]

module _ (crypto : Crypto) where
  -- A set that a key of `allowed` has signed as a list of admin keys.
  abbrev pub IsSigned : SignerLink → List Bytes → Type 0
  IsSigned l allowed =
      (sig : Sshsig) × (parse_sshsig crypto l.signature ≡ some sig)
      × (sig.namespace ≡ signers_namespace)
      × IsIn (key_string crypto sig.public_key) allowed
      × (verify_message crypto sig l.set ≡ true)

  -- A link that continues a trust, with the trust after it: the next version, which names the set
  -- before it by its hash and is signed by one of that set's keys.
  abbrev pub IsNext : Trust → SignerLink → Trust → Type 0
  IsNext t l u =
      (set : SignerSet) × (parse_signer_set crypto l.set ≡ inr set)
      × (set.version ≡ (t.version + 1) % 2 ^ 64)
      × (set.prev ≡ t.hash)
      × IsSigned l t.keys
      × (u ≡ with_genesis t (trust_of crypto l set))

  pub data Chain : Trust → List SignerLink → Trust → Type 0 where
    stop : {t : Trust} → Chain t [] t
    link :
        {t u v : Trust} {l : SignerLink} {ls : List SignerLink}
        → IsNext t l u
        → Chain u ls v
        → Chain t (l ∷ ls) v

  check_signature-IsSigned :
      (l : SignerLink) (set : SignerSet) (allowed : List Bytes) (sig : Sshsig) (u : Trust)
      → check_signature crypto l set allowed sig ≡ inr u
      → (sig.namespace ≡ signers_namespace)
        × IsIn (key_string crypto sig.public_key) allowed
        × (verify_message crypto sig l.set ≡ true)
        × (u ≡ trust_of crypto l set)
  unfolding check_signature
  check_signature-IsSigned l set allowed sig u h =
      let (space, h1) = passed (not (same_bytes sig.namespace signers_namespace)) _ _ u h in
      let (kind, h2) = passed (not (is_signer_type crypto sig.public_key)) _ _ u h1 in
      let (listed, h3) =
        passed (not (is_one_of (key_string crypto sig.public_key) allowed)) _ _ u h2 in
      let (verified, h4) = passed (not (verify_message crypto sig l.set)) _ _ u h3 in
      (
        (same_bytes_iff sig.namespace signers_namespace).0 (ground arith),
        is_one_of-IsIn (key_string crypto sig.public_key) allowed (ground arith),
        ground arith,
        sym (inr_same (trust_of crypto l set) u h4),
      )

  verify_link-IsSigned :
      (l : SignerLink) (set : SignerSet) (allowed : List Bytes) (u : Trust)
      → verify_link crypto l set allowed ≡ inr u
      → IsSigned l allowed × (u ≡ trust_of crypto l set)
  unfolding verify_link
  verify_link-IsSigned l set allowed u h = elim (Option-cases (parse_sshsig crypto l.signature)) [
    | inl bad ↦ absurd (ground arith)
    | inr (sig, parsed) ↦
        let (space, listed, verified, same) =
          check_signature-IsSigned l set allowed sig u (ground arith) in
        ((sig, parsed, space, listed, verified), same)
  ]

  -- The keys that may sign a link behind a pinned set are that set's.
  allowed_keys-pinned :
      (t : Trust) (genesis : Bytes) (l : SignerLink) (set : SignerSet) (allowed : List Bytes)
      → is_pinned t ≡ true
      → allowed_keys crypto t genesis l set ≡ inr allowed
      → (set.version ≡ (t.version + 1) % 2 ^ 64) × (set.prev ≡ t.hash) × (t.keys ≡ allowed)
  unfolding allowed_keys
  allowed_keys-pinned t genesis l set allowed pinned h =
      let (continues, same) =
        first_taken (is_pinned t)
          (set.version == (t.version + 1) % 2 ^ 64 && same_bytes set.prev t.hash) _ t.keys allowed _
          pinned h in
      (ground arith, (same_bytes_iff set.prev t.hash).0 (ground arith), same)

  keys_set : (s : SignerSet) → is_valid_set crypto s ≡ true → ltb 0 (length s.keys) ≡ true
  unfolding is_valid_set
  keys_set s h = ground arith

  set-keys :
      (raw : Bytes) (set : SignerSet)
      → parse_signer_set crypto raw ≡ inr set
      → ltb 0 (length set.keys) ≡ true
  unfolding parse_signer_set checked_set
  set-keys raw set h = elim (Option-cases (crypto.decode_set raw)) [
    | inl bad ↦ absurd (ground arith)
    | inr (s, decoded) ↦
        let (valid, same) =
          taken (is_valid_set crypto s && same_bytes (crypto.encode_set s) raw) set_form s set
            (ground arith) in
        subst (λ x. ltb 0 (length x.keys) ≡ true) same (keys_set s (ground arith))
  ]

  -- A link that VerifyChain accepts behind a pinned set continues it, and leaves a set with keys.
  step-IsNext :
      (t : Trust) (genesis : Bytes) (l : SignerLink) (u : Trust)
      → is_pinned t ≡ true
      → step crypto t genesis l ≡ inr u
      → IsNext t l u × (is_pinned u ≡ true)
  unfolding step
  step-IsNext t genesis l u pinned h = elim (Sum-cases (parse_signer_set crypto l.set)) [
    | inl (e, bad) ↦ absurd (ground arith)
    | inr (set, parsed) ↦ elim (Sum-cases (allowed_keys crypto t genesis l set)) [
      | inl (e, bad) ↦ absurd (ground arith)
      | inr (allowed, found) ↦ elim (Sum-cases (verify_link crypto l set allowed)) [
        | inl (e, bad) ↦ absurd (ground arith)
        | inr (next, verified) ↦
            let (version, prev, keys) = allowed_keys-pinned t genesis l set allowed pinned found in
            let (signed, same) = verify_link-IsSigned l set allowed next verified in
            let made : u ≡ with_genesis t next = ground arith in
            (
              (
                set,
                parsed,
                version,
                prev,
                subst (IsSigned l) (sym keys) signed,
                made ∙ ap (with_genesis t) same,
              ),
              subst (λ x. is_pinned x ≡ true) (sym (made ∙ ap (with_genesis t) same))
                  (with_genesis-keys t (trust_of crypto l set) (set-keys l.set set parsed)),
            )
      ]
    ]
  ]

  follow-Chain :
      (t : Trust) (genesis : Bytes) (ls : List SignerLink) (v : Trust)
      → is_pinned t ≡ true
      → follow crypto t genesis ls ≡ inr v
      → Chain t ls v
  unfolding follow
  follow-Chain t genesis [] v pinned h = subst (Chain t []) (inr_same t v h) stop
  follow-Chain t genesis (l ∷ ls) v pinned h = elim (Sum-cases (step crypto t genesis l)) [
    | inl (e, bad) ↦ absurd (ground arith)
    | inr (u, good) ↦
        let (next, still) = step-IsNext t genesis l u pinned good in
        link next (follow-Chain u genesis ls v still (ground arith))
  ]

  behind_pin-IsIn :
      (cur : Trust) (chain rest : List SignerLink)
      → behind_pin crypto cur chain ≡ inr rest
      → (before : List SignerLink) × (l : SignerLink) × (chain ≡ before ++ l ∷ rest)
        × (hash_set crypto l.set ≡ cur.hash)
  unfolding behind_pin
  behind_pin-IsIn cur [] rest h = absurd (ground arith)
  behind_pin-IsIn cur (l ∷ ls) rest h = elim (Sum-cases (parse_signer_set crypto l.set)) [
    | inl (e, bad) ↦ absurd (ground arith)
    | inr (set, parsed) ↦ elim (Bool-cases (set.version == cur.version)) [
      | inr other ↦
          let (before, m, split, same) = behind_pin-IsIn cur ls rest (ground arith) in
          (l ∷ before, m, ap (λ x. l ∷ x) split, same)
      | inl version ↦ elim (Bool-cases (same_bytes (hash_set crypto l.set) cur.hash)) [
        | inr bad ↦ absurd (ground arith)
        | inl hash ↦
            let found : ls ≡ rest = inr_same {A = SetError} ls rest (ground arith) in
            ([], l, ap (λ x. l ∷ x) found, (same_bytes_iff (hash_set crypto l.set) cur.hash).0 hash)
      ]
    ]
  ]

  finish_chain-Chain :
      (cur : Trust) (chain rest : List SignerLink) (genesis : Bytes) (t : Trust)
      → is_pinned cur ≡ true
      → finish_chain crypto chain (follow crypto cur genesis rest) ≡ inr t
      → (u : Trust) × Chain cur rest u × (t ≡ find_genesis crypto chain u)
  unfolding finish_chain
  finish_chain-Chain cur chain rest genesis t pinned h =
      elim (Sum-cases (follow crypto cur genesis rest)) [
        | inl (e, bad) ↦ absurd (ground arith)
        | inr (u, good) ↦
            let made : finish_chain crypto chain (inr u) ≡ inr t =
              subst (λ x. finish_chain crypto chain x ≡ inr t) good h in
            (
              u,
              follow-Chain cur genesis rest u pinned good,
              sym (inr_same {A = SetError} (find_genesis crypto chain u) t made),
            )
      ]

  -- A trust that a node with a pinned set takes from a chain is the pinned one, when the chain is
  -- empty; otherwise the chain contains a set with the pinned set's hash, and the links behind it
  -- lead to the new trust one by one: each the next version, naming the set before it by its hash,
  -- and signed, for this purpose, by a key of the set before it. The genesis hash alone may be
  -- filled in.
  pub verify_chain-Chain :
      (cur : Trust) (chain : List SignerLink) (genesis : Bytes) (t : Trust)
      → is_pinned cur ≡ true
      → verify_chain crypto cur chain genesis ≡ inr t
      → ((chain ≡ []) × (t ≡ cur))
        ⊎ ((before : List SignerLink) × (l : SignerLink) × (rest : List SignerLink) × (u : Trust)
            × (chain ≡ before ++ l ∷ rest)
            × (hash_set crypto l.set ≡ cur.hash)
            × Chain cur rest u
            × (t ≡ find_genesis crypto chain u))
  unfolding verify_chain finish_chain
  verify_chain-Chain cur [] genesis t pinned h = inl (refl, ground arith)
  verify_chain-Chain cur (l ∷ ls) genesis t pinned h =
      elim (Sum-cases (behind_pin crypto cur (l ∷ ls))) [
        | inl (e, bad) ↦ absurd (ground arith)
        | inr (rest, found) ↦
            let (before, m, split, same) = behind_pin-IsIn cur (l ∷ ls) rest found in
            let (u, chained, made) =
              finish_chain-Chain cur (l ∷ ls) rest genesis t pinned (ground arith) in
            inr (before, m, rest, u, split, same, chained, made)
      ]
