-- ===== src/Binding/Trusted.antt =====
-- What is known of the peers that VerifySnapshot keeps.
use bound_gate_vpn.Prelude.{
  ◌≡◌, refl, arith, Bool, true, false, not, Option, Option-cases, none, some, ◌==◌, if◌then◌else◌,
  List, [], ◌∷◌, length, Bytes, same_bytes, same_bytes_iff, inl, inr, ◌⊎◌, IsIn, Bool-cases, sym,
  ap, subst,
}
use bound_gate_vpn.Prelude.Text.{trim_space}
use bound_gate_vpn.Registry.{Node, Snapshot}
use bound_gate_vpn.Binding.{PublicKey, Crypto}
use bound_gate_vpn.Binding.Sshsig.{Sshsig, parse_sshsig, verify_message}
use bound_gate_vpn.Binding.Signers.{is_signer_type}
use bound_gate_vpn.Binding.Statements.{Statement, Codec, parse_statement, matches_node}
use bound_gate_vpn.Binding.Nodes.{
  namespace, Fault, bad_signature, bad_key_type, unknown_signer, no_signature, Guard, Rejected,
  verified, Verified, contains_key, guarded, check_sshsig, verify, verify_statement, verify_node,
  guard_statement, admit, sort_peer, sort_peers, Sorted, after_revocations, admit_self,
  verify_records, verify_snapshot,
}
use bound_gate_vpn.Binding.Agrees.{Agrees, Allows, matches_node-Agrees, guarded-Allows}
use bound_gate_vpn.Binding.Chain.{Sum-cases, inr_same}

contains_key-IsIn :
    (ks : List PublicKey) (k : PublicKey)
    → contains_key ks k ≡ true
    → (s : PublicKey) × IsIn s ks × (s.marshal ≡ k.marshal)
unfolding contains_key
contains_key-IsIn [] k h = absurd (ground arith)
contains_key-IsIn (s ∷ ss) k h = elim (Bool-cases (same_bytes s.marshal k.marshal)) [
  | inl e ↦ (s, inl refl, (same_bytes_iff s.marshal k.marshal).0 e)
  | inr e ↦ let (t, i, same) = contains_key-IsIn ss k (ground arith) in (t, inr i, same)
]

passed :
    (t : Bool) (e : Fault) (o : Option Fault)
    → (if t then some e else o) ≡ none
    → (t ≡ false) × (o ≡ none)
passed true e o h = absurd (ground arith)
passed false e o h = (refl, h)

went_on :
    {A : Type 0} (t : Bool) (e : Fault) (o : Fault ⊎ A) (a : A)
    → (if t then inl e else o) ≡ inr a
    → (t ≡ false) × (o ≡ inr a)
went_on true e o a h = absurd (ground arith)
went_on false e o a h = (refl, h)

-- A node that is kept was kept behind, or is this one, which was admitted.
sort_peer-kept :
    (x : Fault ⊎ Statement) (n : Node) (rest : Sorted) (p : Node)
    → IsIn p (sort_peer x n rest).kept
    → IsIn p rest.kept ⊎ ((b : Statement) × (x ≡ inr b) × (n ≡ p))
unfolding sort_peer
sort_peer-kept (inl e) n rest p i = inl i
sort_peer-kept (inr b) n rest p (inl same) = inr (b, refl, same)
sort_peer-kept (inr b) n rest p (inr i) = inl i

behind_test :
    {A B : Type 0} (e : A) (o : A ⊎ B) (b : B) (t : Bool)
    → (if t then inl e else o) ≡ inr b
    → o ≡ inr b
behind_test e o b true h = absurd (ground arith)
behind_test e o b false h = h

module _ (crypto : Crypto) (codec : Codec) (signers : List PublicKey) where
  -- A signature over `raw` for the purpose `space` by one of the signers.
  abbrev pub IsSignedBy : Bytes → Bytes → Bytes → Type 0
  IsSignedBy space raw armored =
      (sig : Sshsig) × (parse_sshsig crypto armored ≡ some sig)
      × (sig.namespace ≡ space)
      × (verify_message crypto sig raw ≡ true)
      × (k : PublicKey) × IsIn k signers
      × (k.marshal ≡ sig.public_key.marshal)

  -- A node whose record an administrator has signed, and that the guard allows.
  abbrev pub IsTrusted : Option Guard → Node → Type 0
  IsTrusted g n =
      (b : Statement) × (parse_statement codec n.binding ≡ some b)
      × Agrees b n
      × Allows g b
      × IsSignedBy namespace n.binding n.signature

  verify-IsSignedBy :
      (space raw armored : Bytes)
      → verify crypto codec signers space raw armored ≡ none
      → IsSignedBy space raw armored
  unfolding verify check_sshsig
  verify-IsSignedBy space raw armored h =
      let (some_text, h0) = passed (length (trim_space armored) == 0) no_signature _ h in
      elim (Option-cases (parse_sshsig crypto armored)) [
        | inl bad ↦ absurd (ground arith)
        | inr (sig, parsed) ↦
            let checked : check_sshsig crypto codec signers space raw sig ≡ none = ground arith in
            let (purpose, h1) =
              passed (not (same_bytes sig.namespace space)) bad_signature _ checked in
            let (kind, h2) =
              passed (not (is_signer_type crypto sig.public_key)) bad_key_type _ h1 in
            let (known, h3) =
              passed (not (contains_key signers sig.public_key)) unknown_signer _ h2 in
            let (right, h4) = passed (not (verify_message crypto sig raw)) bad_signature _ h3 in
            let (k, i, same) = contains_key-IsIn signers sig.public_key (ground arith) in
            (
              sig,
              parsed,
              (same_bytes_iff sig.namespace space).0 (ground arith),
              ground arith,
              k,
              i,
              same,
            )
      ]

  verify_statement-IsTrusted :
      (g : Option Guard) (n : Node) (b c : Statement)
      → parse_statement codec n.binding ≡ some b
      → verify_statement crypto codec signers n b ≡ inr c
      → guarded g c ≡ none
      → IsTrusted g n
  unfolding verify_statement
  verify_statement-IsTrusted g n b c parsed h guard_ok =
      let (same_record, h1) = went_on (not (matches_node codec.texts b n)) _ _ c h in
      elim (Option-cases (verify crypto codec signers namespace n.binding n.signature)) [
        | inr (e, bad) ↦ absurd (ground arith)
        | inl signed ↦
            let same : b ≡ c = inr_same {A = Fault} b c (ground arith) in
            (
              b,
              parsed,
              matches_node-Agrees codec.texts b n (ground arith),
              guarded-Allows g b (subst (λ x. guarded g x ≡ none) (sym same) guard_ok),
              verify-IsSignedBy namespace n.binding n.signature signed,
            )
      ]

  verify_node-IsTrusted :
      (g : Option Guard) (n : Node) (c : Statement)
      → verify_node crypto codec signers n ≡ inr c
      → guarded g c ≡ none
      → IsTrusted g n
  unfolding verify_node
  verify_node-IsTrusted g n c h guard_ok =
      let (some_binding, h1) = went_on (length n.binding == 0) no_signature _ c h in
      elim (Option-cases (parse_statement codec n.binding)) [
        | inl bad ↦ absurd (ground arith)
        | inr (b, parsed) ↦ verify_statement-IsTrusted g n b c parsed (ground arith) guard_ok
      ]

  guard_statement-guarded :
      (g : Option Guard) (b c : Statement)
      → guard_statement crypto codec signers g b ≡ inr c
      → guarded g c ≡ none
  unfolding guard_statement
  guard_statement-guarded g b c h = elim (Option-cases (guarded g b)) [
    | inr (e, bad) ↦ absurd (ground arith)
    | inl ok ↦ subst (λ x. guarded g x ≡ none) (inr_same {A = Fault} b c (ground arith)) ok
  ]

  admit-IsTrusted :
      (g : Option Guard) (n : Node) (c : Statement)
      → admit crypto codec signers g n ≡ inr c
      → IsTrusted g n
  unfolding admit guard_statement
  admit-IsTrusted g n c h = elim (Sum-cases (verify_node crypto codec signers n)) [
    | inl (e, bad) ↦ absurd (ground arith)
    | inr (b, found) ↦ elim (Option-cases (guarded g b)) [
      | inr (e, bad) ↦ absurd (ground arith)
      | inl ok ↦ verify_node-IsTrusted g n b found ok
    ]
  ]

  sort_peers-IsTrusted :
      (g : Option Guard) (ns : List Node) (p : Node)
      → IsIn p (sort_peers crypto codec signers g ns).kept
      → IsIn p ns × IsTrusted g p
  unfolding sort_peers
  sort_peers-IsTrusted g [] p i = absurd i
  sort_peers-IsTrusted g (n ∷ ns) p i =
      elim (sort_peer-kept (admit crypto codec signers g n) n (sort_peers crypto codec signers g ns)
        p i) [
          | inl later ↦
              let (inside, trusted) = sort_peers-IsTrusted g ns p later in (inr inside, trusted)
          | inr (b, good, same) ↦ (inl same, subst (IsTrusted g) same (admit-IsTrusted g n b good))
        ]

  verify_records-peers :
      (s : Snapshot) (r : List Rejected × Option Guard) (out : Verified)
      → verify_records crypto codec signers s r ≡ inr out
      → out.snapshot.peers ≡ (sort_peers crypto codec signers r.1 s.peers).kept
  unfolding verify_records
  verify_records-peers s r out h = elim (Sum-cases (admit_self crypto codec signers r.1 s.self)) [
    | inl (e, bad) ↦ absurd (ground arith)
    | inr (own, good) ↦
        let made =
          inr_same {A = Fault × Option Guard}
            (verified crypto codec signers s r (sort_peers crypto codec signers r.1 s.peers) own)
            out (ground arith) in
        ap (λ x. x.snapshot.peers) (sym made)
  ]

  -- A peer that VerifySnapshot keeps is one of the snapshot's, and carries a binding that agrees
  -- with its record (the same ID, key, version, kind, address and hardware flag, the same sets of
  -- roles, tags and masked prefixes), and that one of the pinned admin keys has signed as a binding.
  -- With a guard, once it has taken the snapshot's revocations, the binding names the guard's
  -- network where both name one, is issued after any revocation of the node that the book holds,
  -- and not before the binding that the book holds.
  pub verify_snapshot-IsTrusted :
      (s : Snapshot) (g : Option Guard) (out : Verified) (p : Node)
      → verify_snapshot crypto codec signers s g ≡ inr out
      → IsIn p out.snapshot.peers
      → IsIn p s.peers × IsTrusted (after_revocations crypto codec signers g s.revocations).1 p
  unfolding verify_snapshot
  verify_snapshot-IsTrusted s g out p h i =
      let r = after_revocations crypto codec signers g s.revocations in
      let records : verify_records crypto codec signers s r ≡ inr out =
        behind_test _ _ out (length signers == 0) h in
      sort_peers-IsTrusted r.1 s.peers p
        (subst (λ ps. IsIn p ps) (verify_records-peers s r out records) i)
