-- ===== src/Binding/Signers.antt =====
-- internal/binding/signerset.go: the chain of admin key lists.
use bound_gate_vpn.Prelude.{
  ℕ, zero, suc, ◌+◌, ◌%◌, ◌^◌, Bool, true, false, not, ◌&&◌, ◌||◌, Option, none, some, ltb, leb,
  ◌==◌, if◌then◌else◌, List, [], ◌∷◌, ◌++◌, length, all_of, is_some, Bytes, bytes_eq, same_bytes,
  inl, inr, ◌⊎◌,
}
use bound_gate_vpn.Prelude.Assoc.{lookup}
use bound_gate_vpn.Prelude.Text.{cut_at, text_less}
use bound_gate_vpn.Registry.{SignerLink}
use bound_gate_vpn.Binding.{PublicKey, SignerSet, Crypto}
use bound_gate_vpn.Binding.Sshsig.{Sshsig, parse_sshsig, verify_message}

abbrev pub signers_namespace : Bytes
signers_namespace =
    b'b' ∷ b'o' ∷ b'u' ∷ b'n' ∷ b'd' ∷ b'g' ∷ b'a' ∷ b't' ∷ b'e' ∷ b'-' ∷ b's' ∷ b'i' ∷ b'g' ∷ b'n'
    ∷ b'e' ∷ b'r' ∷ b's' ∷ []

abbrev pub signer_set_type : Bytes
signer_set_type =
    b'b' ∷ b'o' ∷ b'u' ∷ b'n' ∷ b'd' ∷ b'g' ∷ b'a' ∷ b't' ∷ b'e' ∷ b'-' ∷ b's' ∷ b'i' ∷ b'g' ∷ b'n'
    ∷ b'e' ∷ b'r' ∷ b'-' ∷ b's' ∷ b'e' ∷ b't' ∷ []

abbrev pub max_signers : ℕ
max_signers = 32

abbrev pub max_chain : ℕ
max_chain = 4096

-- Trust
pub record Trust : Type 0 where
  pub version : ℕ
  pub hash : Bytes
  pub keys : List Bytes
  pub genesis : Bytes

-- ErrSetForm, ErrSetSigner, ErrSetSignature, ErrSetSequence, ErrSetFork
pub data SetError : Type 0 where
  set_form set_signer set_signature set_sequence set_fork : SetError

abbrev pub is_hex_digit : ℕ → Bool
is_hex_digit c = leb b'0' c && leb c b'9' || leb b'a' c && leb c b'f'

-- The test of `prev`, and isHash: the hexadecimal text that 32 bytes are written as.
abbrev pub is_hash : Bytes → Bool
is_hash s = length s == 64 && all_of is_hex_digit s

-- strings.ContainsAny(s, " \t\r\n")
unfoldable pub has_blank : Bytes → Bool
has_blank [] = false
has_blank (c ∷ s) = c == b' ' || c == 9 || c == 13 || c == 10 || has_blank s

unfoldable pub is_one_of : Bytes → List Bytes → Bool
is_one_of s [] = false
is_one_of s (t ∷ ts) = same_bytes t s || is_one_of s ts

-- Pinned
abbrev pub is_pinned : Trust → Bool
is_pinned t = ltb 0 (length t.keys)

abbrev pub follows : Option Bytes → Bytes → Bool
follows none k = true
follows (some before) k = text_less before k

-- The genesis hash stays.
abbrev pub with_genesis : Trust → Trust → Trust
with_genesis run next =
    if length next.genesis == 0 then record next { genesis = run.genesis } else next

module _ (crypto : Crypto) where
  -- KeyString
  abbrev pub key_string : PublicKey → Bytes
  key_string k = k.key_type ++ (b' ' ∷ crypto.base64_encode k.marshal)

  -- CheckSignerType: true for no error
  abbrev pub is_signer_type : PublicKey → Bool
  is_signer_type k = is_one_of k.key_type crypto.allowed_key_types

  unfoldable pub checked_key : Bytes → Bytes → PublicKey → Option PublicKey
  checked_key s typ k =
      if same_bytes k.key_type typ && same_bytes (key_string k) s && is_signer_type k
      then some k
      else none

  unfoldable pub read_key : Bytes → Bytes → Bytes → Option PublicKey
  read_key s typ b64 = elim (crypto.base64_decode b64) [
    | none ↦ none
    | some raw ↦ elim (crypto.parse_public_key raw) [ none ↦ none | some k ↦ checked_key s typ k ]
  ]

  -- parseKeyString
  unfoldable pub parse_key_string : Bytes → Option PublicKey
  parse_key_string s = elim (cut_at b' ' s) [
    | none ↦ none
    | some (typ, b64) ↦ if has_blank b64 then none else read_key s typ b64
  ]

  -- The loop of Validate over the keys, with the key before.
  unfoldable pub keys_ok : Option Bytes → List Bytes → Bool
  keys_ok before [] = true
  keys_ok before (k ∷ ks) = is_some (parse_key_string k) && follows before k && keys_ok (some k) ks

  -- Validate: true for no error
  unfoldable pub is_valid_set : SignerSet → Bool
  is_valid_set s =
      same_bytes s.type signer_set_type
      && not (s.version == 0)
      && (if s.version == 1 then length s.prev == 0 else is_hash s.prev)
      && ltb 0 (length s.keys)
      && leb (length s.keys) max_signers
      && keys_ok none s.keys

  -- ParseSignerSet
  unfoldable pub checked_set : Bytes → SignerSet → SetError ⊎ SignerSet
  checked_set raw s =
      if is_valid_set s && same_bytes (crypto.encode_set s) raw then inr s else inl set_form

  unfoldable pub parse_signer_set : Bytes → SetError ⊎ SignerSet
  parse_signer_set raw = elim (crypto.decode_set raw) [
    | none ↦ inl set_form
    | some s ↦ checked_set raw s
  ]

  -- HashSet
  abbrev pub hash_set : Bytes → Bytes
  hash_set canonical = crypto.hex_sum canonical

  -- The trust that a link establishes.
  abbrev pub trust_of : SignerLink → SignerSet → Trust
  trust_of l set = record {
    version = set.version;
    hash = hash_set l.set;
    keys = set.keys;
    genesis = if set.version == 1 then hash_set l.set else [];
  }

  -- verifyLink behind the signature's parsing
  unfoldable pub check_signature : SignerLink → SignerSet → List Bytes → Sshsig → SetError ⊎ Trust
  check_signature l set allowed sig =
      if not (same_bytes sig.namespace signers_namespace)
      then inl set_signature
      else if not (is_signer_type sig.public_key)
      then inl set_signer
      else if not (is_one_of (key_string sig.public_key) allowed)
      then inl set_signer
      else if not (verify_message crypto sig l.set)
      then inl set_signature
      else inr (trust_of l set)

  -- verifyLink, of a link whose set is parsed
  unfoldable pub verify_link : SignerLink → SignerSet → List Bytes → SetError ⊎ Trust
  verify_link l set allowed = elim (parse_sshsig crypto l.signature) [
    | none ↦ inl set_signature
    | some sig ↦ check_signature l set allowed sig
  ]

  -- The keys that may sign a link, given the trust so far and the provisioned genesis hash.
  unfoldable pub allowed_keys : Trust → Bytes → SignerLink → SignerSet → SetError ⊎ List Bytes
  allowed_keys run genesis l set =
      if is_pinned run
      then if set.version == (run.version + 1) % 2 ^ 64 && same_bytes set.prev run.hash
        then inr run.keys
        else inl set_sequence
      else if not (set.version == 1)
      then inl set_sequence
      else if not (length genesis == 0) && not (same_bytes (hash_set l.set) genesis)
      then inl set_fork
      else inr set.keys

  -- The body of VerifyChain's second loop.
  unfoldable pub step : Trust → Bytes → SignerLink → SetError ⊎ Trust
  step run genesis l = elim (parse_signer_set l.set) [
    | inl e ↦ inl e
    | inr set ↦ elim (allowed_keys run genesis l set) [
      | inl e ↦ inl e
      | inr allowed ↦ elim (verify_link l set allowed) [
        | inl e ↦ inl e
        | inr next ↦ inr (with_genesis run next)
      ]
    ]
  ]

  unfoldable pub follow : Trust → Bytes → List SignerLink → SetError ⊎ Trust
  follow run genesis [] = inr run
  follow run genesis (l ∷ ls) = elim (step run genesis l) [
    | inl e ↦ inl e
    | inr next ↦ follow next genesis ls
  ]

  -- VerifyChain's first loop: the links behind the pinned set.
  unfoldable pub behind_pin : Trust → List SignerLink → SetError ⊎ List SignerLink
  behind_pin cur [] = inl set_fork
  behind_pin cur (l ∷ ls) =
      let rest = behind_pin cur ls in
      elim (parse_signer_set l.set) [
        | inl e ↦ inl e
        | inr set ↦
            if not (set.version == cur.version)
            then rest
            else if not (same_bytes (hash_set l.set) cur.hash)
            then inl set_fork
            else inr ls
      ]

  -- genesisOf: byHash, and the walk back over `fuel` sets
  unfoldable pub sets_by_hash :
      List (Bytes × SignerSet) → List SignerLink → List (Bytes × SignerSet)
  sets_by_hash sets [] = sets
  sets_by_hash sets (l ∷ ls) = elim (parse_signer_set l.set) [
    | inl e ↦ sets_by_hash sets ls
    | inr set ↦ sets_by_hash ((hash_set l.set, set) ∷ sets) ls
  ]

  unfoldable pub walk_back : ℕ → Bytes → List (Bytes × SignerSet) → Bytes
  walk_back zero h sets = []
  walk_back (suc fuel) h sets = elim (lookup h sets) [
    | none ↦ []
    | some set ↦ if set.version == 1 then h else walk_back fuel set.prev sets
  ]

  abbrev pub genesis_of : Trust → List SignerLink → Bytes
  genesis_of t chain = walk_back (length chain + 1) t.hash (sets_by_hash [] chain)

  -- The end of VerifyChain.
  abbrev pub find_genesis : List SignerLink → Trust → Trust
  find_genesis chain run =
      if length run.genesis == 0 then record run { genesis = genesis_of run chain } else run

  unfoldable pub finish_chain : List SignerLink → SetError ⊎ Trust → SetError ⊎ Trust
  finish_chain chain (inl e) = inl e
  finish_chain chain (inr run) = inr (find_genesis chain run)

  -- VerifyChain; the error leaves the trust as it was.
  unfoldable pub verify_chain : Trust → List SignerLink → Bytes → SetError ⊎ Trust
  verify_chain cur chain genesis =
      if length chain == 0
      then inr cur
      else if ltb max_chain (length chain)
      then inl set_form
      else if is_pinned cur
      then elim (behind_pin cur chain) [
        | inl e ↦ inl e
        | inr rest ↦ finish_chain chain (follow cur genesis rest)
      ]
      else finish_chain chain (follow cur genesis chain)
