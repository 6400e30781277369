-- ===== src/Binding/Sshsig.antt =====
-- internal/binding/sshsig.go: reading and verifying an armored signature. Errors are `none` and false.
use bound_gate_vpn.Prelude.{
  ℕ, Bool, not, ◌&&◌, ◌||◌, Option, none, some, ◌==◌, if◌then◌else◌, [], ◌∷◌, ◌++◌, length, Bytes,
  same_bytes,
}
use bound_gate_vpn.Prelude.Text.{
  trim_space, has_prefix, has_suffix, cut_prefix, trim_suffix, is_space,
}
use bound_gate_vpn.Binding.{PublicKey, Signature, Blob, Crypto}

-- SSHSIG
pub record Sshsig : Type 0 where
  pub public_key : PublicKey
  pub namespace : Bytes
  pub hash_alg : Bytes
  pub signature : Signature

abbrev pub sshsig_magic : Bytes
sshsig_magic = b'S' ∷ b'S' ∷ b'H' ∷ b'S' ∷ b'I' ∷ b'G' ∷ []

abbrev pub sshsig_version : ℕ
sshsig_version = 1

abbrev pub armor_begin : Bytes
armor_begin =
    b'-' ∷ b'-' ∷ b'-' ∷ b'-' ∷ b'-' ∷ b'B' ∷ b'E' ∷ b'G' ∷ b'I' ∷ b'N' ∷ b' ' ∷ b'S' ∷ b'S' ∷ b'H'
    ∷ b' ' ∷ b'S' ∷ b'I' ∷ b'G' ∷ b'N' ∷ b'A' ∷ b'T' ∷ b'U' ∷ b'R' ∷ b'E' ∷ b'-' ∷ b'-' ∷ b'-'
    ∷ b'-' ∷ b'-' ∷ []

abbrev pub armor_end : Bytes
armor_end =
    b'-' ∷ b'-' ∷ b'-' ∷ b'-' ∷ b'-' ∷ b'E' ∷ b'N' ∷ b'D' ∷ b' ' ∷ b'S' ∷ b'S' ∷ b'H' ∷ b' ' ∷ b'S'
    ∷ b'I' ∷ b'G' ∷ b'N' ∷ b'A' ∷ b'T' ∷ b'U' ∷ b'R' ∷ b'E' ∷ b'-' ∷ b'-' ∷ b'-' ∷ b'-' ∷ b'-' ∷ []

-- hashFor: true for a hash that there is
unfoldable pub is_hash_alg : Bytes → Bool
is_hash_alg alg =
    same_bytes alg (b's' ∷ b'h' ∷ b'a' ∷ b'2' ∷ b'5' ∷ b'6' ∷ [])
    || same_bytes alg (b's' ∷ b'h' ∷ b'a' ∷ b'5' ∷ b'1' ∷ b'2' ∷ [])

-- strings.Join(strings.Fields(s), "")
unfoldable pub without_space : Bytes → Bytes
without_space [] = []
without_space (c ∷ s) = let rest = without_space s in if is_space c then rest else c ∷ rest

-- strings.TrimPrefix
abbrev pub trim_prefix : Bytes → Bytes → Bytes
trim_prefix s p = elim (cut_prefix p s) [ none ↦ s | some rest ↦ rest ]

-- algorithmMatches
abbrev pub algorithm_matches : Bytes → Bytes → Bool
algorithm_matches key_type sig_format = same_bytes key_type sig_format

unfoldable pub checked_signature : Signature → Option Signature
checked_signature w = if length w.format == 0 || length w.blob == 0 then none else some w

module _ (crypto : Crypto) where
  -- parseSignature
  unfoldable pub parse_signature : Bytes → Option Signature
  parse_signature raw = elim (crypto.unmarshal_signature raw) [
    | none ↦ none
    | some w ↦ checked_signature w
  ]

  -- ParseSSHSIG behind the blob's own checks
  unfoldable pub read_keys : Blob → Option Sshsig
  read_keys blob = elim (crypto.parse_public_key blob.public_key) [
    | none ↦ none
    | some pub_key ↦ elim (parse_signature blob.signature) [
      | none ↦ none
      | some sig ↦ some (record {
        public_key = pub_key;
        namespace = blob.namespace;
        hash_alg = blob.hash_alg;
        signature = sig;
      })
    ]
  ]

  unfoldable pub read_blob : Blob → Option Sshsig
  read_blob blob =
      if not (blob.version == sshsig_version)
        || not (length blob.reserved == 0)
        || not (is_hash_alg blob.hash_alg)
      then none
      else read_keys blob

  unfoldable pub read_raw : Bytes → Option Sshsig
  read_raw raw = elim (cut_prefix sshsig_magic raw) [
    | none ↦ none
    | some body ↦ elim (crypto.unmarshal_blob body) [ none ↦ none | some blob ↦ read_blob blob ]
  ]

  -- ParseSSHSIG
  unfoldable pub parse_sshsig : Bytes → Option Sshsig
  parse_sshsig armored =
      let text = trim_space armored in
      if not (has_prefix armor_begin text) || not (has_suffix text armor_end)
      then none
      else elim (crypto.base64_decode
          (without_space (trim_suffix (trim_prefix text armor_begin) armor_end))) [
            | none ↦ none
            | some raw ↦ read_raw raw
          ]

  -- signedData, of a hash that there is
  abbrev pub signed_data : Bytes → Bytes → Bytes → Bytes
  signed_data namespace hash_alg message =
      sshsig_magic ++ crypto.marshal_signed namespace hash_alg (crypto.sum hash_alg message)

  -- Verify
  unfoldable pub verify_message : Sshsig → Bytes → Bool
  verify_message s message =
      is_hash_alg s.hash_alg
      && algorithm_matches s.public_key.key_type s.signature.format
      && crypto.verify_key s.public_key (signed_data s.namespace s.hash_alg message) s.signature
