-- ===== src/Binding.antt =====
-- internal/binding: what administrators sign, and how a node verifies it. golang.org/x/crypto/ssh, the
-- hashes and encoding/json are parameters.
pub mod Sshsig
pub mod Signers
pub mod Chain
pub mod Statements
pub mod Nodes
pub mod Sets
pub mod Agrees
pub mod Trusted
use bound_gate_vpn.Prelude.{ℕ, Bool, Option, List, Bytes}

-- ssh.PublicKey, by its Type and its Marshal
pub record PublicKey : Type 0 where
  pub key_type : Bytes
  pub marshal : Bytes

-- ssh.Signature
pub record Signature : Type 0 where
  pub format : Bytes
  pub blob : Bytes
  pub rest : Bytes

-- sshsigBlob
pub record Blob : Type 0 where
  pub version : ℕ
  pub public_key : Bytes
  pub namespace : Bytes
  pub reserved : Bytes
  pub hash_alg : Bytes
  pub signature : Bytes

-- SignerSet
pub record SignerSet : Type 0 where
  pub type : Bytes
  pub version : ℕ
  pub prev : Bytes
  pub keys : List Bytes

-- Base64; ssh.ParsePublicKey, Unmarshal, Marshal (of sshsigSignedData) and Verify, and the key types
-- that the source allows; SHA-256 and SHA-512 by their names; HashSet's hexadecimal SHA-256; and
-- encoding/json of a signer set: the one value without unknown fields, and its text without escapes
-- and line end.
pub record Crypto : Type 0 where
  pub base64_encode : Bytes → Bytes
  pub base64_decode : Bytes → Option Bytes
  pub parse_public_key : Bytes → Option PublicKey
  pub unmarshal_blob : Bytes → Option Blob
  pub unmarshal_signature : Bytes → Option Signature
  pub marshal_signed : Bytes → Bytes → Bytes → Bytes
  pub sum : Bytes → Bytes → Bytes
  pub hex_sum : Bytes → Bytes
  pub verify_key : PublicKey → Bytes → Signature → Bool
  pub allowed_key_types : List Bytes
  pub decode_set : Bytes → Option SignerSet
  pub encode_set : SignerSet → Bytes
