-- ===== src/Binding/Nodes.antt =====
-- internal/binding: Verify, VerifyNode, VerifyRevocation and VerifySnapshot, with the node's book
-- (internal/anchors) as the guard.
use bound_gate_vpn.Prelude.{
  Bool, false, not, ◌&&◌, ◌||◌, Option, none, some, ◌==◌, if◌then◌else◌, List, [], ◌∷◌, ◌++◌,
  length, Bytes, bytes_eq, same_bytes, inl, inr, ◌⊎◌,
}
use bound_gate_vpn.Prelude.Text.{trim_space}
use bound_gate_vpn.Registry.{Node, Snapshot, SignedRevocation}
use bound_gate_vpn.Binding.{PublicKey, Crypto}
use bound_gate_vpn.Binding.Sshsig.{Sshsig, parse_sshsig, verify_message}
use bound_gate_vpn.Binding.Signers.{is_signer_type}
use bound_gate_vpn.Binding.Statements.{
  Statement, Revocation, Codec, parse_statement, parse_revocation, matches_node,
}
use bound_gate_vpn.Anchors.{Book, Refusal, check, saw, revoke}

-- Namespace and RevocationNamespace
abbrev pub namespace : Bytes
namespace =
    (b'b' ∷ b'o' ∷ b'u' ∷ b'n' ∷ b'd' ∷ b'g' ∷ b'a' ∷ b't' ∷ b'e' ∷ b'-' ∷ b'b' ∷ b'i' ∷ b'n' ∷ b'd'
      ∷ b'i' ∷ b'n' ∷ b'g' ∷ [])

abbrev pub revocation_namespace : Bytes
revocation_namespace =
    (b'b' ∷ b'o' ∷ b'u' ∷ b'n' ∷ b'd' ∷ b'g' ∷ b'a' ∷ b't' ∷ b'e' ∷ b'-' ∷ b'r' ∷ b'e' ∷ b'v' ∷ b'o'
      ∷ b'c' ∷ b'a' ∷ b't' ∷ b'i' ∷ b'o' ∷ b'n' ∷ [])

-- The errors of verification.
pub data Fault : Type 0 where
  no_signature unknown_signer bad_signature other_deployment no_signers : Fault
  bad_form other_record bad_armor bad_key_type : Fault
  refused : Refusal → Fault

-- Guard, as the node's history implements it
pub record Guard : Type 0 where
  pub deployment : Bytes
  pub book : Book

-- Rejected; a revocation's name is `none`
pub record Rejected : Type 0 where
  pub id : Bytes
  pub name : Option Bytes
  pub err : Fault

-- Signers.Contains
unfoldable pub contains_key : List PublicKey → PublicKey → Bool
contains_key [] k = false
contains_key (s ∷ ss) k = same_bytes s.marshal k.marshal || contains_key ss k

-- The test of the network, of guarded and VerifyRevocation
abbrev pub is_other : Bytes → Bytes → Bool
is_other dep named = not (length dep == 0) && not (length named == 0) && not (same_bytes named dep)

-- guarded; `none` for no error
unfoldable pub guarded : Option Guard → Statement → Option Fault
guarded none b = none
guarded (some g) b =
    if is_other g.deployment b.deployment
    then some other_deployment
    else elim (check b.node_id b.issued g.book) [ none ↦ none | some e ↦ some (refused e) ]

abbrev pub guard_saw : Statement → Guard → Guard
guard_saw b g = record g { book = (saw b.node_id b.issued g.book).0 }

abbrev pub guard_revoke : Revocation → Guard → Guard
guard_revoke r g = record g { book = (revoke r.node_id r.issued g.book).0 }

-- The loop that records what was seen.
unfoldable pub see_all : List Statement → Guard → Guard
see_all [] g = g
see_all (b ∷ bs) g = see_all bs (guard_saw b g)

-- A peer that was looked at: kept, with what was signed for it, or rejected.
pub record Sorted : Type 0 where
  pub kept : List Node
  pub seen : List Statement
  pub rejected : List Rejected

-- The body of the loop over the peers, in front of the rest.
unfoldable pub sort_peer : Fault ⊎ Statement → Node → Sorted → Sorted
sort_peer (inl e) n rest = record rest {
  rejected = record { id = n.id; name = some n.name; err = e } ∷ rest.rejected;
}
sort_peer (inr b) n rest = record rest { kept = n ∷ rest.kept; seen = b ∷ rest.seen }

-- What VerifySnapshot leaves.
pub record Verified : Type 0 where
  pub rejected : List Rejected
  pub snapshot : Snapshot
  pub guard : Option Guard

module _ (crypto : Crypto) (codec : Codec) (signers : List PublicKey) where
  -- Verify behind the parsing, for a namespace; `none` for no error
  unfoldable pub check_sshsig : Bytes → Bytes → Sshsig → Option Fault
  check_sshsig space raw sig =
      if not (same_bytes sig.namespace space)
      then some bad_signature
      else if not (is_signer_type crypto sig.public_key)
      then some bad_key_type
      else if not (contains_key signers sig.public_key)
      then some unknown_signer
      else if not (verify_message crypto sig raw)
      then some bad_signature
      else none

  -- Verify, and its part of VerifyRevocation
  unfoldable pub verify : Bytes → Bytes → Bytes → Option Fault
  verify space raw armored =
      if length (trim_space armored) == 0
      then some no_signature
      else elim (parse_sshsig crypto armored) [
        | none ↦ some bad_armor
        | some sig ↦ check_sshsig space raw sig
      ]

  unfoldable pub verify_statement : Node → Statement → Fault ⊎ Statement
  verify_statement n b =
      if not (matches_node codec.texts b n)
      then inl other_record
      else elim (verify namespace n.binding n.signature) [ some e ↦ inl e | none ↦ inr b ]

  -- verifyNode
  unfoldable pub verify_node : Node → Fault ⊎ Statement
  verify_node n =
      if length n.binding == 0 then inl no_signature else elim (parse_statement codec n.binding) [
        | none ↦ inl bad_form
        | some b ↦ verify_statement n b
      ]

  unfoldable pub guard_statement : Option Guard → Statement → Fault ⊎ Statement
  guard_statement g b = elim (guarded g b) [ some e ↦ inl e | none ↦ inr b ]

  -- verifyNode and guarded, as VerifySnapshot calls them
  unfoldable pub admit : Option Guard → Node → Fault ⊎ Statement
  admit g n = elim (verify_node n) [ inl e ↦ inl e | inr b ↦ guard_statement g b ]

  -- VerifyRevocation, with the node that it is about
  unfoldable pub check_revocation : Guard → SignedRevocation → Revocation → (Bytes × Fault) ⊎ Guard
  check_revocation g sr r = elim (verify revocation_namespace sr.revocation sr.signature) [
    | some e ↦ inl (r.node_id, e)
    | none ↦
        if is_other g.deployment r.deployment
        then inl (r.node_id, other_deployment)
        else inr (guard_revoke r g)
  ]

  unfoldable pub verify_revocation : Guard → SignedRevocation → (Bytes × Fault) ⊎ Guard
  verify_revocation g sr = elim (parse_revocation codec sr.revocation) [
    | none ↦ inl ([], bad_form)
    | some r ↦ check_revocation g sr r
  ]

  unfoldable pub revoke_all : List SignedRevocation → Guard → List Rejected × Guard
  revoke_all [] g = ([], g)
  revoke_all (sr ∷ srs) g = elim (verify_revocation g sr) [
    | inr h ↦ revoke_all srs h
    | inl (id, e) ↦
        let rest = revoke_all srs g in (record { id = id; name = none; err = e } ∷ rest.0, rest.1)
  ]

  -- The loop over the peers.
  unfoldable pub sort_peers : Option Guard → List Node → Sorted
  sort_peers g [] = record { kept = []; seen = []; rejected = [] }
  sort_peers g (n ∷ ns) = sort_peer (admit g n) n (sort_peers g ns)

  -- The revocations, first; without a guard they are not looked at.
  abbrev pub after_revocations : Option Guard → List SignedRevocation → List Rejected × Option Guard
  after_revocations none srs = ([], none)
  after_revocations (some g) srs = let r = revoke_all srs g in (r.0, some r.1)

  -- The node's own record, when there is one.
  unfoldable pub admit_self : Option Guard → Node → Fault ⊎ List Statement
  admit_self g n =
      if length n.id == 0 then inr [] else elim (admit g n) [ inl e ↦ inl e | inr b ↦ inr (b ∷ []) ]

  abbrev pub end_guard : Option Guard → List Statement → Option Guard
  end_guard none bs = none
  end_guard (some g) bs = some (see_all bs g)

  -- What VerifySnapshot leaves, with what was signed for the node itself.
  abbrev pub verified : Snapshot → List Rejected × Option Guard → Sorted → List Statement → Verified
  verified s r sorted own = record {
    rejected = r.0 ++ sorted.rejected;
    snapshot = record s { peers = sorted.kept };
    guard = end_guard r.1 (own ++ sorted.seen);
  }

  -- VerifySnapshot behind the revocations
  unfoldable pub verify_records :
      Snapshot → List Rejected × Option Guard → (Fault × Option Guard) ⊎ Verified
  verify_records s r = elim (admit_self r.1 s.self) [
    | inl e ↦ inl (e, r.1)
    | inr own ↦ inr (verified s r (sort_peers r.1 s.peers) own)
  ]

  -- VerifySnapshot; an error leaves the guard with the revocations.
  unfoldable pub verify_snapshot : Snapshot → Option Guard → (Fault × Option Guard) ⊎ Verified
  verify_snapshot s g =
      if length signers == 0
      then inl (no_signers, g)
      else verify_records s (after_revocations g s.revocations)
