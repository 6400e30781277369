-- ===== src/Anchors.antt =====
-- internal/anchors/anchors.go: the book of the newest binding and the newest revocation of each node.
-- Times are seconds, and those of statements that verified are not negative.
pub mod Revoked
use bound_gate_vpn.Prelude.{
  ℕ, zero, suc, ◌+◌, Bool, true, false, not, ◌&&◌, ◌||◌, Option, none, some, ltb, leb, ◌==◌,
  if◌then◌else◌, List, [], ◌∷◌, length, Bytes, bytes_eq, is_some,
}
use bound_gate_vpn.Prelude.Assoc.{lookup, insert, remove}

-- Entry
pub record Entry : Type 0 where
  pub issued : ℕ
  pub revoked : ℕ

-- Book
abbrev pub Book : Type 0
Book = List (Bytes × Entry)

-- MaxHistory
abbrev pub max_history : ℕ
max_history = 20_000

-- ErrRevoked and ErrRolledBack
pub data Refusal : Type 0 where
  revoked_after rolled_back : Refusal

abbrev pub no_entry : Entry
no_entry = record { issued = 0; revoked = 0 }

-- b[id]
abbrev pub entry_or_zero : Option Entry → Entry
entry_or_zero none = no_entry
entry_or_zero (some e) = e

abbrev pub entry_of : Bytes → Book → Entry
entry_of id b = entry_or_zero (lookup id b)

-- Check
unfoldable pub check : Bytes → ℕ → Book → Option Refusal
check id issued b =
    let e = entry_of id b in
    if not (e.revoked == 0) && leb issued e.revoked
    then some revoked_after
    else if ltb issued e.issued
    then some rolled_back
    else none

-- The loop of `set`: the oldest entry without a revocation so far. IDs are not empty.
unfoldable pub older : Option (Bytes × Entry) → Bytes × Entry → Option (Bytes × Entry)
older none x = if x.1.revoked == 0 then some x else none
older (some o) x = if x.1.revoked == 0 && ltb x.1.issued o.1.issued then some x else some o

unfoldable pub find_oldest : Option (Bytes × Entry) → Book → Option (Bytes × Entry)
find_oldest oldest [] = oldest
find_oldest oldest (x ∷ b) = find_oldest (older oldest x) b

abbrev pub without : Option (Bytes × Entry) → Book → Book
without none b = b
without (some o) b = remove o.0 b

-- set
unfoldable pub set : Bytes → Entry → Book → Book
set id e b = insert id e (
    if not (is_some (lookup id b)) && leb max_history (length b)
    then without (find_oldest none b) b
    else b)

-- Saw and Revoke, each with whether it was news
unfoldable pub saw : Bytes → ℕ → Book → Book × Bool
saw id issued b =
    let e = entry_of id b in
    if leb issued e.issued then (b, false) else (set id (record e { issued = issued }) b, true)

unfoldable pub revoke : Bytes → ℕ → Book → Book × Bool
revoke id issued b =
    let e = entry_of id b in
    if leb issued e.revoked then (b, false) else (set id (record e { revoked = issued }) b, true)
