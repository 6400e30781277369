-- ===== src/Flow/Totals.antt =====
-- Sums over the flows of a table.
use bound_gate_vpn.Prelude.{
  ℕ, suc, ◌+◌, ◌≡◌, ◌≢◌, ◌<◌, refl, none, some, arith, if◌then◌else◌, Bytes, bytes_eq, same_bytes,
  List, [], ◌∷◌, length,
}
use bound_gate_vpn.Prelude.Assoc.{lookup, insert, remove, lookup-insert, lookup-remove}
use bound_gate_vpn.Flow.State.{Entry, Key, key_eq, update, held}

abbrev pub Flows : Type 0
Flows = List (Key × ℕ)

unfoldable pub total : (Entry → ℕ) → (ℕ → Entry) → Flows → ℕ
total w heap [] = 0
total w heap ((k, r) ∷ flows) = w (heap r) + total w heap flows

-- The bytes that a flow buffers, and one for each flow of a principal.
abbrev pub buffered : Entry → ℕ
buffered e = length e.sni_buf

abbrev pub owned : Bytes → Entry → ℕ
owned p e = if same_bytes e.origin.principal p then 1 else 0

abbrev pub Absent : ℕ → Flows → Type 0
Absent r [] = Unit
Absent r ((k, s) ∷ flows) = (s ≢ r) × Absent r flows

-- No reference twice, and every one below n.
abbrev pub Distinct : Flows → Type 0
Distinct [] = Unit
Distinct ((k, r) ∷ flows) = Absent r flows × Distinct flows

abbrev pub Below : ℕ → Flows → Type 0
Below n [] = Unit
Below n ((k, r) ∷ flows) = (r < n) × Below n flows

pub Below-Absent : (n : ℕ) (flows : Flows) → Below n flows → Absent n flows
Below-Absent n [] h = tt
Below-Absent n ((k, r) ∷ flows) h = (omega arith, Below-Absent n flows h.1)

Below-suc : (n : ℕ) (flows : Flows) → Below n flows → Below (suc n) flows
Below-suc n [] h = tt
Below-suc n ((k, r) ∷ flows) h = (omega arith, Below-suc n flows h.1)

pub Below-insert :
    (n : ℕ) (k : Key) (flows : Flows) → Below n flows → Below (suc n) (insert k n flows)
unfolding insert
Below-insert n k [] h = (omega arith, tt)
Below-insert n k ((j, r) ∷ flows) h = ground (arith, Below-insert n k flows, Below-suc n flows)

Absent-insert :
    (s n : ℕ) (k : Key) (flows : Flows) → n ≢ s → Absent s flows → Absent s (insert k n flows)
unfolding insert
Absent-insert s n k [] ne h = (ne, tt)
Absent-insert s n k ((j, r) ∷ flows) ne h = ground (arith, Absent-insert s n k flows)

pub Distinct-insert :
    (n : ℕ) (k : Key) (flows : Flows) → Below n flows → Distinct flows → Distinct (insert k n flows)
unfolding insert
Distinct-insert n k [] b d = (tt, tt)
Distinct-insert n k ((j, r) ∷ flows) b d =
    ground (arith, Distinct-insert n k flows, Absent-insert r n k flows, Below-Absent n flows)

module _ (w : Entry → ℕ) (heap : ℕ → Entry) (r : ℕ) (e : Entry) where
  pub total-update-Absent :
      (flows : Flows) → Absent r flows → total w (update heap r e) flows ≡ total w heap flows
  unfolding total update
  total-update-Absent [] h = refl
  total-update-Absent ((k, s) ∷ flows) h = ground (arith, total-update-Absent flows)

  pub total-update_same :
      (flows : Flows) → w e ≡ w (heap r) → total w (update heap r e) flows ≡ total w heap flows
  unfolding total update
  total-update_same [] h = refl
  total-update_same ((k, s) ∷ flows) h = ground (arith, total-update_same flows)

  pub total-update_held :
      (k : Key) (flows : Flows)
      → lookup k flows ≡ some r
      → Distinct flows
      → total w (update heap r e) flows + w (heap r) ≡ total w heap flows + w e
  unfolding lookup total update
  total-update_held k [] h d = absurd (ground arith)
  total-update_held k ((j, s) ∷ flows) h d =
      ground (arith, total-update_held k flows, total-update-Absent flows)

pub total-insert :
    (w : Entry → ℕ) (heap : ℕ → Entry) (k : Key) (r : ℕ) (flows : Flows)
    → lookup k flows ≡ none
    → total w heap (insert k r flows) ≡ total w heap flows + w (heap r)
unfolding total insert lookup
total-insert w heap k r [] h = omega arith
total-insert w heap k r ((j, s) ∷ flows) h = ground (arith, total-insert w heap k r flows)

-- A flow that opens at a fresh reference.
pub total-open :
    (w : Entry → ℕ) (heap : ℕ → Entry) (k : Key) (r : ℕ) (e : Entry) (flows : Flows)
    → lookup k flows ≡ none
    → Absent r flows
    → total w (update heap r e) (insert k r flows) ≡ total w heap flows + w e
unfolding update
total-open w heap k r e flows free fresh = ground (
  arith,
  total-insert w (update heap r e) k r flows free,
  total-update-Absent w heap r e flows fresh,
)

pub held-insert :
    (m : List (Bytes × ℕ)) (p q : Bytes) (n : ℕ)
    → held (insert p n m) q ≡ (if same_bytes p q then n else held m q)
held-insert m p q n = ground (arith, lookup-insert p q n m)

pub held-remove :
    (m : List (Bytes × ℕ)) (p q : Bytes)
    → held (remove p m) q ≡ (if same_bytes p q then 0 else held m q)
held-remove m p q = ground (arith, lookup-remove p q m)
