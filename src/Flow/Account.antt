-- ===== src/Flow/Account.antt =====
-- The books of the table: references, shares of the peers, and the bytes of split ClientHellos.
pub mod Packets
pub mod Sweeps
pub mod Reach
use bound_gate_vpn.Prelude.{
  ℕ, suc, ◌+◌, ◌-◌, ◌≡◌, ◌≢◌, ◌≤◌, ◌<◌, refl, Bool, true, false, Option, none, some, arith, ltb,
  leb, ◌==◌, if◌then◌else◌, Bytes, bytes_eq, same_bytes, same_bytes_iff, List, [], ◌∷◌, length,
}
use bound_gate_vpn.Prelude.Assoc.{lookup}
use bound_gate_vpn.Flow.State.{
  Table, Timeouts, Entry, new_table, held, max_entries, max_local, max_per_peer, max_sni_bytes,
  Origin,
}
use bound_gate_vpn.Flow.Totals.{total, buffered, owned, Distinct, Below}

-- What one principal may hold; the node's own host stack is the empty principal.
abbrev pub quota : Bytes → ℕ
quota p = if length p == 0 then max_local else max_per_peer

-- The references of the table are distinct and allocated; the free bytes and the buffered ones are
-- the table's allowance; perPeer counts the flows of each principal, at most its quota; the table is
-- not larger than its bound.
pub record Account (t : Table) : Type 0 where
  pub below : Below t.next t.flows
  pub distinct : Distinct t.flows
  pub bytes : t.sni_free + total buffered t.heap t.flows ≡ max_sni_bytes
  pub peers : (p : Bytes) → held t.per_peer p ≡ total (owned p) t.heap t.flows
  pub fair : (p : Bytes) → held t.per_peer p ≤ quota p
  pub size : length t.flows ≤ max_entries

-- "Empty with Local": the host stack's packets have no principal, and all others have one.
abbrev pub IsOrigin : Origin → Type 0
IsOrigin o = (o.local ≡ true → o.principal ≡ []) × (o.local ≡ false → o.principal ≢ [])

pub new_table-Account : (t : Timeouts) (heap : ℕ → Entry) → Account (new_table t heap)
unfolding new_table total lookup
new_table-Account t heap = record {
  below = tt;
  distinct = tt;
  bytes = refl;
  peers = λ p. refl;
  fair = λ p. ground arith;
  size = omega arith;
}
