-- ===== src/Dnsmap.antt =====
-- internal/node/dnsmap/dnsmap.go: the names that each peer resolved, by address. Times are
-- nanoseconds; `scanned` is `none` for the zero time, which is longer ago than any scan interval.
-- Go walks the map in no fixed order; here the walk follows the list.
pub mod Few
pub mod Bounds
pub mod Peers
use bound_gate_vpn.Prelude.{
  ℕ, suc, ◌+◌, ◌*◌, ◌/◌, ◌%◌, ◌^◌, min, max, ◌≡◌, ◌↔◌, Bool, true, false, not, ◌&&◌, ◌||◌, Option,
  none, some, ltb, leb, ◌==◌, if◌then◌else◌, Eq, ◌=?◌, List, [], ◌∷◌, ◌++◌, length, drop, Bytes,
  bytes_eq, same_bytes, same_bytes_iff, arith,
}
use bound_gate_vpn.Prelude.Assoc.{lookup, insert, remove}
use bound_gate_vpn.Netip.{Addr, same_addr, same_addr_iff, unmap}
use bound_gate_vpn.Flow.State.{second, held}
use bound_gate_vpn.Flow.Sweep.{less_one}

-- key
pub record Key : Type 0 where
  pub peer : Bytes
  pub addr : Addr

abbrev pub same_key : Key → Key → Bool
same_key k l = same_bytes k.peer l.peer && same_addr k.addr l.addr

pub same_key_iff : (k l : Key) → (same_key k l ≡ true) ↔ (k ≡ l)
same_key_iff k l = ground (arith, same_bytes_iff k.peer l.peer, same_addr_iff k.addr l.addr)

instance abbrev pub name_key_eq : Eq Key
name_key_eq = record { beq = same_key; beq_iff = same_key_iff }

abbrev pub min_ttl : ℕ
min_ttl = 60 * second

abbrev pub max_ttl : ℕ
max_ttl = 3600 * second

abbrev pub grace : ℕ
grace = 300 * second

abbrev pub max_names : ℕ
max_names = 8

abbrev pub full_scan : ℕ
full_scan = 5 * second

-- entry
pub record NameEntry : Type 0 where
  pub name : Bytes
  pub until : ℕ

-- Map, without its lock
pub record NameMap : Type 0 where
  pub limit : ℕ
  pub per_peer : ℕ
  pub m : List (Key × List NameEntry)
  pub count : List (Bytes × ℕ)
  pub scanned : Option ℕ
  pub dropped : ℕ

-- New; a limit that is not positive is 0.
unfoldable pub new_map : ℕ → NameMap
new_map limit =
    let n = if limit == 0 then 4096 else limit in
    record { limit = n; per_peer = max (n / 8) 64; m = []; count = []; scanned = none; dropped = 0 }

-- The entries that have not run out.
unfoldable pub live : ℕ → List NameEntry → List NameEntry
live now [] = []
live now (e ∷ es) = let rest = live now es in if ltb now e.until then e ∷ rest else rest

abbrev pub is_empty : List NameEntry → Bool
is_empty [] = true
is_empty (e ∷ es) = false

-- The walk of expireLocked
unfoldable pub live_map : ℕ → List (Key × List NameEntry) → List (Key × List NameEntry)
live_map now [] = []
live_map now ((k, es) ∷ m) =
    let rest = live_map now m in if is_empty (live now es) then rest else (k, live now es) ∷ rest

unfoldable pub live_count : ℕ → List (Key × List NameEntry) → List (Bytes × ℕ) → List (Bytes × ℕ)
live_count now [] count = count
live_count now ((k, es) ∷ m) count =
    live_count now m (if is_empty (live now es) then less_one count k.peer else count)

-- expireLocked and Expire
unfoldable pub expire : ℕ → NameMap → NameMap
expire now t = record t { m = live_map now t.m; count = live_count now t.m t.count }

abbrev pub is_full : NameMap → Bytes → Bool
is_full t peer = leb t.limit (length t.m) || leb t.per_peer (held t.count peer)

-- now.Sub(m.scanned) >= fullScan
abbrev pub is_due : Option ℕ → ℕ → Bool
is_due none now = true
is_due (some s) now = leb (s + full_scan) now

-- The loop over the names of an address: one entry gets the new time.
unfoldable pub renew : Bytes → ℕ → List NameEntry → Option (List NameEntry)
renew name until [] = none
renew name until (e ∷ es) =
    let rest = renew name until es in
    if same_bytes e.name name
    then some (record e { until = until } ∷ es)
    else elim rest [ none ↦ none | some fs ↦ some (e ∷ fs) ]

-- The names of an address with one more: the oldest gives way.
unfoldable pub learn_name : Bytes → ℕ → List NameEntry → List NameEntry
learn_name name until es = elim (renew name until es) [
  | some fs ↦ fs
  | none ↦
      (if leb max_names (length es) then drop 1 es else es)
      ++ record { name = name; until = until } ∷ []
]

abbrev pub entries_of : Option (List NameEntry) → List NameEntry
entries_of none = []
entries_of (some es) = es

-- Learn's loop body behind the room check
unfoldable pub store : Key → Bytes → ℕ → NameMap → NameMap
store k name until t = elim (lookup k t.m) [
  | none ↦ record t {
    count = insert k.peer (held t.count k.peer + 1) t.count;
    m = insert k (learn_name name until []) t.m;
  }
  | some es ↦ record t { m = insert k (learn_name name until es) t.m }
]

-- Learn's scan, while the map is full
unfoldable pub make_room : ℕ → NameMap → NameMap
make_room now t = if is_due t.scanned now then expire now (record t { scanned = some now }) else t

abbrev pub is_known : Option (List NameEntry) → Bool
is_known none = false
is_known (some es) = true

-- Learn's loop body
unfoldable pub learn_addr : Key → Bytes → ℕ → ℕ → NameMap → NameMap
learn_addr k name until now t =
    if is_known (lookup k t.m) || not (is_full t k.peer)
    then store k name until t
    else (let t' = make_room now t in
        if not (is_known (lookup k t'.m)) && is_full t' k.peer
        then record t' { dropped = (t'.dropped + 1) % 2 ^ 64 }
        else store k name until t')

unfoldable pub learn_addrs : Bytes → Bytes → List Addr → ℕ → ℕ → NameMap → NameMap
learn_addrs peer name [] until now t = t
learn_addrs peer name (a ∷ addrs) until now t =
    learn_addrs peer name addrs until now
      (learn_addr (record { peer = peer; addr = unmap a }) name until now t)

-- Learn
unfoldable pub learn : Bytes → Bytes → List Addr → ℕ → ℕ → NameMap → NameMap
learn peer name addrs ttl now t =
    let until = now + (min (max ttl min_ttl) max_ttl + grace) in
    if length peer == 0 || length name == 0 then t else learn_addrs peer name addrs until now t

unfoldable pub names_of : List NameEntry → List Bytes
names_of [] = []
names_of (e ∷ es) = e.name ∷ names_of es

-- Names
unfoldable pub names : Bytes → Addr → ℕ → NameMap → List Bytes
names peer addr now t =
    if length peer == 0
    then []
    else names_of (live now (entries_of (lookup (record { peer = peer; addr = unmap addr }) t.m)))
