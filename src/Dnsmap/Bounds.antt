-- ===== src/Dnsmap/Bounds.antt =====
-- The bounds of the map: its size, the share of each peer, and the names of one address.
use bound_gate_vpn.Prelude.{
  ℕ, ◌+◌, ◌%◌, ◌^◌, min, max, ◌≡◌, ◌≤◌, refl, true, not, ◌&&◌, ◌||◌, none, some, ◌==◌,
  if◌then◌else◌, List, [], ◌∷◌, length, Bytes, bytes_eq, same_bytes, same_bytes_iff, arith,
  Bool-cases, Option-cases, inl, inr, All,
}
use bound_gate_vpn.Prelude.Assoc.{lookup, insert, length-insert_new, length-insert_old}
use bound_gate_vpn.Netip.{Addr, unmap}
use bound_gate_vpn.Flow.State.{held}
use bound_gate_vpn.Flow.Totals.{held-insert}
use bound_gate_vpn.Flow.Account.Sweeps.{held-less_one}
use bound_gate_vpn.Flow.Sweep.{less_one}
use bound_gate_vpn.Dnsmap.{
  Key, name_key_eq, NameEntry, NameMap, new_map, live_map, live_count, expire, is_full, is_known,
  learn_name, store, make_room, learn_addr, learn_addrs, learn, same_key_iff, is_due, min_ttl,
  max_ttl, grace,
}
use bound_gate_vpn.Dnsmap.Few.{
  Names, HasFew, length-learn_name, live_map-HasFew, insert-HasFew, lookup-HasFew,
}

-- The addresses of a peer.
unfoldable pub tally : Bytes → Names → ℕ
tally p [] = 0
tally p ((k, es) ∷ m) = (if same_bytes k.peer p then 1 else 0) + tally p m

tally-insert_new :
    (p : Bytes) (k : Key) (es : List NameEntry) (m : Names)
    → lookup k m ≡ none
    → tally p (insert k es m) ≡ tally p m + (if same_bytes k.peer p then 1 else 0)
unfolding tally lookup insert
tally-insert_new p k es [] h = ground arith
tally-insert_new p k es ((j, fs) ∷ m) h = ground (arith, tally-insert_new p k es m)

tally-insert_old :
    (p : Bytes) (k : Key) (es fs : List NameEntry) (m : Names)
    → lookup k m ≡ some fs
    → tally p (insert k es m) ≡ tally p m
unfolding tally lookup insert
tally-insert_old p k es fs [] h = absurd (ground arith)
tally-insert_old p k es fs ((j, gs) ∷ m) h =
    ground (arith, same_key_iff j k, tally-insert_old p k es fs m)

live_count-le :
    (now : ℕ) (p : Bytes) (m : Names) (count : List (Bytes × ℕ))
    → held (live_count now m count) p ≤ held count p
unfolding live_count
live_count-le now p [] count = omega arith
live_count-le now p ((k, es) ∷ m) count = ground (
  arith,
  live_count-le now p m count,
  live_count-le now p m (less_one count k.peer),
  held-less_one count k.peer p,
  same_bytes_iff k.peer p,
)

live_count-tally :
    (now : ℕ) (p : Bytes) (m : Names) (count : List (Bytes × ℕ))
    → tally p m ≤ held count p
    → held (live_count now m count) p + tally p m ≡ held count p + tally p (live_map now m)
unfolding live_count live_map tally
live_count-tally now p [] count h = omega arith
live_count-tally now p ((k, es) ∷ m) count h = ground (
  arith,
  live_count-tally now p m count,
  live_count-tally now p m (less_one count k.peer),
  held-less_one count k.peer p,
  same_bytes_iff k.peer p,
)

length-live_map : (now : ℕ) (m : Names) → length (live_map now m) ≤ length m
unfolding live_map
length-live_map now [] = omega arith
length-live_map now ((k, es) ∷ m) = ground (arith, length-live_map now m)

-- The map is not larger than its limit, counts exactly the addresses of each peer, no peer has more
-- than its share, and no address has more than 8 names.
pub record Bounded (t : NameMap) : Type 0 where
  pub size : length t.m ≤ t.limit
  pub counts : (p : Bytes) → held t.count p ≡ tally p t.m
  pub shares : (p : Bytes) → held t.count p ≤ t.per_peer
  pub names : All HasFew t.m

pub new_map-Bounded : (limit : ℕ) → Bounded (new_map limit)
unfolding new_map tally lookup
new_map-Bounded limit = record {
  size = omega arith;
  counts = λ p. refl;
  shares = λ p. omega arith;
  names = tt;
}

-- Expire keeps the map in its bounds at any time, and gives back the share of every address that
-- ran out.
pub expire-Bounded : (now : ℕ) (t : NameMap) → Bounded t → Bounded (expire now t)
unfolding expire
expire-Bounded now t b = record {
  size = omega (arith, b.size, length-live_map now t.m);
  counts = λ p. omega (arith, b.counts p, live_count-tally now p t.m t.count);
  shares = λ p. omega (arith, b.shares p, live_count-le now p t.m t.count);
  names = live_map-HasFew now t.m b.names;
}

store-Bounded :
    (k : Key) (name : Bytes) (until : ℕ) (t : NameMap)
    → (is_known (lookup k t.m) || not (is_full t k.peer)) ≡ true
    → Bounded t
    → Bounded (store k name until t)
unfolding store
store-Bounded k name until t room b = elim (Option-cases (lookup k t.m)) [
  | inl fresh ↦
      rw (fresh, store)
        (record {
          size = ground (arith, length-insert_new k (learn_name name until []) t.m fresh, b.size);
          counts = λ p. ground (
            arith,
            b.counts p,
            same_bytes_iff k.peer p,
            held-insert t.count k.peer p (held t.count k.peer + 1),
            tally-insert_new p k (learn_name name until []) t.m fresh,
          );
          shares = λ p. ground (
            arith,
            b.shares p,
            same_bytes_iff k.peer p,
            held-insert t.count k.peer p (held t.count k.peer + 1),
          );
          names =
              insert-HasFew k (learn_name name until []) t.m
                (length-learn_name name until [] (omega arith)) b.names;
        })
  | inr (es, known) ↦
      rw (known, store)
        (record {
          size = omega (arith, b.size, length-insert_old k (learn_name name until es) es t.m known);
          counts = λ p.
              omega
                (arith, b.counts p, tally-insert_old p k (learn_name name until es) es t.m known);
          shares = b.shares;
          names =
              insert-HasFew k (learn_name name until es) t.m
                (length-learn_name name until es (lookup-HasFew k es t.m known b.names)) b.names;
        })
]

count_drop-Bounded : (n : ℕ) (t : NameMap) → Bounded t → Bounded (record t { dropped = n })
count_drop-Bounded n t b = record {
  size = b.size;
  counts = b.counts;
  shares = b.shares;
  names = b.names;
}

make_room-Bounded : (now : ℕ) (t : NameMap) → Bounded t → Bounded (make_room now t)
unfolding make_room
make_room-Bounded now t b = elim (Bool-cases (is_due t.scanned now)) [
  | inl due ↦
      rw (due, make_room)
        (expire-Bounded now (record t { scanned = some now })
          (record { size = b.size; counts = b.counts; shares = b.shares; names = b.names }))
  | inr early ↦ rw (early, make_room) b
]

learn_addr-Bounded :
    (k : Key) (name : Bytes) (until now : ℕ) (t : NameMap)
    → Bounded t
    → Bounded (learn_addr k name until now t)
unfolding learn_addr
learn_addr-Bounded k name until now t b =
    let t' = make_room now t in
    let b' = make_room-Bounded now t b in
    elim (Bool-cases (is_known (lookup k t.m) || not (is_full t k.peer))) [
      | inl room ↦ rw (room, learn_addr) (store-Bounded k name until t room b)
      | inr full ↦
          rw (full, learn_addr)
            (elim (Bool-cases (not (is_known (lookup k t'.m)) && is_full t' k.peer)) [
              | inl still ↦ rw still (count_drop-Bounded ((t'.dropped + 1) % 2 ^ 64) t' b')
              | inr room ↦ rw room (store-Bounded k name until t' (ground arith) b')
            ])
    ]

learn_addrs-Bounded :
    (peer name : Bytes) (addrs : List Addr) (until now : ℕ) (t : NameMap)
    → Bounded t
    → Bounded (learn_addrs peer name addrs until now t)
unfolding learn_addrs
learn_addrs-Bounded peer name [] until now t b = b
learn_addrs-Bounded peer name (a ∷ addrs) until now t b =
    let k : Key = record { peer = peer; addr = unmap a } in
    learn_addrs-Bounded peer name addrs until now (learn_addr k name until now t)
      (learn_addr-Bounded k name until now t b)

-- Learn keeps the map in its bounds, whatever answer a peer received: not more addresses than the
-- limit, the count of each peer right and within its share, and at most 8 names for an address.
pub learn-Bounded :
    (peer name : Bytes) (addrs : List Addr) (ttl now : ℕ) (t : NameMap)
    → Bounded t
    → Bounded (learn peer name addrs ttl now t)
unfolding learn
learn-Bounded peer name addrs ttl now t b =
    let until = now + (min (max ttl min_ttl) max_ttl + grace) in
    elim (Bool-cases (length peer == 0 || length name == 0)) [
      | inl empty ↦ rw (empty, learn) b
      | inr filled ↦ rw (filled, learn) (learn_addrs-Bounded peer name addrs until now t b)
    ]
