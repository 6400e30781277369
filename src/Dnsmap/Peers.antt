-- ===== src/Dnsmap/Peers.antt =====
-- What one peer learns changes no name of another, while the map makes room.
use bound_gate_vpn.Prelude.{
  ℕ, ◌+◌, min, max, ◌≡◌, ◌≢◌, ◌≤◌, refl, ap, ◌∙◌, sym, true, not, ◌&&◌, ◌||◌, none, ◌==◌,
  if◌then◌else◌, List, [], ◌∷◌, length, Bytes, bytes_eq, arith, Bool-cases, Option-cases, inl, inr,
}
use bound_gate_vpn.Prelude.Assoc.{lookup, insert, lookup-insert, lookup-insert_ne}
use bound_gate_vpn.Netip.{Addr, unmap}
use bound_gate_vpn.Dnsmap.{
  Key, name_key_eq, NameEntry, NameMap, live, is_empty, live_map, expire, is_full, is_known,
  entries_of, learn_name, store, make_room, learn_addr, learn_addrs, learn, same_key_iff, is_due,
  min_ttl, max_ttl, grace, names, names_of,
}
use bound_gate_vpn.Dnsmap.Few.{Names}

-- No key twice, as in a Go map.
abbrev pub Unique : Names → Type 0
Unique [] = Unit
Unique ((k, es) ∷ m) = (lookup k m ≡ none) × Unique m

insert-Unique : (k : Key) (es : List NameEntry) (m : Names) → Unique m → Unique (insert k es m)
unfolding insert lookup
insert-Unique k es [] u = (refl, tt)
insert-Unique k es ((j, fs) ∷ m) u =
    ground (arith, insert-Unique k es m, lookup-insert k j es m, same_key_iff j k, same_key_iff k j)

lookup-live_map_none :
    (now : ℕ) (k : Key) (m : Names) → lookup k m ≡ none → lookup k (live_map now m) ≡ none
unfolding live_map lookup
lookup-live_map_none now k [] h = refl
lookup-live_map_none now k ((j, es) ∷ m) h = ground (arith, lookup-live_map_none now k m)

live_map-Unique : (now : ℕ) (m : Names) → Unique m → Unique (live_map now m)
unfolding live_map
live_map-Unique now [] u = tt
live_map-Unique now ((k, es) ∷ m) u =
    ground (arith, live_map-Unique now m, lookup-live_map_none now k m)

live-live :
    (now later : ℕ) (es : List NameEntry) → now ≤ later → live later (live now es) ≡ live later es
unfolding live
live-live now later [] h = refl
live-live now later (e ∷ es) h = ground (arith, live-live now later es h)

-- What is left of an address after an expiry is alive at `later` as before.
abbrev pub alive : ℕ → Key → Names → List NameEntry
alive later k m = live later (entries_of (lookup k m))

live-is_empty :
    (now later : ℕ) (es : List NameEntry)
    → now ≤ later
    → is_empty (live now es) ≡ true
    → live later es ≡ []
unfolding live
live-is_empty now later [] h e = refl
live-is_empty now later (f ∷ es) h e = ground (arith, live-is_empty now later es h)

alive-live_map :
    (now later : ℕ) (k : Key) (m : Names)
    → now ≤ later
    → Unique m
    → alive later k (live_map now m) ≡ alive later k m
unfolding live_map lookup live
alive-live_map now later k [] h u = refl
alive-live_map now later k ((j, es) ∷ m) h u = ground (
  arith,
  same_key_iff j k,
  alive-live_map now later k m,
  live-live now later es h,
  live-is_empty now later es h,
  lookup-live_map_none now j m,
)

-- Keys stay distinct, and no other peer's names change.
record Spared (later : ℕ) (peer : Bytes) (t t' : NameMap) : Type 0 where
  unique : Unique t'.m
  same : (k : Key) → k.peer ≢ peer → alive later k t'.m ≡ alive later k t.m

Spared-after :
    (later : ℕ) (peer : Bytes) (t t' t'' : NameMap)
    → Spared later peer t t'
    → Spared later peer t' t''
    → Spared later peer t t''
Spared-after later peer t t' t'' a b = record {
  unique = b.unique;
  same = λ k other. b.same k other ∙ a.same k other;
}

insert-alive :
    (later : ℕ) (k j : Key) (es : List NameEntry) (m : Names)
    → j.peer ≢ k.peer
    → alive later j (insert k es m) ≡ alive later j m
insert-alive later k j es m other =
    ap (λ o. live later (entries_of o))
      (lookup-insert_ne k j es m (λ same. other (sym (ap (λ i. i.peer) same))))

store-Spared :
    (later : ℕ) (k : Key) (name : Bytes) (until : ℕ) (t : NameMap)
    → Unique t.m
    → Spared later k.peer t (store k name until t)
unfolding store
store-Spared later k name until t u = elim (Option-cases (lookup k t.m)) [
  | inl fresh ↦
      let es = learn_name name until [] in
      rw (fresh, store)
        (record {
          unique = insert-Unique k es t.m u;
          same = λ j other. insert-alive later k j es t.m other;
        })
  | inr (fs, known) ↦
      let es = learn_name name until fs in
      rw (known, store)
        (record {
          unique = insert-Unique k es t.m u;
          same = λ j other. insert-alive later k j es t.m other;
        })
]

make_room-Spared :
    (now later : ℕ) (peer : Bytes) (t : NameMap)
    → now ≤ later
    → Unique t.m
    → Spared later peer t (make_room now t)
unfolding make_room expire
make_room-Spared now later peer t h u = elim (Bool-cases (is_due t.scanned now)) [
  | inl due ↦
      rw (due, make_room)
        (record {
          unique = live_map-Unique now t.m u;
          same = λ k other. alive-live_map now later k t.m h u;
        })
  | inr early ↦ rw (early, make_room) (record { unique = u; same = λ k other. refl })
]

learn_addr-Spared :
    (now later : ℕ) (k : Key) (name : Bytes) (until : ℕ) (t : NameMap)
    → now ≤ later
    → Unique t.m
    → Spared later k.peer t (learn_addr k name until now t)
unfolding learn_addr
learn_addr-Spared now later k name until t h u =
    let t' = make_room now t in
    let s = make_room-Spared now later k.peer t h u in
    elim (Bool-cases (is_known (lookup k t.m) || not (is_full t k.peer))) [
      | inl room ↦ rw (room, learn_addr) (store-Spared later k name until t u)
      | inr full ↦
          rw (full, learn_addr)
            (elim (Bool-cases (not (is_known (lookup k t'.m)) && is_full t' k.peer)) [
              | inl still ↦ rw still (record { unique = s.unique; same = s.same })
              | inr room ↦ rw room (
                  Spared-after later k.peer t t' (store k name until t') s
                    (store-Spared later k name until t' s.unique))
            ])
    ]

learn_addrs-Spared :
    (now later : ℕ) (peer name : Bytes) (addrs : List Addr) (until : ℕ) (t : NameMap)
    → now ≤ later
    → Unique t.m
    → Spared later peer t (learn_addrs peer name addrs until now t)
unfolding learn_addrs
learn_addrs-Spared now later peer name [] until t h u = record {
  unique = u;
  same = λ k other. refl;
}
learn_addrs-Spared now later peer name (a ∷ addrs) until t h u =
    let k : Key = record { peer = peer; addr = unmap a } in
    let t' = learn_addr k name until now t in
    let s = learn_addr-Spared now later k name until t h u in
    Spared-after later peer t t' (learn_addrs peer name addrs until now t') s
      (learn_addrs-Spared now later peer name addrs until t' h s.unique)

learn-Spared :
    (now later : ℕ) (peer name : Bytes) (addrs : List Addr) (ttl : ℕ) (t : NameMap)
    → now ≤ later
    → Unique t.m
    → Spared later peer t (learn peer name addrs ttl now t)
unfolding learn
learn-Spared now later peer name addrs ttl t h u =
    let until = now + (min (max ttl min_ttl) max_ttl + grace) in
    elim (Bool-cases (length peer == 0 || length name == 0)) [
      | inl empty ↦ rw (empty, learn) (record { unique = u; same = λ k other. refl })
      | inr filled ↦ rw (filled, learn) (learn_addrs-Spared now later peer name addrs until t h u)
    ]

-- What a peer learns, in a map without two entries for one key, leaves the map without two entries
-- for one key, and at any later time every other peer has the names it had for every address, also
-- when the map was full and what ran out was dropped to make room.
pub names-learn :
    (peer other name : Bytes) (addrs : List Addr) (addr : Addr) (ttl now later : ℕ) (t : NameMap)
    → Unique t.m
    → other ≢ peer
    → now ≤ later
    → Unique (learn peer name addrs ttl now t).m
      × (names other addr later (learn peer name addrs ttl now t) ≡ names other addr later t)
unfolding names
names-learn peer other name addrs addr ttl now later t u differs h =
    let s = learn-Spared now later peer name addrs ttl t h u in
    let k : Key = record { peer = other; addr = unmap addr } in
    (s.unique, ap (λ es. if length other == 0 then [] else names_of es) (s.same k differs))
