-- ===== src/Dnsmap/Few.antt =====
-- How many names an address has: Learn's loop over them, and expireLocked.
use bound_gate_vpn.Prelude.{
  ℕ, ◌≡◌, ◌≤◌, some, List, [], ◌∷◌, length, Bytes, bytes_eq, arith, Bool-cases, Option-cases, inl,
  inr, All, length-append, length-drop, drop, leb,
}
use bound_gate_vpn.Prelude.Assoc.{lookup, insert}
use bound_gate_vpn.Dnsmap.{
  Key, name_key_eq, NameEntry, live_map, learn_name, live, renew, max_names, is_empty,
}

abbrev pub Names : Type 0
Names = List (Key × List NameEntry)

length-live : (now : ℕ) (es : List NameEntry) → length (live now es) ≤ length es
unfolding live
length-live now [] = omega arith
length-live now (e ∷ es) = ground (arith, length-live now es)

abbrev pub HasFew : Key × List NameEntry → Type 0
HasFew x = length x.1 ≤ 8

pub live_map-HasFew : (now : ℕ) (m : Names) → All HasFew m → All HasFew (live_map now m)
unfolding live_map
live_map-HasFew now [] h = tt
live_map-HasFew now ((k, es) ∷ m) h = elim (Bool-cases (is_empty (live now es))) [
  | inl gone ↦ rw (gone, live_map) (live_map-HasFew now m h.1)
  | inr kept ↦
      rw (kept, live_map) (omega (arith, length-live now es, h.0), live_map-HasFew now m h.1)
]

pub insert-HasFew :
    (k : Key) (es : List NameEntry) (m : Names)
    → length es ≤ 8
    → All HasFew m
    → All HasFew (insert k es m)
unfolding insert
insert-HasFew k es [] few h = (few, tt)
insert-HasFew k es ((j, fs) ∷ m) few h = ground (arith, insert-HasFew k es m)

pub lookup-HasFew :
    (k : Key) (es : List NameEntry) (m : Names)
    → lookup k m ≡ some es
    → All HasFew m
    → length es ≤ 8
unfolding lookup
lookup-HasFew k es [] found h = absurd (ground arith)
lookup-HasFew k es ((j, fs) ∷ m) found h = ground (arith, lookup-HasFew k es m)

length-renew :
    (name : Bytes) (until : ℕ) (es fs : List NameEntry)
    → renew name until es ≡ some fs
    → length fs ≡ length es
unfolding renew
length-renew name until [] fs h = absurd (ground arith)
length-renew name until (e ∷ es) fs h = elim (Option-cases (renew name until es)) [
  | inl fresh ↦ ground (arith, fresh, h)
  | inr (gs, known) ↦ ground (arith, known, h, length-renew name until es gs known)
]

pub length-learn_name :
    (name : Bytes) (until : ℕ) (es : List NameEntry)
    → length es ≤ 8
    → length (learn_name name until es) ≤ 8
unfolding learn_name
length-learn_name name until es h = elim (Option-cases (renew name until es)) [
  | inr (fs, known) ↦ rw (known, learn_name) (omega (arith, length-renew name until es fs known, h))
  | inl fresh ↦
      rw (fresh, learn_name)
        (elim (Bool-cases (leb max_names (length es))) [
          | inl full ↦ rw full (
              ground (
                arith,
                full,
                length-append (drop 1 es) (record { name = name; until = until } ∷ []),
                length-drop 1 es,
                h,
              ))
          | inr room ↦
              rw room (
                ground (arith, room, length-append es (record { name = name; until = until } ∷ [])))
        ])
]
