-- ===== src/Anchors/Revoked.antt =====
-- A revocation that the book holds is never forgotten.
use bound_gate_vpn.Prelude.{
  ℕ, ◌≡◌, ◌≤◌, ◌<◌, refl, arith, Bool, true, false, not, ◌&&◌, Option, none, some, ltb, leb, ◌==◌,
  if◌then◌else◌, [], ◌∷◌, length, Bytes, bytes_eq, same_bytes, same_bytes_iff, is_some, IsIn, inl,
  inr, ◌⊎◌, Bool-cases, sym, ap, subst, ◌∙◌,
}
use bound_gate_vpn.Prelude.Assoc.{
  lookup, insert, remove, lookup-insert, lookup-insert_self, lookup-remove,
}
use bound_gate_vpn.Anchors.{
  Entry, Book, max_history, revoked_after, entry_or_zero, entry_of, check, older, find_oldest,
  without, set, saw, revoke,
}

-- One entry for each node, as a map has.
abbrev pub Unique : Book → Type 0
Unique [] = Unit
Unique ((k, e) ∷ b) = (lookup k b ≡ none) × Unique b

insert-Unique : (k : Bytes) (e : Entry) (b : Book) → Unique b → Unique (insert k e b)
unfolding lookup insert
insert-Unique k e [] u = (refl, tt)
insert-Unique k e ((j, f) ∷ b) u =
    ground
      (arith, insert-Unique k e b, lookup-insert k j e b, same_bytes_iff j k, same_bytes_iff k j)

remove-Unique : (k : Bytes) (b : Book) → Unique b → Unique (remove k b)
unfolding lookup remove
remove-Unique k [] u = tt
remove-Unique k ((j, f) ∷ b) u = ground (arith, remove-Unique k b, lookup-remove k j b)

IsIn-lookup : (x : Bytes × Entry) (b : Book) → Unique b → IsIn x b → lookup x.0 b ≡ some x.1
unfolding lookup
IsIn-lookup x [] u i = absurd i
IsIn-lookup x ((j, f) ∷ b) u (inl e) =
    subst (λ y. lookup y.0 ((j, f) ∷ b) ≡ some y.1) e (ground (arith, same_bytes_iff j j))
IsIn-lookup x ((j, f) ∷ b) u (inr i) = ground (arith, IsIn-lookup x b u.1 i, same_bytes_iff j x.0)

-- An entry that may be dropped.
abbrev Dropped : Book → Bytes × Entry → Type 0
Dropped b x = IsIn x b × (x.1.revoked ≡ 0)

some_same : {A : Type 0} (x y : A) → some x ≡ some y → x ≡ y
some_same x y h = ground arith

picked :
    (t : Bool) (y x : Bytes × Entry) (o : Option (Bytes × Entry))
    → (if t then some y else o) ≡ some x
    → (o ≡ some x) ⊎ ((t ≡ true) × (y ≡ x))
picked true y x o h = inr (refl, some_same y x h)
picked false y x o h = inl h

older-Dropped :
    (o : Option (Bytes × Entry)) (y x : Bytes × Entry)
    → older o y ≡ some x
    → (o ≡ some x) ⊎ ((y ≡ x) × (y.1.revoked ≡ 0))
unfolding older
older-Dropped none y x h = elim (picked (y.1.revoked == 0) y x none h) [
  | inl e ↦ inl e
  | inr (t, e) ↦ inr (e, ground arith)
]
older-Dropped (some o) y x h =
    elim (picked (y.1.revoked == 0 && ltb y.1.issued o.1.issued) y x (some o) h) [
      | inl e ↦ inl e
      | inr (t, e) ↦ inr (e, ground arith)
    ]

find_oldest-Dropped :
    (o : Option (Bytes × Entry)) (b : Book) (x : Bytes × Entry)
    → find_oldest o b ≡ some x
    → (o ≡ some x) ⊎ Dropped b x
unfolding find_oldest
find_oldest-Dropped o [] x h = inl h
find_oldest-Dropped o (y ∷ b) x h = elim (find_oldest-Dropped (older o y) b x h) [
  | inr (i, zero_revoked) ↦ inr (inr i, zero_revoked)
  | inl e ↦ elim (older-Dropped o y x e) [
    | inl before ↦ inl before
    | inr (same, zero_revoked) ↦ inr (inl same, subst (λ z. z.1.revoked ≡ 0) same zero_revoked)
  ]
]

-- The time of a node's newest revocation, 0 for none.
abbrev pub revoked_of : Bytes → Book → ℕ
revoked_of id b = (entry_of id b).revoked

without-revoked :
    (o : Option (Bytes × Entry)) (b : Book) (id : Bytes)
    → Unique b
    → find_oldest none b ≡ o
    → revoked_of id b ≤ revoked_of id (without o b)
without-revoked none b id u h = ground arith
without-revoked (some x) b id u h = elim (find_oldest-Dropped none b x h) [
  | inl bad ↦ absurd (ground arith)
  | inr (i, zero_revoked) ↦ elim (Bool-cases (same_bytes x.0 id)) [
    | inl e ↦
        let same : x.0 ≡ id = (same_bytes_iff x.0 id).0 e in
        let found : lookup id b ≡ some x.1 =
          subst (λ k. lookup k b ≡ some x.1) same (IsIn-lookup x b u i) in
        let gone : revoked_of id b ≡ 0 = ap (λ y. (entry_or_zero y).revoked) found ∙ zero_revoked in
        ground arith
    | inr e ↦
        let kept : lookup id (remove x.0 b) ≡ lookup id b = lookup-remove x.0 id b ∙ rw (e) refl in
        let same : revoked_of id (remove x.0 b) ≡ revoked_of id b =
          ap (λ y. (entry_or_zero y).revoked) kept in
        ground arith
  ]
]

without-Unique : (o : Option (Bytes × Entry)) (b : Book) → Unique b → Unique (without o b)
without-Unique none b u = u
without-Unique (some x) b u = remove-Unique x.0 b u

-- The book that `set` inserts into.
abbrev room : Book → Bool → Book
room b full = if full then without (find_oldest none b) b else b

room-revoked :
    (b : Book) (full : Bool) (id : Bytes) → Unique b → revoked_of id b ≤ revoked_of id (room b full)
room-revoked b true id u = without-revoked (find_oldest none b) b id u refl
room-revoked b false id u = ground arith

room-Unique : (b : Book) (full : Bool) → Unique b → Unique (room b full)
room-Unique b true u = without-Unique (find_oldest none b) b u
room-Unique b false u = u

if_true : {A : Type 0} (t : Bool) (x y : A) → t ≡ true → (if t then x else y) ≡ x
if_true true x y h = refl
if_true false x y h = absurd (ground arith)

if_false : {A : Type 0} (t : Bool) (x y : A) → t ≡ false → (if t then x else y) ≡ y
if_false true x y h = absurd (ground arith)
if_false false x y h = refl

set-revoked :
    (id : Bytes) (e : Entry) (b : Book) (other : Bytes)
    → Unique b
    → revoked_of id b ≤ e.revoked
    → revoked_of other b ≤ revoked_of other (set id e b)
unfolding set
set-revoked id e b other u h =
    let full : Bool = not (is_some (lookup id b)) && leb max_history (length b) in
    let found = lookup-insert id other e (room b full) in
    elim (Bool-cases (same_bytes id other)) [
      | inl t ↦
          let same : id ≡ other = (same_bytes_iff id other).0 t in
          let now : revoked_of other (insert id e (room b full)) ≡ e.revoked =
            ap (λ y. (entry_or_zero y).revoked) (found ∙ if_true (same_bytes id other) _ _ t) in
          subst (λ n. revoked_of other b ≤ n) (sym now)
            (subst (λ k. revoked_of k b ≤ e.revoked) same h)
      | inr t ↦
          let now : revoked_of other (insert id e (room b full)) ≡ revoked_of other (room b full) =
            ap (λ y. (entry_or_zero y).revoked) (found ∙ if_false (same_bytes id other) _ _ t) in
          subst (λ n. revoked_of other b ≤ n) (sym now) (room-revoked b full other u)
    ]

set-Unique : (id : Bytes) (e : Entry) (b : Book) → Unique b → Unique (set id e b)
unfolding set
set-Unique id e b u =
    insert-Unique id e (room b (not (is_some (lookup id b)) && leb max_history (length b)))
      (room-Unique b (not (is_some (lookup id b)) && leb max_history (length b)) u)

-- What a step keeps: one entry for each node, and every revocation or a newer one.
abbrev Keeps : Book → Book → Type 0
Keeps b c = Unique c × ((id : Bytes) → revoked_of id b ≤ revoked_of id c)

saw-Keeps : (id : Bytes) (issued : ℕ) (b : Book) → Unique b → Keeps b (saw id issued b).0
unfolding saw
saw-Keeps id issued b u = elim (Bool-cases (leb issued (entry_of id b).issued)) [
  | inl old ↦ rw (old) (u, λ other. ground arith)
  | inr new ↦ rw (new) (set-Unique id _ b u, λ other. set-revoked id _ b other u (ground arith))
]

revoke-Keeps : (id : Bytes) (issued : ℕ) (b : Book) → Unique b → Keeps b (revoke id issued b).0
unfolding revoke
revoke-Keeps id issued b u = elim (Bool-cases (leb issued (entry_of id b).revoked)) [
  | inl old ↦ rw (old) (u, λ other. ground arith)
  | inr new ↦ rw (new) (set-Unique id _ b u, λ other. set-revoked id _ b other u (ground arith))
]

set_self : (id : Bytes) (e : Entry) (b : Book) → revoked_of id (set id e b) ≡ e.revoked
unfolding set
set_self id e b =
    ap (λ y. (entry_or_zero y).revoked)
      (lookup-insert_self id e (room b (not (is_some (lookup id b)) && leb max_history (length b))))

revoke-revoked :
    (id : Bytes) (issued : ℕ) (b : Book) → issued ≤ revoked_of id (revoke id issued b).0
unfolding revoke
revoke-revoked id issued b = elim (Bool-cases (leb issued (entry_of id b).revoked)) [
  | inl old ↦ rw (old) (ground arith)
  | inr new ↦
      rw (new) (
        let now = set_self id (record (entry_of id b) { revoked = issued }) b in
        ground (arith, now))
]

-- The books that any bindings and revocations lead to.
pub data Later : Book → Book → Type 0 where
  now : (b : Book) → Later b b
  seen : (b c : Book) (id : Bytes) (issued : ℕ) → Later (saw id issued b).0 c → Later b c
  revoked : (b c : Book) (id : Bytes) (issued : ℕ) → Later (revoke id issued b).0 c → Later b c

Later-Keeps : (b c : Book) → Unique b → Later b c → Keeps b c
Later-Keeps b c u (now _) = (u, λ id. ground arith)
Later-Keeps b c u (seen _ _ id issued l) =
    let (once, first) = saw-Keeps id issued b u in
    let (still, kept) = Later-Keeps (saw id issued b).0 c once l in
    (still, λ k. ground (arith, first k, kept k))
Later-Keeps b c u (revoked _ _ id issued l) =
    let (once, first) = revoke-Keeps id issued b u in
    let (still, kept) = Later-Keeps (revoke id issued b).0 c once l in
    (still, λ k. ground (arith, first k, kept k))

-- Once the book of a node has taken a revocation, it refuses for good, as revoked, every binding of
-- that node issued no later: whatever bindings and revocations of any nodes it takes afterwards,
-- and however often it is full and forgets entries.
pub check-Later :
    (id : Bytes) (issued time : ℕ) (b c : Book)
    → Unique b
    → 0 < time
    → issued ≤ time
    → Later (revoke id time b).0 c
    → check id issued c ≡ some revoked_after
unfolding check
check-Later id issued time b c u pos old l =
    let (once, first) = revoke-Keeps id time b u in
    let (still, kept) = Later-Keeps (revoke id time b).0 c once l in
    ground (arith, revoke-revoked id time b, kept id)
