-- ===== src/Acl/Names.antt =====
-- Which names a list of names holds.
use bound_gate_vpn.Prelude.{
  ℕ, zero, suc, ◌+◌, ◌-◌, ◌≡◌, ◌≢◌, ◌↔◌, ◌<◌, ◌≤◌, refl, arith, Bool, true, false, ◌&&◌, ◌||◌,
  Option, none, some, List, [], ◌∷◌, ◌++◌, length, Bytes, ap, sym, ◌∙◌, ltb, if◌then◌else◌, ◌==◌,
  Bool-cases, inl, inr, IsIn, same_bytes, same_bytes_iff, subst, drop, take, length-append,
}
use bound_gate_vpn.Prelude.Text.{to_lower, cut_prefix, has_suffix}
use bound_gate_vpn.Registry.{NamedList}
use bound_gate_vpn.Registry.Entries.{Texts}
use bound_gate_vpn.Acl.Word
use bound_gate_vpn.Acl.Lists.{
  CompiledList, empty_list, add_name, add_by, add_entry, add_entries, compile_list, is_member,
  is_under, plain_name, has_name,
}

-- A name ends in a text and is longer.
abbrev pub Under : Bytes → Bytes → Type 0
Under p u = (front : Bytes) × (front ≢ []) × (p ≡ front ++ u)

-- What an entry means, by what follows its "*.".
abbrev pub HoldsBy : Option Bytes → Bytes → Bytes → Type 0
HoldsBy none e p = e ≡ p
HoldsBy (some rest) e p = Under p (b'.' ∷ rest)

-- An entry holds a name: "*.rest" holds every name under rest, any other entry holds itself.
abbrev pub Holds : Bytes → Bytes → Type 0
Holds e p = HoldsBy (cut_prefix (b'*' ∷ b'.' ∷ []) e) e p

take-drop : (n : ℕ) (s : Bytes) → take n s ++ drop n s ≡ s
take-drop zero s = ground arith
take-drop (suc n) [] = ground arith
take-drop (suc n) (c ∷ s) = ground (arith, take-drop n s)

drop-append : (front u : Bytes) → drop (length front) (front ++ u) ≡ u
drop-append [] u = ground arith
drop-append (c ∷ front) u = ground (arith, drop-append front u)

front_set : (n : ℕ) (s : Bytes) → 0 < n → n ≤ length s → take n s ≢ []
front_set zero s h g e = ground arith
front_set (suc n) [] h g e = ground arith
front_set (suc n) (c ∷ s) h g e = ground arith

length_pos : (s : Bytes) → s ≢ [] → 0 < length s
length_pos [] h = absurd (h refl)
length_pos (c ∷ s) h = ground arith

has_suffix-Under :
    (p u : Bytes) → ((has_suffix p u && ltb (length u) (length p)) ≡ true) ↔ Under p u
has_suffix-Under p u = (
  λ h.
      let same : drop (length p - length u) p ≡ u =
        (same_bytes_iff (drop (length p - length u) p) u).0 (ground arith) in
      (
        take (length p - length u) p,
        front_set (length p - length u) p (ground arith) (ground arith),
        sym (
            ap (λ x. take (length p - length u) p ++ x) (sym same)
            ∙ take-drop (length p - length u) p),
      ),
  λ (front, set, same).
      let sum : length p ≡ length front + length u = ap length same ∙ length-append front u in
      let longer = length_pos front set in
      let behind : drop (length p - length u) p ≡ u =
        subst (λ n. drop n p ≡ u) (ground arith)
          (ap (drop (length front)) same ∙ drop-append front u) in
      ground (arith, (same_bytes_iff (drop (length p - length u) p) u).1 behind),
)

-- The test of one entry.
abbrev one_by : Option Bytes → Bytes → Bytes → Bool
one_by none e p = same_bytes e p
one_by (some rest) e p = has_suffix p (b'.' ∷ rest) && ltb (length (b'.' ∷ rest)) (length p)

abbrev one : Bytes → Bytes → Bool
one e p = one_by (cut_prefix (b'*' ∷ b'.' ∷ []) e) e p

one_by-HoldsBy : (o : Option Bytes) (e p : Bytes) → (one_by o e p ≡ true) ↔ HoldsBy o e p
one_by-HoldsBy none e p = same_bytes_iff e p
one_by-HoldsBy (some rest) e p = has_suffix-Under p (b'.' ∷ rest)

one-Holds : (e p : Bytes) → (one e p ≡ true) ↔ Holds e p
one-Holds e p = one_by-HoldsBy (cut_prefix (b'*' ∷ b'.' ∷ []) e) e p

-- hasName's two lookups.
abbrev listed : CompiledList → Bytes → Bool
listed c p = is_member p c.exact || is_under p c.under

listed-add_by :
    (o : Option Bytes) (e p : Bytes) (c : CompiledList)
    → listed (add_by o e c) p ≡ (one_by o e p || listed c p)
unfolding add_by is_member is_under
listed-add_by none e p c = ground arith
listed-add_by (some rest) e p c = ground arith

listed-add_name :
    (e p : Bytes) (c : CompiledList) → listed (add_name e c) p ≡ (one e p || listed c p)
unfolding add_name add_by is_member is_under
listed-add_name e p c = listed-add_by (cut_prefix (b'*' ∷ b'.' ∷ []) e) e p c

abbrev any_one : List Bytes → Bytes → Bool
any_one [] p = false
any_one (e ∷ es) p = one (to_lower e) p || any_one es p

-- A kind whose entries are names only.
abbrev pub NamesOnly : Bytes → Type 0
NamesOnly kind = (kind ≢ Word.ip) × (kind ≢ Word.dynamic)

add_entry-names :
    (texts : Texts) (kind e : Bytes) (c : CompiledList)
    → NamesOnly kind
    → add_entry texts kind e c ≡ add_name (to_lower e) c
unfolding add_entry
add_entry-names texts kind e c (h, g) =
    ground (arith, same_bytes_iff kind Word.ip, same_bytes_iff kind Word.dynamic)

listed-add_entries :
    (texts : Texts) (kind : Bytes) (es : List Bytes) (p : Bytes) (c : CompiledList)
    → NamesOnly kind
    → listed (add_entries texts kind es c) p ≡ (any_one es p || listed c p)
unfolding add_entries
listed-add_entries texts kind [] p c h = refl
listed-add_entries texts kind (e ∷ es) p c h =
    ap (λ x. listed x p) (add_entry-names texts kind e (add_entries texts kind es c) h)
    ∙ listed-add_name (to_lower e) p (add_entries texts kind es c)
    ∙ ground (arith, listed-add_entries texts kind es p c h)

any_one-IsIn :
    (es : List Bytes) (p : Bytes)
    → (any_one es p ≡ true) ↔ ((e : Bytes) × IsIn e es × Holds (to_lower e) p)
any_one-IsIn [] p = (λ h. absurd (ground arith), λ (e, i, h). absurd i)
any_one-IsIn (e ∷ es) p = (
  λ h. elim (Bool-cases (one (to_lower e) p)) [
    | inl here ↦ (e, inl refl, (one-Holds (to_lower e) p).0 here)
    | inr other ↦ let (x, i, g) = (any_one-IsIn es p).0 (ground arith) in (x, inr i, g)
  ],
  λ (x, i, g). elim i [
    | inl same ↦
        let here : one (to_lower e) p ≡ true =
          (one-Holds (to_lower e) p).1 (subst (λ y. Holds (to_lower y) p) (sym same) g) in
        ground arith
    | inr there ↦
        let rest : any_one es p ≡ true = (any_one-IsIn es p).1 (x, there, g) in ground arith
  ],
)

if_false : (t : Bool) (x y : Bool) → t ≡ false → (if t then x else y) ≡ y
if_false true x y h = absurd (ground arith)
if_false false x y h = refl

has_name-cons :
    (c : CompiledList) (b : ℕ) (s : Bytes) → has_name c (b ∷ s) ≡ listed c (plain_name (b ∷ s))
unfolding has_name
has_name-cons c b s =
    let e : (length (b ∷ s) == 0) ≡ false = ground arith in if_false (length (b ∷ s) == 0) _ _ e

or_false : (b : Bool) → (b || false) ≡ b
or_false b = ground arith

-- A compiled list of a kind whose entries are names (neither ip nor dynamic) holds a name exactly
-- when the name is not empty and some entry of the list, in lower case, holds it: "*.rest" holds
-- the longer names that end in ".rest", any other entry the name itself, where the name's trailing
-- dot and its case do not count.
pub has_name-compile_list :
    (texts : Texts) (l : NamedList) (s : Bytes)
    → NamesOnly l.kind
    → (has_name (compile_list texts l) s ≡ true)
      ↔ ((s ≢ []) × (e : Bytes) × IsIn e l.entries × Holds (to_lower e) (plain_name s))
unfolding has_name compile_list is_member is_under
has_name-compile_list texts l [] h = (λ g. absurd (ground arith), λ g. absurd (g.0 refl))
has_name-compile_list texts l (b ∷ s) h =
    let p = plain_name (b ∷ s) in
    let same : has_name (compile_list texts l) (b ∷ s) ≡ any_one l.entries p =
      has_name-cons (compile_list texts l) b s
      ∙ listed-add_entries texts l.kind l.entries p (empty_list l) h
      ∙ or_false (any_one l.entries p) in
    let any = any_one-IsIn l.entries p in
    (
      λ g. let (e, i, holds) = any.0 (sym same ∙ g) in ((λ e. ground arith), e, i, holds),
      λ g. same ∙ any.1 (g.1, g.2, g.3),
    )
