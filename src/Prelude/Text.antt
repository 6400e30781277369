-- ===== src/Prelude/Text.antt =====
-- Go's strings and strconv on ASCII text.
use bound_gate_vpn.Prelude.Tests.{ltb, leb, ◌==◌, if◌then◌else◌}
use bound_gate_vpn.Prelude.Lists.{Bytes, length, same_bytes, take, drop}
use Prim.Native.Nat.{ℕ, zero, suc, ◌+◌, ◌-◌, ◌*◌, ◌/◌, ◌%◌}
use mathlib.Core.Bool.{Bool, true, false, ◌&&◌, ◌||◌}
use mathlib.Core.List.{List, [], ◌∷◌, ◌++◌, map}
use mathlib.Core.Option.{Option, none, some}

abbrev pub lower_byte : ℕ → ℕ
lower_byte c = if leb b'A' c && leb c b'Z' then c + 32 else c

-- strings.ToLower
abbrev pub to_lower : Bytes → Bytes
to_lower s = map lower_byte s

-- strings.CutPrefix: what follows the prefix
abbrev pub cut_prefix : Bytes → Bytes → Option Bytes
cut_prefix [] s = some s
cut_prefix (p ∷ ps) [] = none
cut_prefix (p ∷ ps) (c ∷ s) = let rest = cut_prefix ps s in if p == c then rest else none

abbrev pub has_prefix : Bytes → Bytes → Bool
has_prefix p s = elim (cut_prefix p s) [ none ↦ false | some rest ↦ true ]

-- strings.HasSuffix
abbrev pub has_suffix : Bytes → Bytes → Bool
has_suffix s u = leb (length u) (length s) && same_bytes (drop (length s - length u) s) u

-- strings.TrimSuffix
abbrev pub trim_suffix : Bytes → Bytes → Bytes
trim_suffix s u = if has_suffix s u then take (length s - length u) s else s

-- bytes.Contains
abbrev pub has_text : Bytes → Bytes → Bool
has_text p [] = has_prefix p []
has_text p (c ∷ s) = has_prefix p (c ∷ s) || has_text p s

-- strings.Cut and strings.IndexByte at one byte: what stands before and behind it
abbrev pub cut_at : ℕ → Bytes → Option (Bytes × Bytes)
cut_at b [] = none
cut_at b (c ∷ s) =
    let rest = cut_at b s in
    if c == b then some ([], s) else elim rest [ none ↦ none | some (x, y) ↦ some (c ∷ x, y) ]

-- The same at the last such byte.
abbrev pub cut_last : ℕ → Bytes → Option (Bytes × Bytes)
cut_last b [] = none
cut_last b (c ∷ s) = elim (cut_last b s) [
  | some (x, y) ↦ some (c ∷ x, y)
  | none ↦ if c == b then some ([], s) else none
]

abbrev pub has_byte : ℕ → Bytes → Bool
has_byte b [] = false
has_byte b (c ∷ s) = c == b || has_byte b s

-- The order of Go's strings.
abbrev pub text_less : Bytes → Bytes → Bool
text_less s [] = false
text_less [] (d ∷ t) = true
text_less (c ∷ s) (d ∷ t) = ltb c d || c == d && text_less s t

abbrev pub put_text : Bytes → List Bytes → List Bytes
put_text s [] = s ∷ []
put_text s (t ∷ ts) = let rest = put_text s ts in if text_less t s then t ∷ rest else s ∷ t ∷ ts

-- sort.Strings
abbrev pub sort_texts : List Bytes → List Bytes
sort_texts [] = []
sort_texts (s ∷ ss) = put_text s (sort_texts ss)

abbrev pub is_space : ℕ → Bool
is_space c = c == 32 || leb 9 c && leb c 13

abbrev pub trim_left : Bytes → Bytes
trim_left [] = []
trim_left (c ∷ s) = let rest = trim_left s in if is_space c then rest else c ∷ s

abbrev pub trim_right : Bytes → Bytes
trim_right [] = []
trim_right (c ∷ s) = elim (trim_right s) [
  | [] ↦ if is_space c then [] else c ∷ []
  | ◌∷◌ d t ↦ c ∷ d ∷ t
]

-- strings.TrimSpace
abbrev pub trim_space : Bytes → Bytes
trim_space s = trim_right (trim_left s)

abbrev pub is_digit : ℕ → Bool
is_digit c = leb b'0' c && leb c b'9'

abbrev pub read_digits : ℕ → Bytes → Option ℕ
read_digits acc [] = some acc
read_digits acc (c ∷ s) =
    let rest = read_digits (acc * 10 + (c - b'0')) s in if is_digit c then rest else none

abbrev pub read_number : Bytes → Option ℕ
read_number [] = none
read_number (c ∷ s) = read_digits 0 (c ∷ s)

-- strconv.Atoi for a caller that refuses what is negative or large: `none` is an error or negative.
abbrev pub atoi : Bytes → Option ℕ
atoi [] = none
atoi (c ∷ s) = if c == b'+' then read_number s else read_number (c ∷ s)

-- The digits of a number, with fuel for each of them.
abbrev pub digits : ℕ → ℕ → Bytes
digits zero n = []
digits (suc fuel) n =
    let rest = digits fuel (n / 10) in
    if ltb n 10 then (b'0' + n) ∷ [] else rest ++ (b'0' + n % 10) ∷ []

-- strconv.Itoa
abbrev pub itoa : ℕ → Bytes
itoa n = digits (suc n) n
