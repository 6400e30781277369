-- ===== src/Prelude/Runs.antt =====
-- Code that may stop with a runtime panic: an index or a slice bound out of range. Slices are
-- checked against the length (Go checks an upper bound against the capacity, which is no less).
use Prim.Native.Nat.{ℕ, ◌+◌, ◌-◌, ◌*◌, ◌≤◌}
use mathlib.Core.Path.{◌≡◌}
use mathlib.Core.Bool.{◌&&◌}
use native.Mathlib.Omega.{arith}
use bound_gate_vpn.Prelude.Tests.{ltb, leb, if◌then◌else◌}
use bound_gate_vpn.Prelude.Lists.{Bytes, length, get_or, take, drop, length-take, length-drop}

pub data Run {ℓ} (A : Type ℓ) : Type ℓ where
  done : A → Run A
  panic : Run A

infixl 5 ◌>>=◌
abbrev pub ◌>>=◌ {ℓ κ} : {A : Type ℓ} {B : Type κ} → Run A → (A → Run B) → Run B
done a >>= f = f a
panic >>= f = panic

-- The value of a run, where it is proved that it does not panic.
abbrev pub value_or {ℓ} : {A : Type ℓ} → A → Run A → A
value_or d (done a) = a
value_or d panic = d

-- b[i]
abbrev pub byte_at : Bytes → ℕ → Run ℕ
byte_at b i = if ltb i (length b) then done (get_or b i 0) else panic

-- binary.BigEndian.Uint16(b[i:]), Uint32
abbrev pub u16_at : Bytes → ℕ → Run ℕ
u16_at b i =
    if leb (i + 2) (length b) then done (get_or b i 0 * 256 + get_or b (i + 1) 0) else panic

abbrev pub u32_at : Bytes → ℕ → Run ℕ
u32_at b i =
    if leb (i + 4) (length b)
    then done (
        ((get_or b i 0 * 256 + get_or b (i + 1) 0) * 256 + get_or b (i + 2) 0) * 256
        + get_or b (i + 3) 0)
    else panic

-- b[i:]
abbrev pub from_at : Bytes → ℕ → Run Bytes
from_at b i = if leb i (length b) then done (drop i b) else panic

-- b[i:j]
abbrev pub slice_at : Bytes → ℕ → ℕ → Run Bytes
slice_at b i j = if leb i j && leb j (length b) then done (take (j - i) (drop i b)) else panic

pub length-slice :
    (b : Bytes) (i j : ℕ) → i ≤ j → j ≤ length b → length (take (j - i) (drop i b)) ≡ j - i
length-slice b i j p q = omega (arith, length-take {0} (j - i) (drop i b), length-drop {0} i b)

-- The run does not panic, and its value satisfies the predicate.
abbrev pub Holds {ℓ} : {A : Type ℓ} → (A → Type 0) → Run A → Type 0
Holds P (done a) = P a
Holds P panic = ⊥

pub Holds-bind {ℓ κ} :
    {A : Type ℓ} {B : Type κ} (P : A → Type 0) (Q : B → Type 0) (m : Run A) (f : A → Run B)
    → Holds P m
    → ((a : A) → P a → Holds Q (f a))
    → Holds Q (m >>= f)
Holds-bind P Q (done a) f h k = k a h
Holds-bind P Q panic f h k = absurd h

pub Holds-map {ℓ} :
    {A : Type ℓ} (P Q : A → Type 0) (m : Run A) → Holds P m → ((a : A) → P a → Q a) → Holds Q m
Holds-map P Q (done a) h k = k a h
Holds-map P Q panic h k = absurd h
