-- ===== src/Sandbox/Machine.antt =====
-- The kernel's interpreter of a seccomp filter, as far as the filter uses it: a parameter, with what
-- is documented of each instruction on a little-endian machine.
use Prim.Native.Nat.{bit_and}
use bound_gate_vpn.Prelude.{
  ℕ, ◌%◌, ◌^◌, ◌≡◌, ◌<◌, Bool, not, Option, some, leb, ◌==◌, if◌then◌else◌, List, ◌∷◌, drop,
}
use bound_gate_vpn.Sandbox.{
  Cond, jump_equal, jump_greater_or_equal, jump_bits_set, Instruction, load_absolute, jump_if,
  ret_constant, off_nr, off_arch, arg_low,
}

-- struct seccomp_data: the number, the architecture, and the arguments as 64-bit values.
pub record Call : Type 0 where
  pub nr : ℕ
  pub arch : ℕ
  pub arg : ℕ → ℕ

abbrev pub has_bits : ℕ → ℕ → Bool
has_bits a v = not (bit_and a v == 0)

abbrev pub holds : Cond → ℕ → ℕ → Bool
holds jump_equal a v = a == v
holds jump_greater_or_equal a v = leb v a
holds jump_bits_set a v = has_bits a v

-- The low half of an argument.
abbrev pub low : Call → ℕ → ℕ
low c i = c.arg i % 2 ^ 32

-- `run c p a` is what the program `p` answers to the call from an accumulator `a` on.
pub record Machine : Type 0 where
  pub run : Call → List Instruction → ℕ → Option ℕ
  pub run_ret :
      (c : Call) (v : ℕ) (p : List Instruction) (a : ℕ) → run c (ret_constant v ∷ p) a ≡ some v
  pub run_nr :
      (c : Call) (p : List Instruction) (a : ℕ)
      → run c (load_absolute off_nr 4 ∷ p) a ≡ run c p c.nr
  pub run_arch :
      (c : Call) (p : List Instruction) (a : ℕ)
      → run c (load_absolute off_arch 4 ∷ p) a ≡ run c p c.arch
  pub run_arg :
      (c : Call) (i : ℕ) (p : List Instruction) (a : ℕ)
      → i < 6
      → run c (load_absolute (arg_low i) 4 ∷ p) a ≡ run c p (low c i)
  pub run_jump :
      (c : Call) (k : Cond) (v yes_skip no_skip : ℕ) (p : List Instruction) (a : ℕ)
      → run c (jump_if k v yes_skip no_skip ∷ p) a
        ≡ run c (drop (if holds k a v then yes_skip else no_skip) p) a
