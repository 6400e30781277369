-- ===== src/Tests/Filters.antt =====
-- A filter interpreter, and one call that the filter decides.
use bound_gate_vpn.Prelude.{
  ℕ, zero, suc, ◌-◌, ◌/◌, ◌≡◌, ◌<◌, refl, arith, true, false, Option, none, some, ◌==◌,
  if◌then◌else◌, List, [], ◌∷◌, length, drop,
}
use bound_gate_vpn.Sandbox.{
  Instruction, load_absolute, jump_if, ret_constant, arg_low, Rules, assemble, check, socket_block,
  is_call, blocks, one_of, jumps,
}
use bound_gate_vpn.Sandbox.Machine.{Call, holds, low, Machine}
use bound_gate_vpn.Sandbox.Policy.{verdict}
use bound_gate_vpn.Sandbox.Agreement.{run-assemble}

abbrev word_at : Call → ℕ → ℕ
word_at c off = if off == 0 then c.nr else if off == 4 then c.arch else low c ((off - 16) / 8)

-- The instructions that are left, how many of them to skip, and the accumulator.
abbrev interpret : Call → List Instruction → ℕ → ℕ → Option ℕ
interpret c [] k a = none
interpret c (i ∷ p) (suc k) a = interpret c p k a
interpret c (load_absolute off n ∷ p) zero a = interpret c p 0 (word_at c off)
interpret c (jump_if k v y n ∷ p) zero a = interpret c p (if holds k a v then y else n) a
interpret c (ret_constant v ∷ p) zero a = some v

interpret-drop :
    (c : Call) (p : List Instruction) (k a : ℕ) → interpret c p k a ≡ interpret c (drop k p) 0 a
interpret-drop c [] zero a = refl
interpret-drop c [] (suc k) a = refl
interpret-drop c (i ∷ p) zero a = refl
interpret-drop c (i ∷ p) (suc k) a = interpret-drop c p k a

word_at-arg : (c : Call) (i : ℕ) → word_at c (arg_low i) ≡ low c i
word_at-arg c i =
    let place : (arg_low i - 16) / 8 ≡ i = omega arith in
    let first : (arg_low i == 0) ≡ false = ground arith in
    let second : (arg_low i == 4) ≡ false = ground arith in rw (first, second, place) refl

abbrev kernel : Machine
kernel = record {
  run = λ c p a. interpret c p 0 a;
  run_ret = λ c v p a. refl;
  run_nr = λ c p a. refl;
  run_arch = λ c p a. refl;
  run_arg = λ c i p a h. rw (word_at-arg c i) refl;
  run_jump = λ c k v y n p a. interpret-drop c p (if holds k a v then y else n) a;
}

-- Rules with one number of each kind.
abbrev small_rules : Rules
small_rules = record {
  arch = 7;
  limit = 1000;
  pid = 42;
  kill = 1 ∷ [];
  allow = 2 ∷ 3 ∷ [];
  clone = 4;
  socket = 5;
  ioctl = 6;
  prctl = 8;
  signal = 9 ∷ [];
  no_exec = 10 ∷ [];
  unix = 1;
  inet = 2 ∷ 10 ∷ [];
  protocols = 0 ∷ 6 ∷ 17 ∷ [];
  netlink = 16;
  requests = 21 ∷ [];
  options = 22 ∷ [];
}

-- socket(AF_INET6, _, IPPROTO_UDP)
abbrev socket_call : Call
socket_call = record {
  nr = 5;
  arch = 7;
  arg = λ i. if i == 0 then 10 else if i == 2 then 17 else 0;
}

small_rules-fit : length (socket_block false small_rules) < 256
unfolding socket_block is_call blocks one_of jumps
small_rules-fit = omega arith

small_rules-check : check small_rules ≡ true
unfolding check
small_rules-check = refl

run-assemble_example :
    kernel.run socket_call (assemble false small_rules) 0
    ≡ some (verdict false small_rules socket_call)
run-assemble_example =
    run-assemble kernel socket_call false small_rules 0 small_rules-check small_rules-fit
