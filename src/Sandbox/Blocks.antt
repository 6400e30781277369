-- ===== src/Sandbox/Blocks.antt =====
-- What the building blocks of the filter do.
use bound_gate_vpn.Prelude.{
  ℕ, suc, ◌%◌, ◌≡◌, ◌<◌, refl, ap, ◌∙◌, arith, Bool, false, ◌||◌, some, ◌==◌, if◌then◌else◌, List,
  [], ◌∷◌, ◌++◌, length, drop, append_assoc, Bool-cases, inl, inr,
}
use bound_gate_vpn.Sandbox.{
  jump_equal, Instruction, ret_constant, arg_low, is_call, jumps, one_of, blocks, ret_allow,
}
use bound_gate_vpn.Sandbox.Machine.{Call, Machine, low}

abbrev pub contains_nr : List ℕ → ℕ → Bool
contains_nr [] a = false
contains_nr (v ∷ vs) a = a == v || contains_nr vs a

drop_block : (xs ys : List Instruction) → drop (length xs) (xs ++ ys) ≡ ys
drop_block [] ys = refl
drop_block (x ∷ xs) ys = drop_block xs ys

drop-jumps :
    (vals : List ℕ) (x : Instruction) (ys : List Instruction)
    → drop (suc (length vals)) (jumps vals ++ x ∷ ys) ≡ ys
unfolding jumps
drop-jumps [] x ys = refl
drop-jumps (v ∷ vals) x ys = drop-jumps vals x ys

module _ (m : Machine) (c : Call) where
  -- A block that answers v, whatever stands behind it.
  abbrev pub Answers : List Instruction → ℕ → ℕ → Type 0
  Answers block a v = (rest : List Instruction) → m.run c (block ++ rest) a ≡ some v

  pub ret-Answers : (a v : ℕ) → Answers (ret_constant v ∷ []) a v
  ret-Answers a v rest = m.run_ret c v rest a

  pub run-is_call :
      (nr : ℕ) (block rest : List Instruction) (a v : ℕ)
      → length block < 256
      → Answers block a v
      → m.run c (is_call nr block ++ rest) a ≡ (if a == nr then some v else m.run c rest a)
  unfolding is_call
  run-is_call nr block rest a v small ans =
      let short : length block % 256 ≡ length block = omega arith in
      elim (Bool-cases (a == nr)) [
        | inl same ↦
            m.run_jump c jump_equal nr 0 (length block % 256) (block ++ rest) a
            ∙ rw (same) (ans rest)
        | inr other ↦
            m.run_jump c jump_equal nr 0 (length block % 256) (block ++ rest) a
            ∙ rw (other, short) (ap (λ p. m.run c p a) (drop_block block rest))
      ]

  run-jumps :
      (vals : List ℕ) (refused : ℕ) (rest : List Instruction) (a : ℕ)
      → length vals < 256
      → m.run c (jumps vals ++ ret_constant refused ∷ ret_constant ret_allow ∷ rest) a
        ≡ some (if contains_nr vals a then ret_allow else refused)
  unfolding jumps
  run-jumps [] refused rest a small = m.run_ret c refused (ret_constant ret_allow ∷ rest) a
  run-jumps (v ∷ vals) refused rest a small =
      let last = ret_constant refused ∷ ret_constant ret_allow ∷ rest in
      let short : suc (length vals) % 256 ≡ suc (length vals) = omega arith in
      let step = m.run_jump c jump_equal v (suc (length vals) % 256) 0 (jumps vals ++ last) a in
      elim (Bool-cases (a == v)) [
        | inl same ↦
            step
            ∙ rw (same, short)
                (rw (drop-jumps vals (ret_constant refused) (ret_constant ret_allow ∷ rest))
                  (m.run_ret c ret_allow rest a))
        | inr other ↦ step ∙ rw other (run-jumps vals refused rest a (omega arith))
      ]

  pub one_of-Answers :
      (i : ℕ) (vals : List ℕ) (refused a : ℕ)
      → i < 6
      → length vals < 256
      → Answers
          (one_of (arg_low i) vals (ret_constant refused))
          a
          (if contains_nr vals (low c i) then ret_allow else refused)
  unfolding one_of
  one_of-Answers i vals refused a arg small rest =
      m.run_arg c i _ a arg
      ∙ rw (append_assoc (jumps vals) (ret_constant refused ∷ ret_constant ret_allow ∷ []) rest)
          (run-jumps vals refused rest (low c i) small)

  pub run-blocks :
      (block : ℕ → List Instruction) (nrs : List ℕ) (rest : List Instruction) (a v : ℕ)
      → ((nr : ℕ) → length (block nr) < 256)
      → ((nr : ℕ) → Answers (block nr) a v)
      → m.run c (blocks block nrs ++ rest) a
        ≡ (if contains_nr nrs a then some v else m.run c rest a)
  unfolding blocks
  run-blocks block [] rest a v small ans = refl
  run-blocks block (nr ∷ nrs) rest a v small ans =
      let first = run-is_call nr (block nr) (blocks block nrs ++ rest) a v (small nr) (ans nr) in
      rw (append_assoc (is_call nr (block nr)) (blocks block nrs) rest)
        (elim (Bool-cases (a == nr)) [
          | inl same ↦ first ∙ rw same
          | inr other ↦ first ∙ rw other (run-blocks block nrs rest a v small ans)
        ])
