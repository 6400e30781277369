-- ===== src/Sandbox/Agreement.antt =====
-- The assembled filter answers every call as the policy says.
use bound_gate_vpn.Prelude.{
  ℕ, ◌+◌, ◌≡◌, ◌<◌, ◌≤◌, refl, ◌∙◌, arith, Bool, true, false, ◌&&◌, Option, some, leb, ltb, ◌==◌,
  if◌then◌else◌, List, [], ◌∷◌, ◌++◌, length, length-append, append_assoc, append-nil, Bool-cases,
  inl, inr,
}
use bound_gate_vpn.Sandbox.{
  jump_equal, jump_greater_or_equal, jump_bits_set, Instruction, ret_constant, arg_low, is_call,
  jumps, one_of, blocks, ret_allow, ret_kill, Rules, socket_block, call_tests, assemble,
  limit_block, kill_block, allow_block, exec_block, clone_block, signal_block, inet_block, refuse,
  refusal, check, prot_exec, clone_thread, err_eperm, err_enotty, err_enosys, err_eprotonosupport,
  err_eafnosupport,
}
use bound_gate_vpn.Sandbox.Machine.{Call, Machine, low, has_bits}
use bound_gate_vpn.Sandbox.Blocks.{
  contains_nr, Answers, ret-Answers, run-is_call, one_of-Answers, run-blocks,
}
use bound_gate_vpn.Sandbox.Policy.{
  listed, exec_verdict, clone_verdict, socket_verdict, number_verdict, verdict,
}

length-jumps : (vals : List ℕ) → length (jumps vals) ≡ length vals
unfolding jumps
length-jumps [] = refl
length-jumps (v ∷ vals) = omega (arith, length-jumps vals)

length-one_of :
    (off : ℕ) (vals : List ℕ) (i : Instruction) → length (one_of off vals i) ≡ length vals + 3
unfolding one_of
length-one_of off vals i =
    omega (arith, length-jumps vals, length-append (jumps vals) (i ∷ ret_constant ret_allow ∷ []))

module _ (m : Machine) (c : Call) where
  if-some :
      (b : Bool) (u v : ℕ) (o : Option ℕ)
      → o ≡ some v
      → (if b then some u else o) ≡ some (if b then u else v)
  if-some true u v o h = refl
  if-some false u v o h = h

  exec-Answers :
      (audit : Bool) (nr a : ℕ) → Answers m c (exec_block audit nr) a (exec_verdict audit c)
  exec-Answers audit nr a rest =
      m.run_arg c 2 _ a (omega arith)
      ∙ m.run_jump c jump_bits_set prot_exec 0 1 _ (low c 2)
      ∙ elim (Bool-cases (has_bits (low c 2) prot_exec)) [
        | inl set ↦ rw set (m.run_ret c _ _ _)
        | inr clear ↦ rw clear (m.run_ret c _ _ _)
      ]

  clone-Answers : (audit : Bool) (a : ℕ) → Answers m c (clone_block audit) a (clone_verdict audit c)
  clone-Answers audit a rest =
      m.run_arg c 0 _ a (omega arith)
      ∙ m.run_jump c jump_bits_set clone_thread 1 0 _ (low c 0)
      ∙ elim (Bool-cases (has_bits (low c 0) clone_thread)) [
        | inl set ↦ rw set (m.run_ret c _ _ _)
        | inr clear ↦ rw clear (m.run_ret c _ _ _)
      ]

  listed-Answers :
      (audit : Bool) (i : ℕ) (vals : List ℕ) (a errno : ℕ)
      → i < 6
      → length vals ≤ 200
      → Answers m c
          (one_of (arg_low i) vals (refuse audit errno))
          a
          (listed audit vals (low c i) errno)
  listed-Answers audit i vals a errno arg small =
      one_of-Answers m c i vals (refusal audit errno) a arg (omega arith)

  -- One test behind another.
  call-Answers :
      (nr : ℕ) (block p : List Instruction) (a u v : ℕ)
      → length block < 256
      → Answers m c block a u
      → Answers m c p a v
      → Answers m c (is_call nr block ++ p) a (if a == nr then u else v)
  call-Answers nr block p a u v small hit miss rest =
      rw (append_assoc (is_call nr block) p rest)
        (run-is_call m c nr block (p ++ rest) a u small hit ∙ if-some (a == nr) u v _ (miss rest))

  blocks-Answers :
      (block : ℕ → List Instruction) (nrs : List ℕ) (p : List Instruction) (a u v : ℕ)
      → ((nr : ℕ) → length (block nr) < 256)
      → ((nr : ℕ) → Answers m c (block nr) a u)
      → Answers m c p a v
      → Answers m c (blocks block nrs ++ p) a (if contains_nr nrs a then u else v)
  blocks-Answers block nrs p a u v small hit miss rest =
      rw (append_assoc (blocks block nrs) p rest) (
        run-blocks m c block nrs (p ++ rest) a u small hit
        ∙ if-some (contains_nr nrs a) u v _ (miss rest))

  -- A list of arguments that `check` accepts fits in one jump.
  fits :
      (off : ℕ) (vals : List ℕ) (i : Instruction)
      → length vals ≤ 200
      → length (one_of off vals i) < 256
  fits off vals i small = omega (arith, length-one_of off vals i)

  families-Answers :
      (audit : Bool) (r : Rules)
      → length r.protocols ≤ 200
      → Answers m c
          (is_call r.unix (ret_constant ret_allow ∷ [])
            ++ (blocks (inet_block audit r) r.inet
                ++ (is_call r.netlink (one_of (arg_low 2) (0 ∷ []) (refuse audit err_eafnosupport))
                    ++ refuse audit err_eafnosupport ∷ [])))
          (low c 0)
          (socket_verdict audit r c)
  families-Answers audit r small =
      call-Answers r.unix _ _ (low c 0) _ _ (omega arith) (ret-Answers m c (low c 0) ret_allow) (
        blocks-Answers (inet_block audit r) r.inet _ (low c 0) _ _
          (λ f. fits (arg_low 2) r.protocols (refuse audit err_eprotonosupport) small)
          (λ f.
            listed-Answers audit 2 r.protocols (low c 0) err_eprotonosupport (omega arith) small)
          (call-Answers r.netlink _ _ (low c 0) _ _
            (fits (arg_low 2) (0 ∷ []) (refuse audit err_eafnosupport) (omega arith))
            (listed-Answers audit 2 (0 ∷ []) (low c 0) err_eafnosupport (omega arith) (omega arith))
            (ret-Answers m c (low c 0) (refusal audit err_eafnosupport))))

  socket-Answers :
      (audit : Bool) (r : Rules) (a : ℕ)
      → length r.protocols ≤ 200
      → Answers m c (socket_block audit r) a (socket_verdict audit r c)
  unfolding socket_block
  socket-Answers audit r a small rest =
      m.run_arg c 0 _ a (omega arith) ∙ families-Answers audit r small rest

  tests-Answers :
      (audit : Bool) (r : Rules)
      → check r ≡ true
      → length (socket_block audit r) < 256
      → Answers m c (call_tests audit r) c.nr (number_verdict audit r c)
  unfolding call_tests check
  tests-Answers audit r ok fits_socket =
      let protocols : length r.protocols ≤ 200 = ground arith in
      let requests : length r.requests ≤ 200 = ground arith in
      let options : length r.options ≤ 200 = ground arith in
      blocks-Answers kill_block r.kill _ c.nr _ _ (λ n. omega arith)
        (λ n. ret-Answers m c c.nr ret_kill)
        (blocks-Answers (exec_block audit) r.no_exec _ c.nr _ _ (λ n. omega arith)
          (λ n. exec-Answers audit n c.nr)
          (blocks-Answers allow_block r.allow _ c.nr _ _ (λ n. omega arith)
            (λ n. ret-Answers m c c.nr ret_allow)
            (call-Answers r.clone _ _ c.nr _ _ (omega arith) (clone-Answers audit c.nr) (
              blocks-Answers (signal_block audit r) r.signal _ c.nr _ _
                (λ n. fits (arg_low 0) (r.pid ∷ []) (refuse audit err_eperm) (omega arith))
                (λ n.
                  listed-Answers audit 0 (r.pid ∷ []) c.nr err_eperm (omega arith) (omega arith))
                (call-Answers r.socket _ _ c.nr _ _ fits_socket
                  (socket-Answers audit r c.nr protocols)
                  (call-Answers r.ioctl _ _ c.nr _ _
                    (fits (arg_low 1) r.requests (refuse audit err_enotty) requests)
                    (listed-Answers audit 1 r.requests c.nr err_enotty (omega arith) requests)
                    (call-Answers r.prctl _ _ c.nr _ _
                      (fits (arg_low 0) r.options (refuse audit err_eperm) options)
                      (listed-Answers audit 0 r.options c.nr err_eperm (omega arith) options)
                      (ret-Answers m c c.nr (refusal audit err_enosys)))))))))

  limited :
      (r : Rules) (p : List Instruction) (v : ℕ)
      → m.run c p c.nr ≡ some v
      → m.run c (limit_block r ++ p) c.nr
        ≡ some (if ltb 0 r.limit && leb r.limit c.nr then ret_kill else v)
  limited r p v h = elim (Bool-cases (ltb 0 r.limit)) [
    | inr off ↦ rw off h
    | inl on ↦ rw on (
        m.run_jump c jump_greater_or_equal r.limit 0 1 _ c.nr
        ∙ elim (Bool-cases (leb r.limit c.nr)) [
          | inl over ↦ rw over (m.run_ret c ret_kill _ _)
          | inr under ↦ rw under h
        ])
  ]

  -- The filter answers every call, in both modes and from any accumulator, exactly as the policy
  -- says, for every kernel that interprets the instructions as documented: when `check` accepts the
  -- rules and the block of the socket call fits in one jump.
  pub run-assemble :
      (audit : Bool) (r : Rules) (a : ℕ)
      → check r ≡ true
      → length (socket_block audit r) < 256
      → m.run c (assemble audit r) a ≡ some (verdict audit r c)
  unfolding assemble
  run-assemble audit r a ok fits_socket =
      let tests : m.run c (limit_block r ++ call_tests audit r) c.nr ≡ _ =
        limited r (call_tests audit r) (number_verdict audit r c)
          (rw⁻¹ (append-nil (call_tests audit r)) (tests-Answers audit r ok fits_socket [])) in
      m.run_arch c _ a
      ∙ m.run_jump c jump_equal r.arch 1 0 _ c.arch
      ∙ elim (Bool-cases (c.arch == r.arch)) [
        | inl ours ↦ rw ours (m.run_nr c _ _ ∙ tests)
        | inr other ↦ rw other (m.run_ret c ret_kill _ _)
      ]
