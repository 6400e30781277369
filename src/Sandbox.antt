-- ===== src/Sandbox.antt =====
-- internal/sandbox/filter.go: the seccomp filter that the node puts on itself. The instructions are
-- those of golang.org/x/net/bpf; what the kernel does with them is a parameter (Sandbox.Machine).
pub mod Machine
pub mod Blocks
pub mod Policy
pub mod Agreement
use Prim.Native.Nat.{bit_and}
use bound_gate_vpn.Prelude.{
  ℕ, suc, ◌+◌, ◌-◌, ◌*◌, ◌%◌, Bool, true, false, not, ◌&&◌, ◌||◌, Option, none, some, ltb, leb,
  ◌==◌, if◌then◌else◌, List, [], ◌∷◌, ◌++◌, length,
}

pub data Cond : Type 0 where
  jump_equal jump_greater_or_equal jump_bits_set : Cond

-- LoadAbsolute, JumpIf and RetConstant
pub data Instruction : Type 0 where
  load_absolute : ℕ → ℕ → Instruction
  jump_if : Cond → ℕ → ℕ → ℕ → Instruction
  ret_constant : ℕ → Instruction

abbrev pub off_nr : ℕ
off_nr = 0

abbrev pub off_arch : ℕ
off_arch = 4

abbrev pub off_args : ℕ
off_args = 16

-- argLow
abbrev pub arg_low : ℕ → ℕ
arg_low i = off_args + 8 * i

abbrev pub ret_kill : ℕ
ret_kill = 0x80000000

abbrev pub ret_errno : ℕ
ret_errno = 0x00050000

abbrev pub ret_log : ℕ
ret_log = 0x7ffc0000

abbrev pub ret_allow : ℕ
ret_allow = 0x7fff0000

-- rules
pub record Rules : Type 0 where
  pub arch : ℕ
  pub limit : ℕ
  pub pid : ℕ
  pub kill : List ℕ
  pub allow : List ℕ
  pub clone : ℕ
  pub socket : ℕ
  pub ioctl : ℕ
  pub prctl : ℕ
  pub signal : List ℕ
  pub no_exec : List ℕ
  pub unix : ℕ
  pub inet : List ℕ
  pub protocols : List ℕ
  pub netlink : ℕ
  pub requests : List ℕ
  pub options : List ℕ

abbrev pub clone_thread : ℕ
clone_thread = 0x00010000

abbrev pub prot_exec : ℕ
prot_exec = 4

abbrev pub err_eperm : ℕ
err_eperm = 1

abbrev pub err_enotty : ℕ
err_enotty = 25

abbrev pub err_enosys : ℕ
err_enosys = 38

abbrev pub err_eprotonosupport : ℕ
err_eprotonosupport = 93

abbrev pub err_eafnosupport : ℕ
err_eafnosupport = 97

-- What `refuse` returns; the low 16 bits of retErrno are free for the error.
abbrev pub refusal : Bool → ℕ → ℕ
refusal audit errno = if audit then ret_log else ret_errno + errno

abbrev pub refuse : Bool → ℕ → Instruction
refuse audit errno = ret_constant (refusal audit errno)

-- What `exec` returns
abbrev pub exec_value : Bool → ℕ
exec_value audit = if audit then ret_log else ret_kill

-- is: a skip is a uint8.
unfoldable pub is_call : ℕ → List Instruction → List Instruction
is_call nr block = jump_if jump_equal nr 0 (length block % 256) ∷ block

-- The jumps of oneOf: the i-th of n goes over the n - i instructions behind it.
unfoldable pub jumps : List ℕ → List Instruction
jumps [] = []
jumps (v ∷ vs) = jump_if jump_equal v (suc (length vs) % 256) 0 ∷ jumps vs

-- oneOf
unfoldable pub one_of : ℕ → List ℕ → Instruction → List Instruction
one_of off vals refusing =
    load_absolute off 4 ∷ (jumps vals ++ refusing ∷ ret_constant ret_allow ∷ [])

-- The blocks of a loop, one behind the other.
unfoldable pub blocks : (ℕ → List Instruction) → List ℕ → List Instruction
blocks block [] = []
blocks block (nr ∷ nrs) = is_call nr (block nr) ++ blocks block nrs

abbrev pub kill_block : ℕ → List Instruction
kill_block nr = ret_constant ret_kill ∷ []

abbrev pub allow_block : ℕ → List Instruction
allow_block nr = ret_constant ret_allow ∷ []

abbrev pub exec_block : Bool → ℕ → List Instruction
exec_block audit nr =
    load_absolute (arg_low 2) 4
    ∷ jump_if jump_bits_set prot_exec 0 1
    ∷ ret_constant (exec_value audit)
    ∷ ret_constant ret_allow
    ∷ []

abbrev pub clone_block : Bool → List Instruction
clone_block audit =
    load_absolute (arg_low 0) 4
    ∷ jump_if jump_bits_set clone_thread 1 0
    ∷ refuse audit err_eperm
    ∷ ret_constant ret_allow
    ∷ []

abbrev pub signal_block : Bool → Rules → ℕ → List Instruction
signal_block audit r nr = one_of (arg_low 0) (r.pid ∷ []) (refuse audit err_eperm)

abbrev pub inet_block : Bool → Rules → ℕ → List Instruction
inet_block audit r f = one_of (arg_low 2) r.protocols (refuse audit err_eprotonosupport)

-- sock
unfoldable pub socket_block : Bool → Rules → List Instruction
socket_block audit r =
    load_absolute (arg_low 0) 4
    ∷ (is_call r.unix (ret_constant ret_allow ∷ [])
        ++ (blocks (inet_block audit r) r.inet
            ++ (is_call r.netlink (one_of (arg_low 2) (0 ∷ []) (refuse audit err_eafnosupport))
                ++ refuse audit err_eafnosupport ∷ [])))

abbrev pub limit_block : Rules → List Instruction
limit_block r =
    if ltb 0 r.limit
    then jump_if jump_greater_or_equal r.limit 0 1 ∷ ret_constant ret_kill ∷ []
    else []

-- assemble, from the first test of the number on
unfoldable pub call_tests : Bool → Rules → List Instruction
call_tests audit r =
    blocks kill_block r.kill
    ++ (blocks (exec_block audit) r.no_exec
        ++ (blocks allow_block r.allow
            ++ (is_call r.clone (clone_block audit)
                ++ (blocks (signal_block audit r) r.signal
                    ++ (is_call r.socket (socket_block audit r)
                        ++ (is_call r.ioctl
                              (one_of (arg_low 1) r.requests (refuse audit err_enotty))
                            ++ (is_call r.prctl
                                  (one_of (arg_low 0) r.options (refuse audit err_eperm))
                                ++ refuse audit err_enosys ∷ [])))))))

-- assemble
unfoldable pub assemble : Bool → Rules → List Instruction
assemble audit r =
    load_absolute off_arch 4
    ∷ jump_if jump_equal r.arch 1 0
    ∷ ret_constant ret_kill
    ∷ load_absolute off_nr 4
    ∷ (limit_block r ++ call_tests audit r)

-- check: true for no error
unfoldable pub check : Rules → Bool
check r =
    not (ltb 200 (length r.protocols))
    && not (ltb 200 (length r.requests))
    && not (ltb 200 (length r.options))

-- count
unfoldable pub count : Rules → ℕ
count r = length r.allow + length r.no_exec + length r.signal + 4
