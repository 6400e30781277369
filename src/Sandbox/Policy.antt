-- ===== src/Sandbox/Policy.antt =====
-- What the filter is for, said of the call and not of the program: the answer to each system call.
use bound_gate_vpn.Prelude.{ℕ, Bool, not, ◌&&◌, leb, ltb, ◌==◌, if◌then◌else◌, List, [], ◌∷◌}
use bound_gate_vpn.Sandbox.{
  Rules, refusal, exec_value, ret_kill, ret_allow, prot_exec, clone_thread, err_eperm, err_enotty,
  err_enosys, err_eprotonosupport, err_eafnosupport,
}
use bound_gate_vpn.Sandbox.Machine.{Call, low, has_bits}
use bound_gate_vpn.Sandbox.Blocks.{contains_nr}

-- An argument is one of the values, or the call is refused.
abbrev pub listed : Bool → List ℕ → ℕ → ℕ → ℕ
listed audit vals a errno = if contains_nr vals a then ret_allow else refusal audit errno

abbrev pub exec_verdict : Bool → Call → ℕ
exec_verdict audit c = if has_bits (low c 2) prot_exec then exec_value audit else ret_allow

abbrev pub clone_verdict : Bool → Call → ℕ
clone_verdict audit c =
    if has_bits (low c 0) clone_thread then ret_allow else refusal audit err_eperm

abbrev pub socket_verdict : Bool → Rules → Call → ℕ
socket_verdict audit r c =
    if low c 0 == r.unix
    then ret_allow
    else if contains_nr r.inet (low c 0)
    then listed audit r.protocols (low c 2) err_eprotonosupport
    else if low c 0 == r.netlink
    then listed audit (0 ∷ []) (low c 2) err_eafnosupport
    else refusal audit err_eafnosupport

-- The answer by the call's number, the first rule that names it.
abbrev pub number_verdict : Bool → Rules → Call → ℕ
number_verdict audit r c =
    if contains_nr r.kill c.nr
    then ret_kill
    else if contains_nr r.no_exec c.nr
    then exec_verdict audit c
    else if contains_nr r.allow c.nr
    then ret_allow
    else if c.nr == r.clone
    then clone_verdict audit c
    else if contains_nr r.signal c.nr
    then listed audit (r.pid ∷ []) (low c 0) err_eperm
    else if c.nr == r.socket
    then socket_verdict audit r c
    else if c.nr == r.ioctl
    then listed audit r.requests (low c 1) err_enotty
    else if c.nr == r.prctl
    then listed audit r.options (low c 0) err_eperm
    else refusal audit err_enosys

abbrev pub verdict : Bool → Rules → Call → ℕ
verdict audit r c =
    if not (c.arch == r.arch)
    then ret_kill
    else if ltb 0 r.limit && leb r.limit c.nr
    then ret_kill
    else number_verdict audit r c
