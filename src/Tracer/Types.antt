-- ===== src/Tracer/Types.antt =====
-- What src/trace/tracer.cpp shares with the kernel: constants, wait statuses, the answers to `ptrace`
-- requests; and the state of the trace loop.
use gravelbox.Base.{ℕ, ◌+◌, ◌-◌, ◌/◌, ◌%◌, ◌^◌, Bool, List, ◌==◌, if◌then◌else◌}
use gravelbox.Utils.{SyscallArgs, ArgArray, Reply}
use gravelbox.NatMap.{NatMap}

abbrev pub esrch : ℕ
esrch = 3

abbrev pub eperm : ℕ
eperm = 1

abbrev pub sigstop : ℕ
sigstop = 19

-- SIGTRAP | 0x80
abbrev pub sigtrap_syscall : ℕ
sigtrap_syscall = 5 + 0x80

abbrev pub info_entry : ℕ
info_entry = 1

abbrev pub audit_arch_i386 : ℕ
audit_arch_i386 = 0x40000003

abbrev pub audit_arch_x86_64 : ℕ
audit_arch_x86_64 = 0xc000003e

-- A negative int in an `unsigned long long` register: -n modulo 2 ^ 64.
abbrev pub minus : ℕ → ℕ
minus n = 2 ^ 64 - n

pub data ThreadStatus : Type 0 where
  userspace kernelspace_allow kernelspace_deny : ThreadStatus

-- The status that `waitpid` writes, as the macros of <sys/wait.h> read it.
pub data WaitStatus : Type 0 where
  exited : ℕ → WaitStatus
  signaled : ℕ → WaitStatus
  stopped : ℕ → WaitStatus
  other : WaitStatus

-- WIFEXITED, WEXITSTATUS, WIFSTOPPED, WSTOPSIG, WIFSIGNALED, WTERMSIG.
unfoldable pub wait_status : ℕ → WaitStatus
wait_status w =
    if w % 128 == 0
    then exited (w / 256 % 256)
    else if w % 256 == 0x7f
    then stopped (w / 256 % 256)
    else if w % 128 == 0x7f
    then other
    else signaled (w % 128)

-- The part of `ptrace_syscall_info` that the loop reads.
pub record SyscallInfo : Type 0 where
  pub op : ℕ
  pub arch : ℕ
  pub nr : ℕ
  pub args : ArgArray

-- `user_regs_struct`: the two registers that the loop writes, and the rest.
pub record Regs : Type 0 where
  pub orig_rax : ℕ
  pub rax : ℕ
  pub rest : List ℕ

-- One return of `waitpid(-1, &wstatus, 0)`, with the answers that the kernel has ready for the
-- requests which the loop may then make.
pub record Event : Type 0 where
  pub pid : ℕ
  pub wstatus : ℕ
  pub info : Reply SyscallInfo
  pub regs : Reply Regs
  pub set : Reply (Unit {0})
  pub resumed : Reply (Unit {0})

-- What was done to a tracee, or asked about it.
pub data Action : Type 0 where
  set_options : ℕ → ℕ → Action
  inspected : ℕ → Action
  decided : ℕ → SyscallArgs → Bool → Action
  read_regs : ℕ → Action
  wrote_regs : ℕ → Regs → Action
  resumed_with : ℕ → ℕ → Action
  erased : ℕ → Action

pub record Tracer (W : Type 0) : Type 0 where
  pub thread_status : NatMap ThreadStatus
  pub world : W
  pub log : List Action

-- `args` of the callback, from the answer to PTRACE_GET_SYSCALL_INFO.
unfoldable pub syscall_args : SyscallInfo → SyscallArgs
syscall_args i = record { number = i.nr; args = i.args; int80 = i.arch == audit_arch_i386 }
