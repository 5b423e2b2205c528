-- ===== src/Tests/Sample.antt =====
-- Sample inputs for the models of src/trace, src/parser, src/config and src/ui.
use gravelbox.Base.{
  if◌then◌else◌, ℕ, zero, suc, ◌+◌, ◌%◌, ◌<◌, ◌≡◌, Bytes, [], ◌∷◌, ◌++◌, codes, true, false, ◌==◌,
  str_eq, Option, none, some, Outcome, ok, throw, json_exception, arith,
}
use gravelbox.Utils.{ArgArray, SyscallArgs, done}
use gravelbox.Tracer.Types.{
  info_entry, audit_arch_x86_64, userspace, kernelspace_deny, SyscallInfo, Regs, Event, Tracer,
}
use gravelbox.Tracer.Loop.{Callbacks}
use gravelbox.Tracer.Run.{Launch}
use gravelbox.Parser.ArgType.{str_type, sint32_type}
use gravelbox.Parser.StrType.{ReadMemory}
use gravelbox.Parser.Call.{Parser}
use gravelbox.Parser.Json.{Json}
use gravelbox.Config.FileConfig.{allow, ask, deny, Libraries, FileConfig}
use gravelbox.Ui.Interface.{Ui}

-- A policy that lets system call 0 through and counts how often it was asked.
abbrev pub read_only : Callbacks ℕ
read_only = record {
  pid_callback = λ pid n. n;
  syscall_callback = λ args n. (ok (args.number == 0), n + 1);
}

abbrev pub no_args : ArgArray
no_args = record { a0 = 0; a1 = 0; a2 = 0; a3 = 0; a4 = 0; a5 = 0 }

abbrev pub info : ℕ → SyscallInfo
info nr = record { op = info_entry; arch = audit_arch_x86_64; nr = nr; args = no_args }

abbrev pub regs : Regs
regs = record { orig_rax = 1; rax = 7; rest = 9 ∷ [] }

-- Thread `pid` stops with `wstatus` at the entry of call `nr`; every request succeeds.
abbrev pub event : ℕ → ℕ → ℕ → Event
event pid wstatus nr = record {
  pid = pid;
  wstatus = wstatus;
  info = done (info nr);
  regs = done regs;
  set = done tt;
  resumed = done tt;
}

-- The wait status of a system call stop, and of an exit with code 3.
abbrev pub syscall_stop : ℕ
syscall_stop = 0x857f

abbrev pub exit_3 : ℕ
exit_3 = 0x0300

-- Child 100 starts, tries call 1, comes back, and ends.
abbrev pub launch : Launch
launch = record {
  forked = done 100;
  first_wait = done 0x137f;
  options_set = done tt;
  let_run = done tt;
  events =
      done (event 100 syscall_stop 1)
      ∷ done (event 100 syscall_stop 1)
      ∷ done (event 100 exit_3 0)
      ∷ [];
}

abbrev pub in_user_space : Tracer ℕ
in_user_space = record { thread_status = (100, userspace) ∷ []; world = 0; log = [] }

abbrev pub in_refused_call : Tracer ℕ
in_refused_call = record { thread_status = (100, kernelspace_deny) ∷ []; world = 0; log = [] }

-- A target whose memory holds "ls\n" everywhere.
abbrev pub memory : ReadMemory
memory pid pieces = done (codes "ls\n" ++ (0 ∷ []))

-- One known call, execve.
abbrev pub parser : Parser
parser = record {
  target = 100;
  syscall_map =
      (59, record { fname = codes "execve"; argtypes = str_type ∷ sint32_type ∷ [] }) ∷ [];
}

abbrev pub execve_call : SyscallArgs
execve_call = record {
  number = 59;
  args = record { a0 = 4096; a1 = 5; a2 = 0; a3 = 0; a4 = 0; a5 = 0 };
  int80 = false;
}

-- JSON values that are strings.
abbrev pub json : Json
json = record {
  Value = Bytes;
  parse = λ s. ok s;
  is_array = λ v. false;
  is_object = λ v. true;
  member = λ v key. ok [];
  elements = λ v. [];
  as_string = λ v. ok v;
  as_uint64 = λ v. throw (json_exception (codes "not a number"));
}

-- 64 bytes: the sum of key and text in the first of them.
abbrev pub sum : Bytes → ℕ
sum [] = 0
sum (c ∷ s) = c + sum s

abbrev pub mac : Bytes → Bytes → Bytes
mac key text =
    (sum key + sum text) % 256
    ∷ codes "abcdefghijklmnopqrstuvwxyzabcdefghijklmnopqrstuvwxyzabcdefghijk"

-- Patterns are whole texts; every file holds the MAC of the text "rules" under the key "k".
abbrev pub libraries : Libraries
libraries = record {
  json = json;
  Regex = Bytes;
  compile = λ p. ok p;
  regex_match = str_eq;
  hmac = λ key text. some (mac key text);
  read_error = λ path. none;
  read_file = λ path. some (mac (codes "k") (codes "rules"));
}

-- The default is to ask; "exit(0)" is allowed, and "fork()" is denied.
abbrev pub config : FileConfig libraries
config = record {
  config = codes "rules";
  signature = codes "rules.sig";
  key = codes "k";
  password_hash = mac (codes "k") (codes "pw");
  syscalldef = [];
  pinentry = [];
  max_str_len = 32;
  action_default = ask;
  action_groups =
      record { action = allow; patterns = codes "exit(0)" ∷ [] }
      ∷ record { action = deny; patterns = codes "fork()" ∷ [] }
      ∷ [];
}

-- A user who says yes, and has two passwords to enter: first "no", then "pw".
abbrev pub next_password : ℕ → Outcome (Option Bytes) × ℕ
next_password zero = (ok none, 0)
next_password (suc zero) = (ok (some (codes "pw")), 0)
next_password (suc (suc n)) = (ok (some (codes "no")), 1)

pub next_password_left :
    (n : ℕ) (p : Bytes) → (next_password n).0 ≡ ok (some p) → (next_password n).1 < n
next_password_left zero p h = cc
next_password_left (suc zero) p h = omega arith
next_password_left (suc (suc n)) p h = omega arith

abbrev pub user : Ui ℕ
user = record {
  ask = λ text n. (ok true, n);
  ask_password = λ message prompt error n. next_password n;
  left = λ n. n;
  ask_password_left = λ message prompt error n p h. next_password_left n p h;
}

-- JSON where the list has one element, and that is open with a path and flags.
abbrev pub one_definition : Json
one_definition = record {
  Value = Bytes;
  parse = λ s. ok s;
  is_array = λ v. true;
  is_object = λ v. true;
  member = λ v key. ok key;
  elements = λ v.
      if str_eq v (codes "params") then codes "char*" ∷ codes "int32_t" ∷ [] else codes "call" ∷ [];
  as_string = λ v. ok (if str_eq v (codes "name") then codes "open" else v);
  as_uint64 = λ v. ok 2;
}
