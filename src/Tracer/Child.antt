-- ===== src/Tracer/Child.antt =====
-- What the child of `run_with_callbacks` in src/trace/tracer.cpp does before its new program runs.
use gravelbox.Base.{ℕ, ◌+◌, Bytes, List, [], ◌∷◌, codes, Bool, str_eq, if◌then◌else◌}
use gravelbox.Utils.{Reply}
use gravelbox.Utils.Fd.{Fd, new, CloseReply, after_scope}
use gravelbox.Utils.Spawn.{traced_me, stopped_self, opened, duplicated, Child, request, run_child}
use gravelbox.Exec.{Exec, pure, ◌>>=◌, ◌>>◌}

-- The arguments of `run_with_callbacks` about the target.
pub record Target : Type 0 where
  pub args : List Bytes
  pub std_in : Bytes
  pub std_out : Bytes
  pub append_stdout : Bool
  pub std_err : Bytes
  pub append_stderr : Bool

-- What the system answers to the child.
pub record ChildReplies : Type 0 where
  pub traceme : Reply (Unit {0})
  pub raised : Reply (Unit {0})
  pub open_in : Reply ℕ
  pub dup_in : Reply ℕ
  pub open_out : Reply ℕ
  pub dup_out : Reply ℕ
  pub open_err : Reply ℕ
  pub dup_err : Reply ℕ
  pub replaced : Reply (Unit {0})

-- O_RDONLY; O_WRONLY | O_CREAT, with O_APPEND or not; and rw for all.
abbrev pub read_only : ℕ
read_only = 0

abbrev pub write_flags : Bool → ℕ
write_flags append = 0x1 + 0x40 + (if append then 0x400 else 0)

abbrev pub mode_rw : ℕ
mode_rw = 0o666

module _ (close_reply : CloseReply) where
  -- On leaving the scope of a `Fd`.
  unfoldable pub in_scope : {A : Type 0} → Fd → Exec Child A → Exec Child A
  unfolding after_scope
  in_scope f m s =
      let (r, s') = m s in
      let (r', files) = after_scope close_reply (f ∷ []) r s'.files in
      (r', record s' { files = files })

  unfoldable pub duplicate : ℕ → Reply ℕ → ℕ → Exec Child (Unit {0})
  unfolding request ◌>>=◌ pure
  duplicate to duped fd = do request (duplicated fd to) duped; pure tt

  -- `if (path != "-") { Fd fd(check(::open(...))); check(::dup2(fd, to)); }`
  unfoldable pub redirect : Bytes → ℕ → ℕ → ℕ → Reply ℕ → Reply ℕ → Exec Child (Unit {0})
  unfolding request in_scope duplicate ◌>>=◌ pure
  redirect path flags mode to opened_ duped =
      let go = do
        fd ← request (opened path flags mode) opened_
        in_scope (new fd) (duplicate to duped fd)
      in if str_eq path (codes "-") then pure tt else go

  -- The lambda that is given to `spawn`.
  unfoldable pub child_init : Target → ChildReplies → Exec Child (Unit {0})
  unfolding request redirect ◌>>=◌
  child_init t r = do
    request traced_me r.traceme
    request stopped_self r.raised
    redirect t.std_in read_only 0 0 r.open_in r.dup_in
    redirect t.std_out (write_flags t.append_stdout) mode_rw 1 r.open_out r.dup_out
    redirect t.std_err (write_flags t.append_stderr) mode_rw 2 r.open_err r.dup_err

  unfoldable pub child_main : Target → ChildReplies → Exec Child (Unit {0})
  unfolding run_child child_init
  child_main t r = run_child t.args (child_init t r) r.replaced
