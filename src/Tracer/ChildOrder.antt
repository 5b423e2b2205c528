-- ===== src/Tracer/ChildOrder.antt =====
-- In which order the child of `run_with_callbacks` in src/trace/tracer.cpp comes to its new program.
use gravelbox.Base.{
  ℕ, ◌≡◌, refl, ap, Bytes, List, [], ◌∷◌, codes, str_eq, if◌then◌else◌, Outcome, ok, throw,
  terminate, arith,
}
use gravelbox.Utils.{Reply, done, errno}
use gravelbox.Utils.Fd.{CloseReply, after_scope}
use gravelbox.Utils.Spawn.{
  ChildAction, traced_me, stopped_self, opened, duplicated, execed, Child, request, run_child,
}
use gravelbox.Exec.{Exec, continue, ◌>>=◌, ◌>>◌}
use gravelbox.Tracer.Child.{
  Target, ChildReplies, read_only, write_flags, mode_rw, in_scope, duplicate, redirect, child_init,
  child_main,
}

-- No new program was started.
abbrev pub NoExec : List ChildAction → Type 0
NoExec [] = Unit
NoExec (execed _ ∷ l) = ⊥
NoExec (_ ∷ l) = NoExec l

-- The descriptor that `open` gave.
abbrev pub fd_of : Reply ℕ → ℕ
fd_of (done fd) = fd
fd_of (errno n) = 0

-- A redirection that was asked for: the file was opened, and its descriptor duplicated. Latest action
-- first.
abbrev pub redirected : Bytes → ℕ → ℕ → ℕ → Reply ℕ → List ChildAction → List ChildAction
redirected path flags mode to r l =
    if str_eq path (codes "-") then l else duplicated (fd_of r) to ∷ opened path flags mode ∷ l

-- The whole way to the new program: traced, stopped, redirected, and then replaced.
abbrev pub whole_way : Target → ChildReplies → List ChildAction
whole_way t r =
    execed t.args
    ∷ redirected t.std_err (write_flags t.append_stderr) mode_rw 2 r.open_err (
        redirected t.std_out (write_flags t.append_stdout) mode_rw 1 r.open_out
          (redirected t.std_in read_only 0 0 r.open_in (stopped_self ∷ traced_me ∷ [])))

-- A part of the way that returned has the log `l`, and one that did not has started no program.
abbrev pub Went : Outcome (Unit {0}) → List ChildAction → List ChildAction → Type 0
Went (ok _) log l = log ≡ l
Went (throw _) log l = NoExec log
Went terminate log l = NoExec log

NoExec-redirected :
    (path : Bytes) (flags mode to : ℕ) (r : Reply ℕ) (l : List ChildAction)
    → NoExec l
    → NoExec (redirected path flags mode to r l)
NoExec-redirected path flags mode to r l h = ground arith

-- A command that, from a log `l`, comes to the log `l'` or starts no program.
record Leads (m : Exec Child (Unit {0})) (l : List ChildAction) (l' : List ChildAction)
    : Type 0 where
  goes : (s : Child) → s.log ≡ l → Went (m s).0 (m s).1.log l'

continue-Went :
    (r : Outcome (Unit {0})) (n : Exec Child (Unit {0})) (s : Child) (l l' : List ChildAction)
    → Went r s.log l
    → Leads n l l'
    → Went (continue r (λ _. n) s).0 (continue r (λ _. n) s).1.log l'
unfolding continue
continue-Went (ok _) n s l l' h k = k.goes s h
continue-Went (throw _) n s l l' h k = h
continue-Went terminate n s l l' h k = h

Leads-then :
    {m n : Exec Child (Unit {0})} {l l' l'' : List ChildAction}
    → Leads m l l'
    → Leads n l' l''
    → Leads (m >> n) l l''
unfolding ◌>>=◌
Leads-then {m} {n} {l} {l'} {l''} hm hn = record {
  goes = λ s e. continue-Went (m s).0 n (m s).1 l' l'' (hm.goes s e) hn;
}

request-Leads :
    (a : ChildAction) (r : Reply (Unit {0})) (l : List ChildAction)
    → NoExec l
    → Leads (request a r) l (a ∷ l)
unfolding request
request-Leads a (done v) l h = record { goes = λ s e. ap (λ x. a ∷ x) e }
request-Leads a (errno n) l h = record { goes = λ s e. rw e h }

module _ (close_reply : CloseReply) where
  redirect-Went :
      (path : Bytes) (flags mode to : ℕ) (opened_ duped : Reply ℕ) (s : Child)
      → NoExec s.log
      → let (r, s') = redirect close_reply path flags mode to opened_ duped s in
        Went r s'.log (redirected path flags mode to opened_ s.log)
  unfolding redirect request in_scope duplicate after_scope
  redirect-Went path flags mode to (errno n) duped s h = ground arith
  redirect-Went path flags mode to (done fd) duped s h = ground arith

  redirect-Leads :
      (path : Bytes) (flags mode to : ℕ) (opened_ duped : Reply ℕ) (l : List ChildAction)
      → NoExec l
      → Leads
          (redirect close_reply path flags mode to opened_ duped)
          l
          (redirected path flags mode to opened_ l)
  redirect-Leads path flags mode to opened_ duped l h = record {
    goes = λ s e. rw (← e) (redirect-Went path flags mode to opened_ duped s (rw e h));
  }

  -- Whatever the system answers: if the new program is started, the child was traced and stopped itself
  -- before anything else, and every redirection that was asked for was made in between; otherwise the
  -- child ends without having started a program.
  pub child_main-Went :
      (t : Target) (r : ChildReplies)
      → let (o, s) =
          child_main close_reply t r (record { files = record { closed = [] }; log = [] }) in
        Went o s.log (whole_way t r)
  unfolding child_main child_init run_child
  child_main-Went t r =
      let l0 : List ChildAction = [] in
      let l1 = traced_me ∷ l0 in
      let l2 = stopped_self ∷ l1 in
      let l3 = redirected t.std_in read_only 0 0 r.open_in l2 in
      let l4 = redirected t.std_out (write_flags t.append_stdout) mode_rw 1 r.open_out l3 in
      let l5 = redirected t.std_err (write_flags t.append_stderr) mode_rw 2 r.open_err l4 in
      let n3 = NoExec-redirected t.std_in read_only 0 0 r.open_in l2 tt in
      let n4 =
        NoExec-redirected t.std_out (write_flags t.append_stdout) mode_rw 1 r.open_out l3 n3 in
      let n5 =
        NoExec-redirected t.std_err (write_flags t.append_stderr) mode_rw 2 r.open_err l4 n4 in
      let step3 = redirect-Leads t.std_in read_only 0 0 r.open_in r.dup_in l2 tt in
      let step4 =
        redirect-Leads t.std_out (write_flags t.append_stdout) mode_rw 1 r.open_out r.dup_out l3
          n3 in
      let step5 =
        redirect-Leads t.std_err (write_flags t.append_stderr) mode_rw 2 r.open_err r.dup_err l4
          n4 in
      let way =
        Leads-then
          (Leads-then (request-Leads traced_me r.traceme l0 tt) (
            Leads-then (request-Leads stopped_self r.raised l1 tt)
              (Leads-then step3 (Leads-then step4 step5))))
          (request-Leads (execed t.args) r.replaced l5 n5) in
      way.goes (record { files = record { closed = [] }; log = [] }) refl
