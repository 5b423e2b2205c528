-- ===== src/Program/ChildProcess.antt =====
-- The process that `fork` makes in `run` of src/modules.cpp: from the lambda of src/trace/tracer.cpp to
-- the new program, or to the handlers of its copy of `main` in src/main.cpp.
use gravelbox.Base.{
  ℕ, ◌≡◌, Bytes, List, [], ◌∷◌, ◌++◌, codes, Option, none, some, Outcome, ok, throw, system_error,
  ◌⊎◌,
}
use gravelbox.Exec.{Exec, pure, try_catch, ◌>>=◌, ◌>>◌}
use gravelbox.Utils.{Reply}
use gravelbox.Utils.Fd.{CloseReply}
use gravelbox.Utils.Spawn.{ChildAction, traced_me, stopped_self, execed, Child}
use gravelbox.Ostream.Digits.{dec}
use gravelbox.Ostream.Number.{print_unsigned}
use gravelbox.Tracer.Child.{ChildReplies, read_only, write_flags, mode_rw, child_main}
use gravelbox.Tracer.ChildOrder.{NoExec, redirected}
use gravelbox.Program.Options.{Options, target_of}
use gravelbox.Program.Main.{Texts, Console, on_world, report}

-- The child's copy of `main`, with `none` for a process that is the new program now. The destructor of
-- the user interface does nothing in a process that did not make it.
unfoldable pub child_process :
    CloseReply → Texts → List Bytes → Options → ChildReplies → Exec (Console Child) (Option ℕ)
unfolding child_main target_of on_world report try_catch ◌>>=◌ pure
child_process close_reply texts args vm r =
    try_catch (on_world (child_main close_reply (target_of args vm) r) >> pure none) (report texts)

abbrev pub new_child : Child
new_child = record { files = record { closed = [] }; log = [] }

-- A redirection by an option; "-" is none.
abbrev pub by_option : Option Bytes → ℕ → ℕ → ℕ → Reply ℕ → List ChildAction → List ChildAction
by_option none flags mode to r l = l
by_option (some path) flags mode to r l = redirected path flags mode to r l

-- The way of the child as the options say, latest action first.
abbrev pub way_of : List Bytes → Options → ChildReplies → List ChildAction
way_of args vm r =
    execed args
    ∷ by_option vm.std_err (write_flags vm.append_stderr) mode_rw 2 r.open_err (
        by_option vm.std_out (write_flags vm.append_stdout) mode_rw 1 r.open_out
          (by_option vm.std_in read_only 0 0 r.open_in (stopped_self ∷ traced_me ∷ [])))

-- It returned, or a system call failed.
abbrev SystemOnly : Outcome (Unit {0}) → Type 0
SystemOnly (ok _) = Unit
SystemOnly (throw (system_error n)) = Unit
SystemOnly _ = ⊥

record Fails (m : Exec Child (Unit {0})) : Type 0 where
  fails : (s : Child) → SystemOnly (m s).0

-- The new program runs; or a system call failed, with its number in the message, and the exit code is 1.
abbrev pub Ended : Texts → Bytes → List ChildAction → Outcome (Option ℕ) × Console Child → Type 0
Ended texts err way (o, s) =
    ((o ≡ ok none) × (s.world.log ≡ way) × (s.err ≡ err))
    ⊎ ((o ≡ ok (some 1))
        × NoExec s.world.log
        × (n : ℕ) × (s.err
            ≡ err
              ++ (codes "System error "
                  ++ (print_unsigned dec n
                      ++ (codes ": " ++ (texts.system_what n ++ codes "\n"))))))
