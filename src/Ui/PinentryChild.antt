-- ===== src/Ui/PinentryChild.antt =====
-- The child that becomes pinentry, in src/ui/pinentry_ui.cpp.
use gravelbox.Base.{ℕ, Bytes, List, [], ◌∷◌, codes}
use gravelbox.Utils.{Reply}
use gravelbox.Utils.Spawn.{duplicated, closed, Child, request, run_child}
use gravelbox.Exec.{Exec, pure, ◌>>=◌, ◌>>◌}

-- `fds`, in the order of the array.
pub record Pipes : Type 0 where
  pub to_r : ℕ
  pub to_w : ℕ
  pub from_r : ℕ
  pub from_w : ℕ

abbrev pub all_of : Pipes → List ℕ
all_of p = p.to_r ∷ p.to_w ∷ p.from_r ∷ p.from_w ∷ []

-- What the system answers to the child.
pub record InitReplies : Type 0 where
  pub dup_in : Reply ℕ
  pub dup_out : Reply ℕ
  pub close : ℕ → Reply (Unit {0})
  pub replaced : Reply (Unit {0})

-- for (int fd : fds) check(::close(fd))
unfoldable pub close_each : InitReplies → List ℕ → Exec Child (Unit {0})
unfolding request ◌>>=◌ pure
close_each r [] = pure tt
close_each r (fd ∷ fds) = request (closed fd) (r.close fd) >> close_each r fds

-- The lambda that is given to `spawn`.
unfoldable pub child_init : Pipes → InitReplies → Exec Child (Unit {0})
unfolding request close_each ◌>>=◌
child_init p r = do
  request (duplicated p.to_r 0) r.dup_in
  request (duplicated p.from_w 1) r.dup_out
  close_each r (all_of p)

abbrev pub command_of : Bytes → Bytes → List Bytes
command_of pinentry ttyname =
    pinentry ∷ codes "--ttyname" ∷ ttyname ∷ codes "--lc-ctype" ∷ codes "utf-8" ∷ []

unfoldable pub child_main : Bytes → Bytes → Pipes → InitReplies → Exec Child (Unit {0})
unfolding run_child child_init
child_main pinentry ttyname p r =
    run_child (command_of pinentry ttyname) (child_init p r) r.replaced
