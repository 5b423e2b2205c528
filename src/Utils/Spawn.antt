-- ===== src/Utils/Spawn.antt =====
-- `Utils::spawn` of src/utils.h: the parent, and the child up to its new program.
use gravelbox.Base.{ℕ, Bytes, List, [], ◌∷◌, Outcome, ok, throw, terminate, system_error}
use gravelbox.Utils.{Reply, done, errno, check}
use gravelbox.Utils.Fd.{Files}
use gravelbox.Exec.{Exec, ◌>>=◌, ◌>>◌}

-- What the child did, as the system sees it.
pub data ChildAction : Type 0 where
  traced_me : ChildAction
  stopped_self : ChildAction
  opened : Bytes → ℕ → ℕ → ChildAction
  duplicated : ℕ → ℕ → ChildAction
  closed : ℕ → ChildAction
  execed : List Bytes → ChildAction

-- The log has the latest action first.
pub record Child : Type 0 where
  pub files : Files
  pub log : List ChildAction

-- check(::call(...)) in the child: a call that failed has done nothing.
unfoldable pub request : {A : Type 0} → ChildAction → Reply A → Exec Child A
request a (done v) s = (ok v, record s { log = a ∷ s.log })
request a (errno n) s = (throw (system_error n), s)

-- The branch of the child; `execvp` comes back only with an error.
unfoldable pub run_child :
    List Bytes → Exec Child (Unit {0}) → Reply (Unit {0}) → Exec Child (Unit {0})
unfolding request ◌>>=◌
run_child args child_init replaced = child_init >> request (execed args) replaced

-- The branch of the parent, behind the assertion on the arguments.
unfoldable pub spawn : List Bytes → Reply ℕ → Outcome ℕ
unfolding check
spawn [] forked = terminate
spawn (_ ∷ _) forked = check forked
