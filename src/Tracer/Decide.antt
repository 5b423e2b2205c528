-- ===== src/Tracer/Decide.antt =====
-- The callback of `Tracer::run` in src/trace/tracer.h: the text of the call, the rule for it, the
-- question to the user and the password.
use gravelbox.Base.{
  ℕ, zero, suc, Bytes, [], codes, Bool, true, false, if◌then◌else◌, Option, none, some, Outcome, ok,
  throw, terminate,
}
use gravelbox.Exec.{Exec, pure, ◌>>=◌, ◌>>◌}
use gravelbox.Utils.{SyscallArgs}
use gravelbox.Parser.StrType.{ReadMemory}
use gravelbox.Parser.Call.{Parser, call, setpid}
use gravelbox.Config.FileConfig.{
  Verdict, allow, deny, ask, Libraries, FileConfig, get_action, has_password, verify_password,
}
use gravelbox.Ui.Interface.{Ui}
use gravelbox.Tracer.Loop.{Callbacks}

-- The objects that the callbacks hold on to, and that change: the parser's pid and the interface.
pub record Session (W : Type 0) : Type 0 where
  pub parser : Parser
  pub ui : W

abbrev pub decision_message : Bytes
decision_message = codes "Enter the user decision password to continue."

abbrev pub decision_prompt : Bytes
decision_prompt = codes "password: "

-- Logger::write does nothing.
unfoldable pub log_call : {W : Type 0} → Bytes → Exec W (Unit {0})
log_call syscall w = (ok tt, w)

-- A loop that ran out of fuel ends as the code never does.
unfoldable pub settle : {W A : Type 0} → Outcome (Option A) × W → Outcome A × W
settle (ok none, w) = (terminate, w)
settle (ok (some a), w) = (ok a, w)
settle (throw e, w) = (throw e, w)
settle (terminate, w) = (terminate, w)

module _ (lib : Libraries) {W : Type 0} (ui : Ui W) (config : FileConfig lib) where
  -- `while (!config.verify_password(...))`; the outer `none` means that the fuel ran out.
  unfoldable pub password_loop : ℕ → Option Bytes → Exec W (Option Bool)
  unfolding ◌>>=◌ pure
  password_loop fuel none = pure (some false)
  password_loop zero (some p) = pure none
  password_loop (suc fuel) (some p) =
      let again =
        ui.ask_password decision_message decision_prompt (codes "Incorrect password")
        >>= password_loop fuel in
      if verify_password lib config p then pure (some true) else again

  -- As many turns as passwords can still be entered, and one more.
  unfoldable pub confirm_password : Option Bytes → Exec W Bool
  unfolding settle
  confirm_password entered w = settle (password_loop (suc (ui.left w)) entered w)

  -- The password, where one is set.
  unfoldable pub ask_password : Exec W Bool
  unfolding ◌>>=◌ pure
  ask_password = do
    entered ← ui.ask_password decision_message decision_prompt []
    confirm_password entered

  unfoldable pub confirmed : Bool → Exec W Bool
  unfolding pure
  confirmed yes_ =
      let asked = ask_password in
      if yes_ then (if has_password lib config then asked else pure true) else pure false

  -- case ASK.
  unfoldable pub ask_user : Bytes → Exec W Bool
  unfolding ◌>>=◌ pure
  ask_user syscall = do yes_ ← ui.ask syscall; confirmed yes_

  unfoldable pub by_verdict : Verdict → Bytes → Exec W Bool
  unfolding pure
  by_verdict allow syscall = pure true
  by_verdict ask syscall = ask_user syscall
  by_verdict deny syscall = pure false

  -- The rest of the callback, where the parser has given the text of the call.
  unfoldable pub decide : Bytes → Exec W Bool
  unfolding ◌>>=◌ pure log_call
  decide syscall = log_call syscall >> by_verdict (get_action lib config syscall) syscall

  -- The syscall callback.
  unfoldable pub syscall_callback : ReadMemory → SyscallArgs → Exec (Session W) Bool
  unfolding decide
  syscall_callback read_memory args s = elim (call read_memory s.parser args) [
    | ok text ↦ let (r, w) = decide text s.ui in (r, record s { ui = w })
    | throw e ↦ (throw e, s)
    | terminate ↦ (terminate, s)
  ]

  -- The callbacks that `Tracer::run` hands to `run_with_callbacks`.
  unfoldable pub run_callbacks : ReadMemory → Callbacks (Session W)
  run_callbacks read_memory = record {
    pid_callback = λ pid s. record s { parser = setpid pid s.parser };
    syscall_callback = syscall_callback read_memory;
  }
