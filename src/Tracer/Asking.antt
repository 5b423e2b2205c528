-- ===== src/Tracer/Asking.antt =====
-- What the callback of src/trace/tracer.h keeps of the state of the user interface.
use gravelbox.Base.{
  ℕ, zero, suc, refl, Bytes, [], Bool, true, false, Option, none, some, Outcome, ok, throw,
  terminate,
}
use gravelbox.Utils.{SyscallArgs}
use gravelbox.Exec.Keeps.{Ends, ended, kept, Keeps, Keeps-pure, Keeps-bind, Keeps-if}
use gravelbox.Config.FileConfig.{
  Verdict, allow, deny, ask, Libraries, FileConfig, get_action, has_password, verify_password,
}
use gravelbox.Parser.StrType.{ReadMemory}
use gravelbox.Parser.Call.{call}
use gravelbox.Ui.Interface.{Ui}
use gravelbox.Tracer.Decide.{
  Session, settle, password_loop, confirm_password, ask_password, confirmed, ask_user, by_verdict,
  decide, log_call, syscall_callback, decision_message, decision_prompt,
}

-- Both operations of the interface keep an invariant.
pub record UiKeeps {W : Type 0} (Q : Type 0) (P : W → Type 0) (ui : Ui W) : Type 0 where
  pub ask : (syscall : Bytes) → Keeps Q P (ui.ask syscall)
  pub ask_password :
      (message prompt error : Bytes) → Keeps Q P (ui.ask_password message prompt error)

pub Ends-settle :
    {W A : Type 0} {Q : Type 0} {P : W → Type 0} (r : Outcome (Option A)) (w : W)
    → Ends Q P r w
    → Ends Q P (settle (r, w)).0 (settle (r, w)).1
unfolding settle
Ends-settle (ok none) w (ended e q) = absurd (cc)
Ends-settle (ok none) w (kept h) = kept h
Ends-settle (ok (some a)) w (ended e q) = absurd (cc)
Ends-settle (ok (some a)) w (kept h) = kept h
Ends-settle (throw x) w (ended e q) = absurd (cc)
Ends-settle (throw x) w (kept h) = kept h
Ends-settle terminate w (ended e q) = ended refl q
Ends-settle terminate w (kept h) = kept h

module _ (lib : Libraries) {W : Type 0} (ui : Ui W) (config : FileConfig lib) {Q : Type 0}
    {P : W → Type 0} (keeps : UiKeeps Q P ui) where
  password_loop-Keeps :
      (fuel : ℕ) (entered : Option Bytes) → Keeps Q P (password_loop lib ui config fuel entered)
  unfolding password_loop
  password_loop-Keeps fuel none = Keeps-pure (some false)
  password_loop-Keeps zero (some p) = Keeps-pure none
  password_loop-Keeps (suc fuel) (some p) =
      Keeps-if (verify_password lib config p) (Keeps-pure (some true))
        (Keeps-bind (keeps.ask_password _ _ _) (password_loop-Keeps fuel))

  confirm_password-Keeps :
      (entered : Option Bytes) → Keeps Q P (confirm_password lib ui config entered)
  unfolding confirm_password
  confirm_password-Keeps entered = record {
    at = λ w h. Ends-settle _ _ ((password_loop-Keeps (suc (ui.left w)) entered).at w h);
  }

  confirmed-Keeps : (yes_ : Bool) → Keeps Q P (confirmed lib ui config yes_)
  unfolding confirmed ask_password
  confirmed-Keeps yes_ =
      Keeps-if yes_
        (Keeps-if (has_password lib config)
          (Keeps-bind (keeps.ask_password decision_message decision_prompt [])
            confirm_password-Keeps)
          (Keeps-pure true))
        (Keeps-pure false)

  by_verdict-Keeps :
      (v : Verdict) (syscall : Bytes) → Keeps Q P (by_verdict lib ui config v syscall)
  unfolding by_verdict ask_user
  by_verdict-Keeps allow syscall = Keeps-pure true
  by_verdict-Keeps ask syscall = Keeps-bind (keeps.ask syscall) confirmed-Keeps
  by_verdict-Keeps deny syscall = Keeps-pure false

  log_call-Keeps : (syscall : Bytes) → Keeps Q P (log_call syscall)
  unfolding log_call
  log_call-Keeps syscall = record { at = λ w h. kept h }

  decide-Keeps : (syscall : Bytes) → Keeps Q P (decide lib ui config syscall)
  unfolding decide
  decide-Keeps syscall =
      Keeps-bind (log_call-Keeps syscall)
        (λ _. by_verdict-Keeps (get_action lib config syscall) syscall)

  -- The callback keeps what the user interface keeps.
  pub syscall_callback-Keeps :
      (read_memory : ReadMemory) (args : SyscallArgs)
      → Keeps Q (λ (s : Session W). P s.ui) (syscall_callback lib ui config read_memory args)
  unfolding syscall_callback
  syscall_callback-Keeps read_memory args = record {
    at = λ s h. answered s (call read_memory s.parser args) h;
  }
    where
      lifted :
          (s : Session W) (r : Outcome Bool) (w : W)
          → Ends Q P r w
          → Ends Q (λ (s : Session W). P s.ui) r (record s { ui = w })
      lifted s r w (ended e q) = ended e q
      lifted s r w (kept h) = kept h

      answered :
          (s : Session W) (text : Outcome Bytes)
          → P s.ui
          → let (r, s') : Outcome Bool × Session W = elim text [
            | ok t ↦ let (b, w) = decide lib ui config t s.ui in (b, record s { ui = w })
            | throw e ↦ (throw e, s)
            | terminate ↦ (terminate, s)
          ] in
            Ends Q (λ (s : Session W). P s.ui) r s'
      answered s (ok t) h = lifted s _ _ ((decide-Keeps t).at s.ui h)
      answered s (throw e) h = kept h
      answered s terminate h = kept h
