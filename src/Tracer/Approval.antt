-- ===== src/Tracer/Approval.antt =====
-- When the callback of `Tracer::run` approves of a call.
use gravelbox.Base.{
  ℕ, zero, suc, ◌<◌, ◌≡◌, ◌≢◌, refl, ap, ◌∙◌, Bytes, [], codes, Bool, true, false, ◌⊎◌, inl, inr,
  Option, none, some, Outcome-cases, ok, Bool-cases, arith,
}
use gravelbox.Exec.{bind-ok, Exec, continue, pure, ◌>>=◌}
use gravelbox.Config.FileConfig.{
  Verdict, allow, deny, ask, Libraries, FileConfig, get_action, has_password, verify_password,
}
use gravelbox.Utils.{SyscallArgs}
use gravelbox.Parser.StrType.{ReadMemory}
use gravelbox.Parser.Call.{call}
use gravelbox.Ui.Interface.{Ui, Entered}
use gravelbox.Tracer.Decide.{
  decision_message, decision_prompt, password_loop, confirm_password, ask_password, confirmed,
  ask_user, by_verdict, decide, settle, log_call, Session, syscall_callback,
}

verdict_cases : (v : Verdict) → (v ≡ allow) ⊎ (v ≡ ask) ⊎ (v ≡ deny)
verdict_cases allow = inl refl
verdict_cases ask = inr (inl refl)
verdict_cases deny = inr (inr refl)

module _ (lib : Libraries) {W : Type 0} (ui : Ui W) (config : FileConfig lib) where
  abbrev retry : Exec W (Option Bytes)
  retry = ui.ask_password decision_message decision_prompt (codes "Incorrect password")

  password_loop_next :
      (fuel : ℕ) (p : Bytes) (w : W) (b : Option Bool)
      → (password_loop lib ui config (suc fuel) (some p) w).0 ≡ ok b
      → ((verify_password lib config p ≡ true) × (b ≡ some true))
        ⊎ ((next : Option Bytes) × ((retry w).0 ≡ ok next)
            × ((password_loop lib ui config fuel next (retry w).1).0 ≡ ok b))
  unfolding password_loop pure
  password_loop_next fuel p w b h = elim (Bool-cases (verify_password lib config p)) [
    | inl y ↦ inl (y, ground arith)
    | inr n ↦ inr (bind-ok retry (password_loop lib ui config fuel) w b (ground arith))
  ]

  -- With more turns than passwords that can still be entered, the loop comes to its end.
  pub password_loop_total :
      (fuel : ℕ) (entered : Option Bytes) (w : W)
      → ((p : Bytes) → entered ≡ some p → ui.left w < fuel)
      → (password_loop lib ui config fuel entered w).0 ≢ ok none
  unfolding password_loop pure
  password_loop_total fuel none w h = λ e. cc
  password_loop_total zero (some p) w h = absurd (omega (arith, h p refl))
  password_loop_total (suc fuel) (some p) w h = λ e. elim (password_loop_next fuel p w none e) [
    | inl (y, b) ↦ cc
    | inr (next, a, again) ↦
        password_loop_total fuel next (retry w).1
          (λ p' q. omega (
            arith,
            h p refl,
            ui.ask_password_left decision_message decision_prompt (codes "Incorrect password") w p'
                (a ∙ ap ok q),
          ))
          again
  ]

  password_loop-verified :
      (fuel : ℕ) (entered : Option Bytes) (w : W)
      → ((p : Bytes) → entered ≡ some p → Entered ui p)
      → (password_loop lib ui config fuel entered w).0 ≡ ok (some true)
      → (p : Bytes) × Entered ui p × (verify_password lib config p ≡ true)
  unfolding password_loop pure
  password_loop-verified fuel none w h e = absurd (cc)
  password_loop-verified zero (some p) w h e = absurd (cc)
  password_loop-verified (suc fuel) (some p) w h e =
      elim (password_loop_next fuel p w (some true) e) [
        | inl (y, b) ↦ (p, h p refl, y)
        | inr (next, a, again) ↦
            password_loop-verified fuel next (retry w).1
              (λ p' q.
                (decision_message, decision_prompt, codes "Incorrect password", w, a ∙ ap ok q))
              again
      ]

  -- The dialog for the password comes to its end: what it does is what the loop does with some number of
  -- turns that is enough for it.
  confirm_password-password_loop :
      (entered : Option Bytes) (w : W) (b : Bool)
      → (confirm_password lib ui config entered w).0 ≡ ok b
      → (password_loop lib ui config (suc (ui.left w)) entered w).0 ≡ ok (some b)
  unfolding confirm_password settle
  confirm_password-password_loop entered w b h = ground arith

  -- What the callback asks for before it approves of the text of a call.
  abbrev pub Approves : Bytes → W → Type 0
  Approves syscall w =
      (get_action lib config syscall ≡ allow)
      ⊎ ((get_action lib config syscall ≡ ask)
          × ((ui.ask syscall w).0 ≡ ok true)
          × ((has_password lib config ≡ false)
              ⊎ ((p : Bytes) × Entered ui p × (verify_password lib config p ≡ true))))

  ask_password-verified :
      (w : W)
      → (ask_password lib ui config w).0 ≡ ok true
      → (p : Bytes) × Entered ui p × (verify_password lib config p ≡ true)
  unfolding ask_password
  ask_password-verified w h =
      let dialog = ui.ask_password decision_message decision_prompt [] in
      let (entered, a, b) = bind-ok dialog (confirm_password lib ui config) w true h in
      password_loop-verified (suc (ui.left (dialog w).1)) entered (dialog w).1
        (λ p q. (decision_message, decision_prompt, [], w, a ∙ ap ok q))
        (confirm_password-password_loop entered (dialog w).1 true b)

  ask_user-approved :
      (syscall : Bytes) (w : W)
      → (ask_user lib ui config syscall w).0 ≡ ok true
      → ((ui.ask syscall w).0 ≡ ok true)
        × ((has_password lib config ≡ false)
            ⊎ ((p : Bytes) × Entered ui p × (verify_password lib config p ≡ true)))
  unfolding ask_user confirmed pure
  ask_user-approved syscall w h =
      let (yes_, a, b) = bind-ok (ui.ask syscall) (confirmed lib ui config) w true h in
      elim (Bool-cases yes_) [
        | inr n ↦ absurd (ground arith)
        | inl y ↦ (
          a ∙ ap ok y,
          elim (Bool-cases (has_password lib config)) [
            | inr n ↦ inl n
            | inl has ↦ inr (ask_password-verified (ui.ask syscall w).1 (ground arith))
          ],
        )
      ]

  -- The callback approves of a call only if the configuration allows it, or if the configuration asks,
  -- the user said yes to the text of the call and, where there is a password, the user entered one that
  -- verifies.
  pub decide-approved :
      (syscall : Bytes) (w : W) → (decide lib ui config syscall w).0 ≡ ok true → Approves syscall w
  unfolding decide by_verdict pure log_call ◌>>=◌ continue
  decide-approved syscall w h = elim (verdict_cases (get_action lib config syscall)) [
    | inl a ↦ inl a
    | inr (inl a) ↦
        let (yes_, password) = ask_user-approved syscall w (ground arith) in inr (a, yes_, password)
    | inr (inr d) ↦ absurd (ground arith)
  ]

module _ (lib : Libraries) {W : Type 0} (ui : Ui W) (config : FileConfig lib)
    (read_memory : ReadMemory) where
  -- The tracer's callback approves of a call only if its text could be made, and the text is approved;
  -- what it leaves behind is the same parser.
  pub syscall_callback-approved :
      (args : SyscallArgs) (s : Session W)
      → (syscall_callback lib ui config read_memory args s).0 ≡ ok true
      → (text : Bytes) × (call read_memory s.parser args ≡ ok text)
        × Approves lib ui config text s.ui
        × ((syscall_callback lib ui config read_memory args s).1.parser ≡ s.parser)
  unfolding syscall_callback
  syscall_callback-approved args s h = elim (Outcome-cases (call read_memory s.parser args)) [
    | inr (inl (x, e)) ↦ absurd (ground arith)
    | inr (inr e) ↦ absurd (ground arith)
    | inl (text, e) ↦
        (text, e, decide-approved lib ui config text s.ui (ground arith), ground arith)
  ]
