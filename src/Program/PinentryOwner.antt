-- ===== src/Program/PinentryOwner.antt =====
-- The `std::unique_ptr<PinentryUI>` of `run` in src/modules.cpp: the user interface that the
-- programs have.
use gravelbox.Base.{
  ℕ, suc, ◌<◌, ◌≡◌, Bytes, List, ◌∷◌, length, true, Option, none, some, Option-cases, ok, throw,
  terminate, arith, inl, inr,
}
use gravelbox.Utils.{Reply}
use gravelbox.Utils.Fd.{Files, CloseReply}
use gravelbox.Exec.{Exec}
use gravelbox.Ui.Pinentry.{Conn}
use gravelbox.Ui.Interface.{pinentry_ui}
use gravelbox.Ui.Launch.{Startup, Pinentry, on_conn, new_pinentry, quit}
use gravelbox.Program.Options.{UiOwner}

-- What the system does when a pinentry of a path starts after so many others, and when one is waited for
-- after so many others; how those that were started went, latest first; what was closed; and the object
-- that the pointer has.
pub record Host : Type 0 where
  pub startup : ℕ → Bytes → Startup
  pub waited : ℕ → Reply ℕ
  pub started : List Startup
  pub ends : ℕ
  pub files : Files
  pub current : Option Pinentry

module _ (close_reply : CloseReply) (unset : ℕ) where
  -- The object of the pointer is destroyed, and the pointer then has another, or none.
  unfoldable pub replace : Option Pinentry → Exec Host (Unit {0})
  unfolding quit
  replace next w = elim w.current [
    | none ↦ (ok tt, record w { current = next })
    | some old ↦
        let (r, gone) =
          quit close_reply unset true (w.waited w.ends) (record old { files = w.files }) in
        (r, record w { files = gone.files; ends = suc w.ends; current = next })
  ]

  -- ui = std::make_unique<PinentryUI>(path)
  unfoldable pub make : Bytes → Exec Host (Unit {0})
  unfolding new_pinentry replace
  make path w =
      let l = w.startup (length w.started) path in
      let (r, p) = new_pinentry close_reply unset l w.files in
      let w' = record w { started = l ∷ w.started; files = p.files } in
      elim r [ ok _ ↦ replace (some p) w' | throw e ↦ (throw e, w') | terminate ↦ (terminate, w') ]

  -- A member function of the object; through a null pointer it ends the process.
  unfoldable pub on_current : {A : Type 0} → Exec Conn A → Exec Host A
  unfolding on_conn
  on_current m w = elim w.current [
    | none ↦ (terminate, w)
    | some p ↦ (let (r, p') = on_conn close_reply unset m p in (r, record w { current = some p' }))
  ]

  abbrev lines_left : Host → ℕ
  lines_left w = elim w.current [ none ↦ 0 | some p ↦ length p.conn.incoming ]

  -- An action that takes a line where it returns does so through the pointer.
  pub on_current-left :
      {A : Type 0} (m : Exec Conn A) (a : A)
      → ((c : Conn) → (m c).0 ≡ ok a → length (m c).1.incoming < length c.incoming)
      → (w : Host) → (on_current m w).0 ≡ ok a
      → lines_left (on_current m w).1 < lines_left w
  unfolding on_current
  on_current-left m a takes w h = elim (Option-cases w.current) [
    | inl e ↦ absurd (ground arith)
    | inr (p, e) ↦ ground (arith, takes p.conn)
  ]

  unfoldable pub pinentry_owner : UiOwner Host
  unfolding make replace on_current pinentry_ui
  pinentry_owner = record {
    make = make;
    ui = record {
      ask = λ syscall. on_current ((pinentry_ui unset).ask syscall);
      ask_password = λ message prompt error.
          on_current ((pinentry_ui unset).ask_password message prompt error);
      left = lines_left;
      ask_password_left = λ message prompt error w p h.
          on_current-left ((pinentry_ui unset).ask_password message prompt error) (some p)
            (λ c k. (pinentry_ui unset).ask_password_left message prompt error c p k) w h;
    };
    leave = replace none;
  }
