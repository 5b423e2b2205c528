-- ===== src/Program/Key.antt =====
-- The signing key: the branch without `no-signature` of `run` in src/modules.cpp.
use gravelbox.Base.{ℕ, zero, suc, Bytes, [], codes, if◌then◌else◌, Option, none, some}
use gravelbox.Exec.{Exec, pure, lift, ◌>>=◌}
use gravelbox.Config.FileConfig.{Libraries, FileConfig, verify_signature}
use gravelbox.Ui.Interface.{Ui}
use gravelbox.Tracer.Decide.{settle}

abbrev pub key_message : Bytes
key_message = codes "Enter the configuration file signing key."

abbrev pub key_prompt : Bytes
key_prompt = codes "key: "

abbrev pub key_error : Bytes
key_error = codes "Incorrect key, or the configuration has been changed."

module _ (lib : Libraries) {W : Type 0} (ui : Ui W) where
  -- `while (!config->verify_signature(...))`; the outer `none` means that the fuel ran out, the inner
  -- one that the user cancelled.
  unfoldable pub key_loop :
      ℕ → FileConfig lib → Option Bytes → Exec W (Option (Option (FileConfig lib)))
  unfolding ◌>>=◌ pure lift
  key_loop fuel c none = pure (some none)
  key_loop zero c (some key) = pure none
  key_loop (suc fuel) c (some key) =
      let (r, c') = verify_signature lib c key in
      let again = ui.ask_password key_message key_prompt key_error >>= key_loop fuel c' in
      lift r >>= λ accepted. if accepted then pure (some (some c')) else again

  -- The dialog; as many turns as keys can still be entered, and one more.
  unfoldable pub ask_key : FileConfig lib → Exec W (Option (FileConfig lib))
  unfolding ◌>>=◌ settle
  ask_key c = do
    entered ← ui.ask_password key_message key_prompt []
    λ w. settle (key_loop (suc (ui.left w)) c entered w)
