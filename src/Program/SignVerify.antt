-- ===== src/Program/SignVerify.antt =====
-- The signature that src/sign.cpp writes, as src/config/file_config.cpp reads it.
use gravelbox.Base.{ℕ, ◌≡◌, Bytes, List, [], ◌∷◌, str_eq, true, if◌then◌else◌, Option, none, some}
use gravelbox.Exec.{Exec}
use gravelbox.Config.FileConfig.{Libraries, FileConfig}
use gravelbox.Ui.Interface.{Entered}
use gravelbox.Program.Options.{UiOwner}
use gravelbox.Program.Sign.{Desk, SignReplies}

-- What a file holds once `written` was written, where it held `before` at first.
abbrev pub read_back : List (Bytes × Bytes) → (Bytes → Option Bytes) → Bytes → Option Bytes
read_back [] before path = before path
read_back ((p, content) ∷ written) before path =
    if str_eq p path then some content else read_back written before path

-- Where a file that was written is read again, there is no error.
abbrev pub still_fails : List (Bytes × Bytes) → (Bytes → Option ℕ) → Bytes → Option ℕ
still_fails [] before path = before path
still_fails ((p, content) ∷ written) before path =
    if str_eq p path then none else still_fails written before path

-- The files after these were written.
abbrev pub later : Libraries → List (Bytes × Bytes) → Libraries
later lib written = record lib {
  read_file = read_back written lib.read_file;
  read_error = still_fails written lib.read_error;
}

module _ (lib : Libraries) {W : Type 0} (owner : UiOwner W) (replies : SignReplies)
    (flushes : replies.flushes ≡ true) where
  -- A signature was made: of the text of the configuration, under a key that the user entered.
  abbrev Signed : Bytes → Bytes → Desk W → Type 0
  Signed config_path sig_path s =
      (text key md : Bytes) × (rest : List (Bytes × Bytes)) × (lib.read_file config_path
        ≡ some text)
      × Entered owner.ui key
      × (lib.hmac key text ≡ some md)
      × (s.written ≡ (sig_path, md) ∷ rest)
