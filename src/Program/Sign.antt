-- ===== src/Program/Sign.antt =====
-- `main` of src/sign.cpp. Whether the signature file can be opened and written is an input.
use gravelbox.Base.{
  ℕ, Bytes, List, [], ◌∷◌, ◌++◌, codes, Bool, if◌then◌else◌, Option, none, some, Outcome, ok, throw,
  terminate, Exception, ios_failure, config_exception,
}
use gravelbox.Exec.{Exec, pure, lift, try_catch, ◌>>=◌, ◌>>◌}
use gravelbox.Exceptions.{config_what, is_std_exception}
use gravelbox.Config.FileConfig.{Libraries}
use gravelbox.Program.Options.{UiOwner, owning}
use gravelbox.Program.Key.{key_message, key_prompt}
use gravelbox.Program.Run.{exit_failure, exit_success}

-- What `what` says of an exception that the libraries throw.
abbrev pub What : Type 0
What = Exception → Bytes

-- The files written, latest first, what went to `std::cerr`, and the rest of the world.
pub record Desk (W : Type 0) : Type 0 where
  pub written : List (Bytes × Bytes)
  pub err : Bytes
  pub world : W

-- What the system answers about the signature file: whether it can be opened, whether `write` succeeds,
-- and whether what the stream has buffered reaches the file when its destructor closes it.
pub record SignReplies : Type 0 where
  pub opens : Bool
  pub writes : Bool
  pub flushes : Bool

module _ {W : Type 0} where
  unfoldable pub print : Bytes → Exec (Desk W) (Unit {0})
  print text s = (ok tt, record s { err = s.err ++ text })

  unfoldable pub on_world : {A : Type 0} → Exec W A → Exec (Desk W) A
  on_world m s = let (r, w) = m s.world in (r, record s { world = w })

  unfoldable pub write_file : Bytes → Bytes → Exec (Desk W) (Unit {0})
  write_file path content s = (ok tt, record s { written = (path, content) ∷ s.written })

module _ (lib : Libraries) {W : Type 0} (owner : UiOwner W) (replies : SignReplies) where
  unfoldable pub cannot_open : Bytes → Bytes → Bytes → Exception
  cannot_open path type file =
      config_exception path type (codes "Cannot open file \"" ++ (file ++ codes "\""))

  unfoldable pub read_text : Bytes → Outcome Bytes
  unfolding cannot_open
  read_text path = elim (lib.read_file path) [
    | none ↦ throw (cannot_open path (codes "GravelBox configuration") path)
    | some text ↦ elim (lib.read_error path) [ none ↦ ok text | some end ↦ throw ios_failure ]
  ]

  -- The scope of the user interface.
  unfoldable pub ask_key : Exec W (Option Bytes)
  unfolding owning ◌>>=◌
  ask_key =
      owning owner
        (owner.make (codes "pinentry") >> owner.ui.ask_password key_message key_prompt [])

  -- `write`, and what the destructor of the stream leaves in the file; it does not say whether it could
  -- write what was buffered.
  unfoldable pub write_out : Bytes → Bytes → Exec (Desk W) (Unit {0})
  unfolding write_file pure lift
  write_out path content =
      if replies.writes
      then (if replies.flushes then write_file path content else pure tt)
      else lift (throw ios_failure)

  -- The scope of the output file, which is empty once it is open.
  unfoldable pub write_signature : Bytes → Bytes → Bytes → Exec (Desk W) (Unit {0})
  unfolding cannot_open write_file write_out lift ◌>>=◌
  write_signature config_path sig_path md =
      if replies.opens
      then (do write_file sig_path []; write_out sig_path md)
      else lift
          (throw (cannot_open config_path (codes "GravelBox configuration signature") sig_path))

  unfoldable pub finish : Bytes → Bytes → Option Bytes → Exec (Desk W) ℕ
  unfolding write_signature print pure ◌>>=◌
  finish config_path sig_path none = pure exit_failure
  finish config_path sig_path (some md) = do
    write_signature config_path sig_path md
    print (config_path ++ codes " signed successfully\n")
    pure exit_success

  unfoldable pub sign_with : Bytes → Bytes → Bytes → Option Bytes → Exec (Desk W) ℕ
  unfolding finish pure
  sign_with config_path sig_path text none = pure exit_failure
  sign_with config_path sig_path text (some key) = finish config_path sig_path (lib.hmac key text)

  -- The `try` block.
  unfoldable pub sign : Bytes → Bytes → Exec (Desk W) ℕ
  unfolding read_text lift on_world ask_key sign_with ◌>>=◌
  sign config_path sig_path = do
    text ← lift (read_text config_path)
    entered ← on_world ask_key
    sign_with config_path sig_path text entered

  -- The handlers; what none of them catches ends the process.
  unfoldable pub report : What → Exception → Exec (Desk W) ℕ
  unfolding print pure config_what is_std_exception ◌>>=◌
  report what (config_exception path type details) = do
    print (codes "Config error: " ++ (config_what path type details ++ codes "\n"))
    pure exit_failure
  report what e =
      if is_std_exception e
      then (do print (codes "Error: " ++ (what e ++ codes "\n")); pure exit_failure)
      else lift terminate

  unfoldable pub main : What → List Bytes → Exec (Desk W) ℕ
  unfolding sign report try_catch print pure ◌>>=◌
  main what (program ∷ config_path ∷ sig_path ∷ []) =
      try_catch (sign config_path sig_path) (report what)
  main what [] = do print (codes "Usage:  <config> <signature>\n"); pure exit_failure
  main what (program ∷ _) = do
    print (codes "Usage: " ++ (program ++ codes " <config> <signature>\n"))
    pure exit_failure
