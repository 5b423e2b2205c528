-- ===== src/Program/Main.antt =====
-- `main` of src/main.cpp. What boost makes of the command line is an input.
use gravelbox.Base.{
  ℕ, Bytes, List, [], ◌∷◌, ◌++◌, codes, str_eq, Bool, true, false, ◌&&◌, if◌then◌else◌, Option,
  none, some, ok, terminate, Exception, system_error, ios_failure, config_exception,
  pinentry_exception, child_exit_exception,
}
use gravelbox.Exec.{Exec, try_catch, ◌>>=◌, ◌>>◌}
use gravelbox.Ostream.Digits.{dec}
use gravelbox.Ostream.Number.{print_unsigned}
use gravelbox.Exceptions.{config_what}
use gravelbox.Config.FileConfig.{Libraries}
use gravelbox.Program.Options.{Options, UiOwner}
use gravelbox.Program.Run.{Machine, run, exit_failure, exit_success}

-- An option as the parser found it: whether its `position_key` is -1, and its `string_key`.
pub record ParsedOption : Type 0 where
  pub named : Bool
  pub string_key : Bytes

-- What `run`, `store` and `notify` give: an error with its text, or the values.
pub data Stored : Type 0 where
  store_error : Bytes → Stored
  stored : Options → Stored

pub data CommandLine : Type 0 where
  parse_error : Bytes → CommandLine
  parsed : List ParsedOption → Stored → CommandLine

-- Texts that the libraries make: the options with their descriptions, `po::unknown_option("--args")`,
-- and `what` of a system error and of a stream's failure.
pub record Texts : Type 0 where
  pub visible_desc : Bytes
  pub unknown_args : Bytes
  pub system_what : ℕ → Bytes
  pub stream_what : Bytes

-- `std::cerr`, beside the rest of the world.
pub record Console (W : Type 0) : Type 0 where
  pub err : Bytes
  pub world : W

-- "--args" is not actually an option
unfoldable pub names_args : List ParsedOption → Bool
names_args [] = false
names_args (o ∷ os) =
    let rest = names_args os in if o.named && str_eq o.string_key (codes "args") then true else rest

-- The first `try` block.
unfoldable pub read_options : Texts → CommandLine → Stored
unfolding names_args
read_options texts (parse_error what) = store_error what
read_options texts (parsed options s) =
    if names_args options then store_error texts.unknown_args else s

module _ {W : Type 0} where
  unfoldable pub print : Bytes → Exec (Console W) (Unit {0})
  print text s = (ok tt, record s { err = s.err ++ text })

  unfoldable pub on_world : {A : Type 0} → Exec W A → Exec (Console W) A
  on_world m s = let (r, w) = m s.world in (r, record s { world = w })

  unfoldable pub exit : ℕ → Exec (Console W) (Option ℕ)
  exit code s = (ok (some code), s)

  -- The handlers of the second `try` block. `std::ios_base::failure` is a system error of code 1.
  unfoldable pub report : Texts → Exception → Exec (Console W) (Option ℕ)
  unfolding print exit ◌>>=◌
  report texts (system_error n) = do
    print (
        codes "System error "
        ++ (print_unsigned dec n ++ (codes ": " ++ (texts.system_what n ++ codes "\n"))))
    exit exit_failure
  report texts ios_failure = do
    print (codes "System error 1: " ++ (texts.stream_what ++ codes "\n"))
    exit exit_failure
  report texts (config_exception path type details) = do
    print (codes "Configuration error: " ++ (config_what path type details ++ codes "\n"))
    exit exit_failure
  report texts (pinentry_exception what) = do
    print (codes "Pinentry error: " ++ (what ++ codes "\n"))
    exit exit_failure
  report texts (child_exit_exception code) = exit code
  report texts _ = λ s. (terminate, s)

  -- An error of the command line.
  unfoldable pub refuse : Texts → Bytes → Exec (Console W) (Option ℕ)
  unfolding print exit ◌>>=◌
  refuse texts what = do
    print (codes "Error: " ++ (what ++ codes "\n"))
    print texts.visible_desc
    exit exit_failure

  unfoldable pub show_help : Texts → Exec (Console W) (Option ℕ)
  unfolding print exit ◌>>=◌
  show_help texts = print texts.visible_desc >> exit exit_success

module _ (lib : Libraries) {W : Type 0} (owner : UiOwner W) (m : Machine) (texts : Texts) where
  unfoldable pub run_guarded : Options → Exec (Console W) (Option ℕ)
  unfolding on_world report try_catch
  run_guarded vm = try_catch (on_world (run lib owner vm m)) (report texts)

  unfoldable pub run_options : Options → Exec (Console W) (Option ℕ)
  unfolding run_guarded refuse show_help
  run_options vm s = if vm.help then show_help texts s else elim vm.args [
    | none ↦ refuse texts (codes "no target provided") s
    | some _ ↦ run_guarded vm s
  ]

  unfoldable pub main : CommandLine → Exec (Console W) (Option ℕ)
  unfolding read_options run_options refuse
  main line s = elim (read_options texts line) [
    | store_error what ↦ refuse texts what s
    | stored vm ↦ run_options vm s
  ]
