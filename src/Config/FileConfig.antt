-- ===== src/Config/FileConfig.antt =====
-- `FileConfig` of src/config/file_config.h and file_config.cpp. Regular expressions, HMAC and JsonCpp
-- are parameters, and so are the files.
use gravelbox.Base.{
  ℕ, Bytes, List, [], ◌∷◌, ◌++◌, codes, Bool, true, false, not, Option, none, some, str_eq, length,
  ◌==◌, if◌then◌else◌, config_exception, json_exception, regex_error, ios_failure, Outcome, ok,
  throw, ◌>>=◌, ◌>>◌,
}
use gravelbox.Parser.Json.{Json}
use gravelbox.Config.Hex.{hex2bytes}

pub data Verdict : Type 0 where
  allow deny ask : Verdict

abbrev pub hash_size : ℕ
hash_size = 64

-- The libraries behind a configuration.
pub record Libraries : Type 1 where
  pub json : Json
  pub Regex : Type 0
  -- std::regex(p, optimize), which may throw `regex_error`
  pub compile : Bytes → Outcome Regex
  -- std::regex_match of the whole text
  pub regex_match : Bytes → Regex → Bool
  -- HMAC(EVP_sha512(), key, data); `none` is a null result
  pub hmac : Bytes → Bytes → Option Bytes
  -- the bytes of a file that can be read, if it can be opened
  pub read_file : Bytes → Option Bytes
  -- where reading an opened file ends with an error (as for a directory): what `tellg` gives for its end
  pub read_error : Bytes → Option ℕ

-- s.empty()
abbrev pub is_empty : Bytes → Bool
is_empty [] = true
is_empty (_ ∷ _) = false

module _ (lib : Libraries) where
  open lib use {json, Regex, compile, regex_match, hmac, read_file, read_error}
  open json use {Value, parse, is_array, is_object, member, elements, as_string, as_uint64}

  pub record ActionGroup : Type 0 where
    pub action : Verdict
    pub patterns : List Regex

  pub record FileConfig : Type 0 where
    pub config : Bytes
    pub signature : Bytes
    pub key : Bytes
    pub password_hash : Bytes
    pub syscalldef : Bytes
    pub pinentry : Bytes
    pub max_str_len : ℕ
    pub action_default : Verdict
    pub action_groups : List ActionGroup

  -- [[noreturn]] error(path, details)
  abbrev pub error {ℓ} : {A : Type ℓ} → Bytes → Bytes → Outcome A
  error path details = throw (config_exception path (codes "GravelBox configuration") details)

  unfoldable pub sanitize : Bytes → Bool → Bytes → Outcome (Unit {0})
  sanitize path true details = ok tt
  sanitize path false details = error path details

  unfoldable pub to_action : Bytes → Bytes → Outcome Verdict
  to_action path s =
      if str_eq s (codes "allow")
      then ok allow
      else if str_eq s (codes "ask")
      then ok ask
      else if str_eq s (codes "deny")
      then ok deny
      else error path (codes "unknown action: \"" ++ (s ++ codes "\""))

  unfoldable pub password_bytes : Bytes → Bytes → Outcome Bytes
  password_bytes path hex = elim (hex2bytes hex) [
    | none ↦ error path (codes "invalid hex string \"" ++ (hex ++ codes "\""))
    | some bytes ↦ ok bytes
  ]

  -- config[key].asString()
  unfoldable pub string_at : Value → Bytes → Outcome Bytes
  string_at v key = do m ← member v key; as_string m

  unfoldable pub compile_all : List Value → Outcome (List Regex)
  compile_all [] = ok []
  compile_all (v ∷ vs) = do p ← as_string v; r ← compile p; rs ← compile_all vs; ok (r ∷ rs)

  unfoldable pub read_groups : Bytes → List Value → Outcome (List ActionGroup)
  unfolding sanitize to_action string_at compile_all
  read_groups path [] = ok []
  read_groups path (ag ∷ ags) = do
    action ← to_action path (← string_at ag (codes "action"))
    patterns ← member ag (codes "patterns")
    sanitize path (is_array patterns) (codes "patterns is not an array")
    rs ← compile_all (elements patterns)
    groups ← read_groups path ags
    ok (record { action = action; patterns = rs } ∷ groups)

  -- The `try` block.
  unfoldable pub read_config : Bytes → Outcome FileConfig
  unfolding sanitize
  read_config path = do
    text ← elim (read_file path) [
      | none ↦ error path (codes "Cannot open file \"" ++ (path ++ codes "\""))
      | some bytes ↦ elim (read_error path) [ none ↦ ok bytes | some end ↦ throw ios_failure ]
    ]
    config ← parse text
    sanitize path (is_object config) (codes "config is not an object")
    signature ← string_at config (codes "signature")
    hash ← password_bytes path (← string_at config (codes "password"))
    if is_empty hash
        then ok tt
        else sanitize path (length hash == hash_size) (codes "password hash size incorrect")
    syscalldef ← string_at config (codes "syscall-definition")
    pinentry ← string_at config (codes "pinentry")
    max_str_len ← as_uint64 (← member config (codes "max-string-length"))
    default ← to_action path (← string_at config (codes "default-action"))
    groups ← member config (codes "action-groups")
    sanitize path (is_array groups) (codes "action group is not an array")
    action_groups ← read_groups path (elements groups)
    ok (record {
      config = text;
      signature = signature;
      key = [];
      password_hash = hash;
      syscalldef = syscalldef;
      pinentry = pinentry;
      max_str_len = max_str_len;
      action_default = default;
      action_groups = action_groups;
    })

  -- The handlers of the constructor.
  unfoldable pub catch_config : Bytes → Outcome FileConfig → Outcome FileConfig
  catch_config path (throw (regex_error what)) = error path (codes "Regex error: " ++ what)
  catch_config path (throw (json_exception what)) = error path what
  catch_config path m = m

  unfoldable pub new_config : Bytes → Outcome FileConfig
  unfolding catch_config
  new_config path = catch_config path (read_config path)

  -- The loops of get_action.
  unfoldable pub any_match : Bytes → List Regex → Bool
  any_match syscall [] = false
  any_match syscall (r ∷ rs) = if regex_match syscall r then true else any_match syscall rs

  unfoldable pub first_action : Bytes → List ActionGroup → Verdict → Verdict
  unfolding any_match
  first_action syscall [] default = default
  first_action syscall (ag ∷ ags) default =
      if any_match syscall ag.patterns then ag.action else first_action syscall ags default

  unfoldable pub get_action : FileConfig → Bytes → Verdict
  unfolding first_action
  get_action c syscall = first_action syscall c.action_groups c.action_default

  unfoldable pub verify_hmac : FileConfig → Bytes → Bytes → Bool
  verify_hmac c text mac = elim (hmac c.key text) [ none ↦ false | some md ↦ str_eq md mac ]

  unfoldable pub has_password : FileConfig → Bool
  has_password c = not (is_empty c.password_hash)

  unfoldable pub verify_password : FileConfig → Bytes → Bool
  verify_password c password = verify_hmac c password c.password_hash

  unfoldable pub dismiss_signature : FileConfig → FileConfig
  dismiss_signature c = record c { config = [] }

  unfoldable pub remove_password : FileConfig → FileConfig
  remove_password c = record c { password_hash = [] }

  -- The errors about the signature file
  abbrev pub signature_error {ℓ} : {A : Type ℓ} → FileConfig → Bytes → Outcome A
  signature_error c details =
      throw (config_exception c.signature (codes "GravelBox configuration signature") details)

  -- The state comes back beside the answer: the key stays set whatever happens.
  unfoldable pub verify_signature : FileConfig → Bytes → Outcome Bool × FileConfig
  unfolding dismiss_signature
  verify_signature c key =
      let c' = record c { key = key } in
      elim (read_file c.signature) [
        | none ↦
            (signature_error c' (codes "Cannot open file \"" ++ (c.signature ++ codes "\"")), c')
        | some sig ↦ elim (read_error c.signature) [
          | none ↦
              if length sig == hash_size
              then (if verify_hmac c' c'.config sig
                  then (ok true, dismiss_signature c')
                  else (ok false, c'))
              else (signature_error c' (codes "Incorrect signature length"), c')
          | some end ↦ (
            if end == hash_size
                then throw ios_failure
                else signature_error c' (codes "Incorrect signature length"),
            c',
          )
        ]
      ]
