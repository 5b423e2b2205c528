-- ===== src/Config/Throws.antt =====
-- What the constructor of `FileConfig` in src/config/file_config.cpp can throw.
use gravelbox.Base.{
  ℕ, ◌≡◌, Option-cases, inl, inr, Bytes, List, [], ◌∷◌, ◌++◌, codes, Bool, true, false, str_eq,
  Option, none, some, if◌then◌else◌, Exception, system_error, ios_failure, config_exception,
  pinentry_exception, child_exit_exception, out_of_range, json_exception, regex_error, Outcome, ok,
  throw, arith,
}
use gravelbox.Base.Only.{IsJsonException, Only, returned, thrown, Only-bind, Only-then, Only-weaken}
use gravelbox.Parser.Json.{JsonThrows}
use gravelbox.Config.Hex.{hex2bytes}
use gravelbox.Config.FileConfig.{
  Libraries, FileConfig, allow, ask, deny, is_empty, sanitize, to_action, password_bytes, string_at,
  compile_all, read_groups, read_config, catch_config, new_config,
}

abbrev pub IsRegexError : Exception → Type 0
IsRegexError (regex_error _) = Unit
IsRegexError _ = ⊥

-- The exceptions that the `try` block can meet.
abbrev pub Expected : Exception → Type 0
Expected (config_exception _ _ _) = Unit
Expected (json_exception _) = Unit
Expected (regex_error _) = Unit
Expected _ = ⊥

-- With what the reading of the file can throw.
abbrev Reading : Libraries → Bytes → Exception → Type 0
Reading lib path (config_exception _ _ _) = Unit
Reading lib path (json_exception _) = Unit
Reading lib path (regex_error _) = Unit
Reading lib path ios_failure = (end : ℕ) × (lib.read_error path ≡ some end)
Reading lib path _ = ⊥

-- A `ConfigException`, or an error of the stream where the file can be opened and not be read.
abbrev pub LoadError : Libraries → Bytes → Exception → Type 0
LoadError lib path (config_exception _ _ _) = Unit
LoadError lib path ios_failure = (end : ℕ) × (lib.read_error path ≡ some end)
LoadError lib path _ = ⊥

pub json-Expected : (e : Exception) → IsJsonException e → Expected e
json-Expected e h = ground arith

regex-Expected : (e : Exception) → IsRegexError e → Expected e
regex-Expected e h = ground arith

module _ (lib : Libraries) (json : JsonThrows lib.json)
    (regex : (p : Bytes) → Only IsRegexError (lib.compile p)) where
  sanitize-Only :
      (path : Bytes) (b : Bool) (details : Bytes) → Only Expected (sanitize lib path b details)
  unfolding sanitize
  sanitize-Only path true details = returned tt
  sanitize-Only path false details = thrown _ tt

  test-Only :
      {A : Type 0} (b : Bool) {m n : Outcome A}
      → Only Expected m
      → Only Expected n
      → Only Expected (if b then m else n)
  test-Only true h k = h
  test-Only false h k = k

  to_action-Only : (path s : Bytes) → Only Expected (to_action lib path s)
  unfolding to_action
  to_action-Only path s = test-Only (str_eq s (codes "allow")) (returned allow) (
      test-Only (str_eq s (codes "ask")) (returned ask)
        (test-Only (str_eq s (codes "deny")) (returned deny) (thrown _ tt)))

  password_bytes-Only : (path hex : Bytes) → Only Expected (password_bytes lib path hex)
  unfolding password_bytes
  password_bytes-Only path hex = go (hex2bytes hex)
    where
      go :
          (o : Option Bytes)
          → Only Expected (elim o [
            | none ↦ throw (
                config_exception path
                  (codes "GravelBox configuration")
                  (codes "invalid hex string \"" ++ (hex ++ codes "\"")))
            | some bytes ↦ ok bytes
          ])
      go none = thrown _ tt
      go (some b) = returned b

  member-Only : (v : lib.json.Value) (key : Bytes) → Only Expected (lib.json.member v key)
  member-Only v key = Only-weaken json-Expected (json.member v key)

  as_string-Only : (v : lib.json.Value) → Only Expected (lib.json.as_string v)
  as_string-Only v = Only-weaken json-Expected (json.as_string v)

  string_at-Only : (v : lib.json.Value) (key : Bytes) → Only Expected (string_at lib v key)
  unfolding string_at
  string_at-Only v key = Only-bind (member-Only v key) λ m. as_string-Only m

  compile_all-Only : (vs : List lib.json.Value) → Only Expected (compile_all lib vs)
  unfolding compile_all
  compile_all-Only [] = returned []
  compile_all-Only (v ∷ vs) = Only-bind (as_string-Only v) λ p.
      Only-bind (Only-weaken regex-Expected (regex p))
        λ r. Only-bind (compile_all-Only vs) λ rs. returned _

  read_groups-Only :
      (path : Bytes) (vs : List lib.json.Value) → Only Expected (read_groups lib path vs)
  unfolding read_groups
  read_groups-Only path [] = returned []
  read_groups-Only path (v ∷ vs) = Only-bind (string_at-Only v _) λ s.
      Only-bind (to_action-Only path s) λ a. Only-bind (member-Only v _) λ ps.
        Only-then (sanitize-Only path _ _) (
          Only-bind (compile_all-Only _)
            λ rs. Only-bind (read_groups-Only path vs) λ gs. returned _)

  Expected-Reading : (path : Bytes) (e : Exception) → Expected e → Reading lib path e
  Expected-Reading path e h = ground arith

  text-Only :
      (path : Bytes) (o : Option Bytes)
      → Only (Reading lib path) (elim o [
        | none ↦ throw (
            config_exception path
              (codes "GravelBox configuration")
              (codes "Cannot open file \"" ++ (path ++ codes "\"")))
        | some bytes ↦ elim (lib.read_error path) [ none ↦ ok bytes | some end ↦ throw ios_failure ]
      ])
  text-Only path none = thrown _ tt
  text-Only path (some b) = elim (Option-cases (lib.read_error path)) [
    | inl e ↦ rw e (returned b)
    | inr (end, e) ↦ rw e (thrown ios_failure (end, e))
  ]

  read_config-Only : (path : Bytes) → Only (Reading lib path) (read_config lib path)
  unfolding read_config
  read_config-Only path = Only-bind (text-Only path (lib.read_file path)) λ text.
      Only-weaken (Expected-Reading path) (
        Only-bind (Only-weaken json-Expected (json.parse text)) λ config.
          Only-then (sanitize-Only path _ _) (
            Only-bind (string_at-Only config _) λ signature.
              Only-bind (string_at-Only config _) λ hex.
                Only-bind (password_bytes-Only path hex) λ hash.
                  Only-then (test-Only (is_empty hash) (returned tt) (sanitize-Only path _ _)) (
                    Only-bind (string_at-Only config _) λ syscalldef.
                      Only-bind (string_at-Only config _) λ pinentry.
                        Only-bind (member-Only config _) λ v.
                          Only-bind (Only-weaken json-Expected (json.as_uint64 v)) λ len.
                            Only-bind (string_at-Only config _) λ d.
                              Only-bind (to_action-Only path d) λ default.
                                Only-bind (member-Only config _) λ groups.
                                  Only-then (sanitize-Only path _ _)
                                    (Only-bind (read_groups-Only path _) λ gs. returned _))))

  catch_config-Only :
      (path : Bytes) (m : Outcome (FileConfig lib))
      → Only (Reading lib path) m
      → Only (LoadError lib path) (catch_config lib path m)
  unfolding catch_config
  catch_config-Only path _ (returned c) = returned c
  catch_config-Only path _ (thrown (config_exception _ _ _) h) = thrown _ tt
  catch_config-Only path _ (thrown (json_exception _) h) = thrown _ tt
  catch_config-Only path _ (thrown (regex_error _) h) = thrown _ tt
  catch_config-Only path _ (thrown (system_error _) h) = absurd h
  catch_config-Only path _ (thrown ios_failure h) = thrown _ h
  catch_config-Only path _ (thrown (pinentry_exception _) h) = absurd h
  catch_config-Only path _ (thrown (child_exit_exception _) h) = absurd h
  catch_config-Only path _ (thrown out_of_range h) = absurd h

  pub new_config-Only : (path : Bytes) → Only (LoadError lib path) (new_config lib path)
  unfolding new_config
  new_config-Only path = catch_config-Only path (read_config lib path) (read_config-Only path)
