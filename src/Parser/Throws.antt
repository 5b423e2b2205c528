-- ===== src/Parser/Throws.antt =====
-- What the constructor of `Parser` in src/parser/parser.cpp can throw.
use gravelbox.Base.{
  ℕ, Bytes, List, [], ◌∷◌, ◌++◌, codes, Bool, true, false, Option, none, some, Exception,
  system_error, ios_failure, config_exception, pinentry_exception, child_exit_exception,
  out_of_range, json_exception, regex_error, Outcome, ok, throw, arith,
}
use gravelbox.Base.Only.{
  IsConfigException, IsJsonException, Only, returned, thrown, Only-bind, Only-then, Only-weaken,
}
use gravelbox.NatMap.{NatMap}
use gravelbox.Parser.ArgType.{ArgType}
use gravelbox.Parser.SyscallDef.{SyscallDef}
use gravelbox.Parser.Json.{Json, JsonThrows}
use gravelbox.Parser.Load.{
  sanitize, argtypes, find_type, param_type, add_params, read_syscall, insert_syscall,
  read_syscalls, load_definitions, catch_json, new_parser,
}

-- The exceptions that the `try` block can meet.
abbrev Expected : Exception → Type 0
Expected (config_exception _ _ _) = Unit
Expected (json_exception _) = Unit
Expected _ = ⊥

json-Expected : (e : Exception) → IsJsonException e → Expected e
json-Expected e h = ground arith

module _ (json : Json) (throws : JsonThrows json) (def : Bytes) where
  sanitize-Only : (b : Bool) (details : Bytes) → Only Expected (sanitize def b details)
  unfolding sanitize
  sanitize-Only true details = returned tt
  sanitize-Only false details = thrown _ tt

  param_type-Only : (s : Bytes) → Only Expected (param_type def s)
  unfolding param_type
  param_type-Only s = go (find_type s argtypes)
    where
      go :
          (o : Option ArgType)
          → Only Expected (elim o [
            | none ↦ throw (
                config_exception def
                  (codes "syscall definition")
                  (codes "unknown type \"" ++ (s ++ codes "\"")))
            | some ty ↦ ok ty
          ])
      go none = thrown _ tt
      go (some ty) = returned ty

  member-Only : (v : json.Value) (key : Bytes) → Only Expected (json.member v key)
  member-Only v key = Only-weaken json-Expected (throws.member v key)

  as_string-Only : (v : json.Value) → Only Expected (json.as_string v)
  as_string-Only v = Only-weaken json-Expected (throws.as_string v)

  add_params-Only :
      (vs : List json.Value) (d : SyscallDef) → Only Expected (add_params json def vs d)
  unfolding add_params
  add_params-Only [] d = returned d
  add_params-Only (v ∷ vs) d =
      Only-bind (as_string-Only v) λ s. Only-bind (param_type-Only s) λ ty. add_params-Only vs _

  read_syscall-Only : (v : json.Value) → Only Expected (read_syscall json def v)
  unfolding read_syscall
  read_syscall-Only v = Only-then (sanitize-Only _ _) (
      Only-bind (member-Only v _) λ n.
        Only-bind (Only-weaken json-Expected (throws.as_uint64 n)) λ number.
          Only-bind (member-Only v _) λ s. Only-bind (as_string-Only s) λ name.
            Only-bind (member-Only v _) λ params.
              Only-then (sanitize-Only _ _)
                (Only-bind (add_params-Only (json.elements params) _) λ d. returned _))

  insert_syscall-Only :
      (entry : ℕ × SyscallDef) (m : NatMap SyscallDef)
      → Only Expected (insert_syscall json def entry m)
  unfolding insert_syscall
  insert_syscall-Only (number, d) m = Only-then (sanitize-Only _ _) (returned _)

  read_syscalls-Only :
      (vs : List json.Value) (m : NatMap SyscallDef) → Only Expected (read_syscalls json def vs m)
  unfolding read_syscalls
  read_syscalls-Only [] m = returned m
  read_syscalls-Only (v ∷ vs) m =
      Only-bind (read_syscall-Only v)
        λ entry. Only-bind (insert_syscall-Only entry m) λ m'. read_syscalls-Only vs m'

  load_definitions-Only : (bytes : Option Bytes) → Only Expected (load_definitions json def bytes)
  unfolding load_definitions
  load_definitions-Only none = thrown _ tt
  load_definitions-Only (some bytes) =
      Only-bind (Only-weaken json-Expected (throws.parse bytes))
        λ v. Only-then (sanitize-Only _ _) (read_syscalls-Only (json.elements v) [])

catch_json-Only :
    {A : Type 0} (def : Bytes) (m : Outcome A)
    → Only Expected m
    → Only IsConfigException (catch_json def m)
unfolding catch_json
catch_json-Only def _ (returned a) = returned a
catch_json-Only def _ (thrown (config_exception _ _ _) h) = thrown _ tt
catch_json-Only def _ (thrown (json_exception _) h) = thrown _ tt
catch_json-Only def _ (thrown (regex_error _) h) = absurd h
catch_json-Only def _ (thrown (system_error _) h) = absurd h
catch_json-Only def _ (thrown ios_failure h) = absurd h
catch_json-Only def _ (thrown (pinentry_exception _) h) = absurd h
catch_json-Only def _ (thrown (child_exit_exception _) h) = absurd h
catch_json-Only def _ (thrown out_of_range h) = absurd h

pub new_parser-Only :
    (json : Json)
    → JsonThrows json
    → (read_file : Bytes → Option Bytes) (target : ℕ) (def : Bytes)
    → Only IsConfigException (new_parser json read_file target def)
unfolding new_parser
new_parser-Only json throws read_file target def =
    Only-bind (catch_json-Only def _ (load_definitions-Only json throws def (read_file def)))
      λ m. returned _
