-- ===== src/Parser/Load.antt =====
-- The constructor of `Parser` in src/parser/parser.cpp: the system call definitions of a JSON file.
-- `read_file` gives the bytes of a file that can be read, or `none` if it cannot be opened. An error behind
-- them does not leave JsonCpp, which then has a shorter text.
use gravelbox.Base.{
  ℕ, Bytes, List, [], ◌∷◌, ◌++◌, codes, Bool, true, false, Option, none, some, str_eq,
  if◌then◌else◌, config_exception, json_exception, Outcome, ok, throw, terminate, ◌>>=◌, ◌>>◌,
}
use gravelbox.NatMap
use gravelbox.NatMap.{NatMap}
use gravelbox.Ostream.Digits.{dec}
use gravelbox.Ostream.Number.{print_unsigned}
use gravelbox.Parser.ArgType.{
  ArgType, unknown_type, sint32_type, uint32_type, sint64_type, uint64_type, ptr_type, str_type,
}
use gravelbox.Parser.SyscallDef
use gravelbox.Parser.SyscallDef.{SyscallDef}
use gravelbox.Parser.Call.{Parser}
use gravelbox.Parser.Json.{Json}

-- `argtypes_`, by the order of its initialiser.
abbrev pub argtypes : List (Bytes × ArgType)
argtypes =
    (codes "unknown", unknown_type)
    ∷ (codes "flags", uint64_type)
    ∷ (codes "int32_t", sint32_type)
    ∷ (codes "uint32_t", uint32_type)
    ∷ (codes "int64_t", sint64_type)
    ∷ (codes "uint64_t", uint64_type)
    ∷ (codes "char*", str_type)
    ∷ (codes "void*", ptr_type)
    ∷ []

unfoldable pub find_type : Bytes → List (Bytes × ArgType) → Option ArgType
find_type s [] = none
find_type s ((name, ty) ∷ m) = if str_eq name s then some ty else find_type s m

abbrev pub syscall_definition : Bytes
syscall_definition = codes "syscall definition"

-- [[noreturn]] error(path, details)
abbrev pub error {ℓ} : {A : Type ℓ} → Bytes → Bytes → Outcome A
error def details = throw (config_exception def syscall_definition details)

unfoldable pub sanitize : Bytes → Bool → Bytes → Outcome (Unit {0})
sanitize def true details = ok tt
sanitize def false details = error def details

-- argtypes_.at(param_str), with its handler.
unfoldable pub param_type : Bytes → Bytes → Outcome ArgType
unfolding find_type
param_type def s = elim (find_type s argtypes) [
  | none ↦ error def (codes "unknown type \"" ++ (s ++ codes "\""))
  | some ty ↦ ok ty
]

-- catch (const Json::Exception &je)
unfoldable pub catch_json {ℓ} : {A : Type ℓ} → Bytes → Outcome A → Outcome A
catch_json def (ok a) = ok a
catch_json def (throw (json_exception what)) = error def what
catch_json def (throw x) = throw x
catch_json def terminate = terminate

module _ (json : Json) (def : Bytes) where
  open json use {Value, parse, is_array, is_object, member, elements, as_string, as_uint64}

  -- for (const Json::Value &param : params)
  unfoldable pub add_params : List Value → SyscallDef → Outcome SyscallDef
  unfolding param_type SyscallDef.add_param
  add_params [] d = ok d
  add_params (v ∷ vs) d = do
    s ← as_string v
    ty ← param_type def s
    add_params vs (SyscallDef.add_param ty d)

  -- The number and the signature of one element.
  unfoldable pub read_syscall : Value → Outcome (ℕ × SyscallDef)
  unfolding sanitize add_params
  read_syscall v = do
    sanitize def (is_object v) (codes "syscall definition is not an object")
    number ← as_uint64 (← member v (codes "number"))
    name ← as_string (← member v (codes "name"))
    params ← member v (codes "params")
    sanitize def (is_array params) (codes "parameter definition is not an array")
    d ← add_params (elements params) (SyscallDef.new name)
    ok (number, d)

  -- syscall_map_.emplace(number, std::move(syscalldef))
  unfoldable pub insert_syscall : ℕ × SyscallDef → NatMap SyscallDef → Outcome (NatMap SyscallDef)
  unfolding sanitize NatMap.emplace
  insert_syscall (number, d) m =
      let (m', inserted) = NatMap.emplace number d m in
      sanitize def inserted (codes "duplicate syscall number " ++ print_unsigned dec number)
      >> ok m'

  -- for (const Json::Value &syscall : definitions)
  unfoldable pub read_syscalls : List Value → NatMap SyscallDef → Outcome (NatMap SyscallDef)
  read_syscalls [] m = ok m
  read_syscalls (v ∷ vs) m = do
    entry ← read_syscall v
    m' ← insert_syscall entry m
    read_syscalls vs m'

  -- The `try` block, on the bytes of the file.
  unfoldable pub load_definitions : Option Bytes → Outcome (NatMap SyscallDef)
  unfolding sanitize
  load_definitions none = error def (codes "file not found")
  load_definitions (some bytes) = do
    definitions ← parse bytes
    sanitize def (is_array definitions) (codes "definition list is not an array")
    read_syscalls (elements definitions) []

-- Parser(def); `target_` is not initialised, and holds any value.
unfoldable pub new_parser : Json → (Bytes → Option Bytes) → ℕ → Bytes → Outcome Parser
unfolding load_definitions catch_json
new_parser json read_file target def = do
  m ← catch_json def (load_definitions json def (read_file def))
  ok (record { target = target; syscall_map = m })
