-- ===== src/Tests/Loads.antt =====
-- A sample file of system call definitions, as src/parser loads it.
use gravelbox.Base.{ℕ, ◌≡◌, ◌↔◌, refl, Bytes, [], ◌∷◌, codes, true, some, ok, str_eq}
use gravelbox.NatMap
use gravelbox.NatMap.{NatMap}
use gravelbox.Parser.SyscallDef
use gravelbox.Parser.SyscallDef.{SyscallDef}
use gravelbox.Parser.ArgType.{str_type, sint32_type}
use gravelbox.Parser.Load.{
  find_type, param_type, load_definitions, read_syscalls, read_syscall, insert_syscall, add_params,
  sanitize,
}
use gravelbox.Parser.Loaded.{Defines, find-load_definitions}
use gravelbox.Tests.Sample.{one_definition}

abbrev loaded : NatMap SyscallDef
loaded = (2, record { fname = codes "open"; argtypes = str_type ∷ sint32_type ∷ [] }) ∷ []

find-load_definitions_example :
    (definitions : Bytes) × (one_definition.parse (codes "file") ≡ ok definitions)
    × (one_definition.is_array definitions ≡ true)
    × ((k : ℕ) (d : SyscallDef)
        → (NatMap.find k loaded ≡ some d)
          ↔ Defines one_definition (codes "def") k d (one_definition.elements definitions))
unfolding load_definitions read_syscalls read_syscall insert_syscall add_params param_type find_type
    SyscallDef.add_param sanitize NatMap.find NatMap.emplace NatMap.assign str_eq
find-load_definitions_example =
    find-load_definitions one_definition (codes "def") (codes "file") loaded refl
