-- ===== src/Parser/SyscallDef.antt =====
-- `SyscallDef` of src/parser/syscalldef.h: the signature of one system call.
use gravelbox.Base.{
  ℕ, ◌+◌, Bytes, List, [], ◌∷◌, ◌++◌, codes, length, leb, ltb, if◌then◌else◌, Outcome, ok,
  terminate, ◌>>=◌,
}
use gravelbox.Utils.{ArgArray, arg_at}
use gravelbox.Ostream.Defs.{Stream, put}
use gravelbox.Parser.StrType.{ReadMemory}
use gravelbox.Parser.ArgType.{ArgType, arg, put_arg}

pub record SyscallDef : Type 0 where
  pub fname : Bytes
  pub argtypes : List ArgType

abbrev pub new : Bytes → SyscallDef
new name = record { fname = name; argtypes = [] }

unfoldable pub add_param : ArgType → SyscallDef → SyscallDef
add_param ty d = record d { argtypes = d.argtypes ++ ty ∷ [] }

-- `for (size_t i = 0; i < argtypes_.size(); i++)`.
unfoldable pub write_args : ReadMemory → ℕ → ArgArray → List ArgType → ℕ → Stream → Outcome Stream
unfolding put_arg
write_args read_memory target args [] i os = ok os
write_args read_memory target args (ty ∷ tys) i os = do
  os' ←
      put_arg read_memory target (arg ty (arg_at args i))
        (if ltb 0 i then put (codes ", ") os else os)
  write_args read_memory target args tys (i + 1) os'

-- `write`, with its assertion on the number of parameters.
unfoldable pub write : ReadMemory → ℕ → SyscallDef → ArgArray → Stream → Outcome Stream
unfolding write_args
write read_memory target d args os =
    if leb (length d.argtypes) 6
    then (do
      os' ← write_args read_memory target args d.argtypes 0 (put (codes "(") (put d.fname os))
      ok (put (codes ")") os'))
    else terminate
