-- ===== src/Parser/ArgType.antt =====
-- The argument types of src/parser/argtypes.h and argtypes.cpp.
use gravelbox.Base.{ℕ, ◌%◌, ◌^◌, codes, ◌==◌, if◌then◌else◌, Outcome, ok}
use gravelbox.Ostream.Defs.{Stream, put, put_unsigned, put_signed, set_base}
use gravelbox.Ostream.Digits.{dec, hex}
use gravelbox.Parser.StrType.{ReadMemory, write_str}

-- A class of argtypes.h each.
pub data ArgType : Type 0 where
  unknown_type sint32_type uint32_type sint64_type uint64_type ptr_type str_type : ArgType

-- `write` of each class; `target` is the pid that a `MemType` holds.
unfoldable pub write : ReadMemory → ℕ → ArgType → ℕ → Stream → Outcome Stream
unfolding write_str put_unsigned put_signed set_base
write read_memory target unknown_type value os =
    ok (put (codes "]") (put_unsigned value (set_base hex (put (codes "[0x") os))))
write read_memory target sint32_type value os =
    ok (put_signed 32 (value % 2 ^ 32) (set_base dec os))
write read_memory target uint32_type value os = ok (put_unsigned (value % 2 ^ 32) (set_base dec os))
write read_memory target sint64_type value os = ok (put_signed 64 value (set_base dec os))
write read_memory target uint64_type value os = ok (put_unsigned value (set_base dec os))
write read_memory target ptr_type value os = ok (
    if value == 0
    then put (codes "NULL") os
    else put_unsigned value (set_base hex (put (codes "0x") os)))
write read_memory target str_type value os = write_str read_memory target value os

-- `Arg`: the value of a register, with its type.
pub record Arg : Type 0 where
  pub type : ArgType
  pub value : ℕ

-- The call operator of an `ArgType`.
abbrev pub arg : ArgType → ℕ → Arg
arg ty value = record { type = ty; value = value }

-- `operator<<` of an `Arg`.
unfoldable pub put_arg : ReadMemory → ℕ → Arg → Stream → Outcome Stream
put_arg read_memory target a os = write read_memory target a.type a.value os
