-- ===== src/Parser/ArgText.antt =====
-- The text of one argument, as a function of its type and value: what `write` of each class in
-- src/parser/argtypes.cpp appends.
use gravelbox.Base.{
  ℕ, ◌%◌, ◌^◌, ◌≡◌, ◌≢◌, refl, Bytes, List, ◌++◌, append_assoc, codes, ◌==◌, if◌then◌else◌, All,
  Option, none, some, inl, inr, Outcome, ok, Bool-cases,
}
use gravelbox.Utils.{Reply, done, errno, check}
use gravelbox.Ostream.Defs.{Stream, put, put_unsigned, set_base}
use gravelbox.Ostream.Digits.{dec, hex}
use gravelbox.Ostream.Number.{print_unsigned, print_signed}
use gravelbox.Parser.StrType.{ReadMemory, Iovec, put_quoted, efault, remote_iovecs, write_read}
use gravelbox.Parser.StrText.{quoted, IsByte, put_quoted-quoted}
use gravelbox.Ostream.Plain.{IsPlain, put-text, put-IsPlain, put_unsigned-IsPlain, put_hex-text}
use gravelbox.Parser.ArgType.{
  ArgType, unknown_type, sint32_type, uint32_type, sint64_type, uint64_type, ptr_type, str_type,
  write,
}

-- `none` is an error other than EFAULT.
unfoldable pub memory_text : Reply Bytes → Option Bytes
memory_text (done buf) = some (quoted buf)
memory_text (errno n) = if n == efault then some (codes "<fault>") else none

unfoldable pub arg_text : ReadMemory → ℕ → ArgType → ℕ → Option Bytes
unfolding memory_text
arg_text read_memory target unknown_type v =
    some (codes "[0x" ++ (print_unsigned hex v ++ codes "]"))
arg_text read_memory target sint32_type v = some (print_signed dec 32 (v % 2 ^ 32))
arg_text read_memory target uint32_type v = some (print_unsigned dec (v % 2 ^ 32))
arg_text read_memory target sint64_type v = some (print_signed dec 64 v)
arg_text read_memory target uint64_type v = some (print_unsigned dec v)
arg_text read_memory target ptr_type v =
    some (if v == 0 then codes "NULL" else codes "0x" ++ print_unsigned hex v)
arg_text read_memory target str_type v = memory_text (read_memory target (remote_iovecs v))

-- The memory is made of bytes.
abbrev pub HoldsBytes : ReadMemory → Type 0
HoldsBytes read_memory =
    (pid : ℕ) (where_ : List Iovec) (buf : Bytes)
    → read_memory pid where_ ≡ done buf
    → All IsByte buf

-- A write to `os` appends `t`, or fails if there is no text.
abbrev pub Appends : Outcome Stream → Stream → Option Bytes → Type 0
Appends m os none = (os' : Stream) → m ≢ ok os'
Appends m os (some t) = (os' : Stream) × (m ≡ ok os') × (os'.text ≡ os.text ++ t) × IsPlain os'

read-Appends :
    (r : Reply Bytes) (os : Stream)
    → ((buf : Bytes) → r ≡ done buf → All IsByte buf)
    → IsPlain os
    → Appends (write_read (check r) os) os (memory_text r)
unfolding write_read check memory_text
read-Appends (done buf) os b w =
    let q = put_quoted-quoted buf os (b buf refl) w in (put_quoted buf os, refl, q.0, q.1)
read-Appends (errno n) os b w = elim (Bool-cases (n == efault)) [
  | inl y ↦ rw y (put (codes "<fault>") os, refl, put-text _ os w, put-IsPlain _ os)
  | inr n' ↦ rw n' (λ os' e. cc)
]

bracketed-text :
    (v : ℕ) (os : Stream)
    → IsPlain os
    → (put (codes "]") (put_unsigned v (set_base hex (put (codes "[0x") os)))).text
      ≡ os.text ++ (codes "[0x" ++ (print_unsigned hex v ++ codes "]"))
bracketed-text v os w =
    let opened = set_base hex (put (codes "[0x") os) in
    rw
      (
        put-text (codes "]") (put_unsigned v opened) (put_unsigned-IsPlain v opened),
        put_hex-text (codes "[0x") v os w,
      )
      (append_assoc os.text (codes "[0x" ++ print_unsigned hex v) (codes "]"))

pointer-Appends :
    (v : ℕ) (os : Stream)
    → IsPlain os
    → Appends
        (ok (
          if v == 0
          then put (codes "NULL") os
          else put_unsigned v (set_base hex (put (codes "0x") os))))
        os
        (some (if v == 0 then codes "NULL" else codes "0x" ++ print_unsigned hex v))
pointer-Appends v os w = elim (Bool-cases (v == 0)) [
  | inl y ↦ rw y (put (codes "NULL") os, refl, put-text _ os w, put-IsPlain _ os)
  | inr n ↦ rw n (
    put_unsigned v (set_base hex (put (codes "0x") os)),
    refl,
    put_hex-text (codes "0x") v os w,
    put_unsigned-IsPlain v _,
  )
]

module _ (read_memory : ReadMemory) (bytes : HoldsBytes read_memory) (target : ℕ) where
  -- Whatever base and fill the stream was left with, an argument of each type is printed as
  -- `arg_text` says, and no width is left behind.
  pub write-arg_text :
      (ty : ArgType) (v : ℕ) (os : Stream)
      → IsPlain os
      → Appends (write read_memory target ty v os) os (arg_text read_memory target ty v)
  unfolding write arg_text
  write-arg_text unknown_type v os w = (_, refl, bracketed-text v os w, put-IsPlain (codes "]") _)
  write-arg_text sint32_type v os w = (
    _,
    refl,
    put-text (print_signed dec 32 (v % 2 ^ 32)) (set_base dec os) w,
    put-IsPlain (print_signed dec 32 (v % 2 ^ 32)) (set_base dec os),
  )
  write-arg_text uint32_type v os w = (
    _,
    refl,
    put-text (print_unsigned dec (v % 2 ^ 32)) (set_base dec os) w,
    put-IsPlain (print_unsigned dec (v % 2 ^ 32)) (set_base dec os),
  )
  write-arg_text sint64_type v os w = (
    _,
    refl,
    put-text (print_signed dec 64 v) (set_base dec os) w,
    put-IsPlain (print_signed dec 64 v) (set_base dec os),
  )
  write-arg_text uint64_type v os w = (
    _,
    refl,
    put-text (print_unsigned dec v) (set_base dec os) w,
    put-IsPlain (print_unsigned dec v) (set_base dec os),
  )
  write-arg_text ptr_type v os w = pointer-Appends v os w
  write-arg_text str_type v os w = read-Appends _ os (bytes target (remote_iovecs v)) w
