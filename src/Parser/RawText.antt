-- ===== src/Parser/RawText.antt =====
-- The text of a system call with no definition, as the call operator of src/parser/parser.cpp writes
-- it.
use gravelbox.Base.{
  ℕ, zero, suc, ◌+◌, ◌≡◌, refl, sym, ◌∙◌, Bytes, [], ◌++◌, append_assoc, append-nil, codes, ltb,
  if◌then◌else◌,
}
use gravelbox.Utils.{SyscallArgs, ArgArray, arg_at}
use gravelbox.Ostream.Defs.{Stream, put, put_unsigned, set_base}
use gravelbox.Ostream.Digits.{dec, hex}
use gravelbox.Ostream.Number.{print_unsigned}
use gravelbox.Ostream.Plain.{
  IsPlain, put-text, put-IsPlain, put-base, put_unsigned-text, put_unsigned-IsPlain,
  put_unsigned-base,
}
use gravelbox.Parser.Call.{put_raw, put_raw_args}

-- The registers of a call with no definition, from number `i` on.
unfoldable pub raw_args_text : ℕ → ℕ → ArgArray → Bytes
raw_args_text zero i a = []
raw_args_text (suc left) i a =
    codes "0x"
    ++ (print_unsigned hex (arg_at a i)
        ++ ((if ltb i 5 then codes ", " else codes ")") ++ raw_args_text left (i + 1) a))

unfoldable pub raw_text : SyscallArgs → Bytes
unfolding raw_args_text
raw_text c =
    (if c.int80 then codes "syscall32(" else codes "syscall(")
    ++ (print_unsigned dec c.number ++ (codes ", " ++ raw_args_text 6 0 c.args))

put_raw_args-text :
    (left i : ℕ) (a : ArgArray) (os : Stream)
    → IsPlain os
    → os.base ≡ hex
    → ((put_raw_args left i a os).text ≡ os.text ++ raw_args_text left i a)
      × IsPlain (put_raw_args left i a os)
unfolding put_raw_args raw_args_text
put_raw_args-text zero i a os w b = (sym (append-nil os.text), w)
put_raw_args-text (suc left) i a os w b =
    let before = put (codes "0x") os in
    let n = arg_at a i in
    let shown = put_unsigned n before in
    let sep = if ltb i 5 then codes ", " else codes ")" in
    let rest = raw_args_text left (i + 1) a in
    let next =
      put_raw_args-text left (i + 1) a (put sep shown) (put-IsPlain sep shown)
        (put-base sep shown ∙ put_unsigned-base n before ∙ put-base (codes "0x") os ∙ b) in
    (
      rw
          (
            next.0,
            put-text sep shown (put_unsigned-IsPlain n before),
            put_unsigned-text n before (put-IsPlain (codes "0x") os) (put-base (codes "0x") os ∙ b),
            put-text (codes "0x") os w,
          )
          (simp append_assoc),
      next.1,
    )

-- A call with no definition is printed as `raw_text` says.
pub put_raw-raw_text :
    (c : SyscallArgs) (os : Stream) → IsPlain os → (put_raw c os).text ≡ os.text ++ raw_text c
unfolding put_raw raw_text
put_raw-raw_text c os w =
    let head = put (if c.int80 then codes "syscall32(" else codes "syscall(") os in
    let start = set_base dec head in
    let shown = put_unsigned c.number start in
    let number = put (codes ", ") shown in
    rw
      (
        (put_raw_args-text 6 0 c.args (set_base hex number) (put-IsPlain (codes ", ") shown)
            refl).0,
        put-text (codes ", ") shown (put_unsigned-IsPlain c.number start),
        put_unsigned-text c.number start (put-IsPlain _ os) refl,
        put-text (if c.int80 then codes "syscall32(" else codes "syscall(") os w,
      )
      (simp append_assoc)

pub put_raw-IsPlain : (c : SyscallArgs) (os : Stream) → IsPlain (put_raw c os)
unfolding put_raw put put_raw_args
put_raw-IsPlain c os = refl
