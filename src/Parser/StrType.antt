-- ===== src/Parser/StrType.antt =====
-- `StrType::write` of src/parser/argtypes.cpp: the text of a string argument, read from the memory of
-- the target. `process_vm_readv` is a parameter.
use gravelbox.Base.{
  ℕ, ◌+◌, ◌-◌, ◌*◌, ◌/◌, ◌%◌, ◌^◌, Bytes, List, [], ◌∷◌, codes, Bool, true, false, ◌&&◌, ◌==◌, ltb,
  leb, if◌then◌else◌, system_error, Outcome, ok, throw, terminate,
}
use gravelbox.Utils.{Reply, check}
use gravelbox.Ostream.Defs.{Stream, put, put_unsigned, set_base, set_fill, set_width}
use gravelbox.Ostream.Digits.{hex}

abbrev pub max_str_len : ℕ
max_str_len = 32

abbrev pub efault : ℕ
efault = 14

-- `iovec`: where a piece of memory starts and how long it is.
pub record Iovec : Type 0 where
  pub iov_base : ℕ
  pub iov_len : ℕ

-- `remote[0 .. num_remotes)`: two pieces where the string may run over the end of a page.
unfoldable pub remote_iovecs : ℕ → List Iovec
remote_iovecs value =
    if value / 4096 == (value + max_str_len - 1) % 2 ^ 64 / 4096
    then record { iov_base = value; iov_len = max_str_len } ∷ []
    else (let len = 4096 - value % 4096 in
        record { iov_base = value; iov_len = len }
        ∷ record { iov_base = (value / 4096 + 1) * 4096 % 2 ^ 64; iov_len = max_str_len - len }
        ∷ [])

-- std::isprint in the "C" locale; a `char` of 128 and more is negative, and not printable.
unfoldable pub isprint : ℕ → Bool
isprint c = leb 0x20 c && leb c 0x7e

-- static_cast<uint16_t>(buf[i]) of a signed char.
unfoldable pub widen : ℕ → ℕ
widen c = if ltb c 128 then c else 0xff00 + c

-- A byte that is not printable.
unfoldable pub put_hex : ℕ → Stream → Stream
unfolding put put_unsigned set_base set_fill set_width widen
put_hex c os =
    put_unsigned (widen c) (set_width 2 (set_fill b'0' (set_base hex (put (codes "\\x") os))))

-- What one round of the loop writes.
unfoldable pub put_char : ℕ → Stream → Stream
unfolding isprint
put_char c os =
    if c == b'\\'
    then put (codes "\\\\") os
    else if c == b'\n'
    then put (codes "\\n") os
    else if c == b'\t'
    then put (codes "\\t") os
    else if isprint c
    then put (c ∷ []) os
    else put_hex c os

-- `for (i = 0; i < bytes; i++)`, up to a NUL; the second part is `i` at its end.
unfoldable pub put_chars : Bytes → ℕ → Stream → Stream × ℕ
put_chars [] i os = (os, i)
put_chars (c ∷ buf) i os = elim (c == 0) [
  | true ↦ (os, i)
  | false ↦ put_chars buf (i + 1) (put_char c os)
]

-- The quotes, and the dots of a string that may go on.
unfoldable pub put_quoted : Bytes → Stream → Stream
put_quoted buf os =
    let (os', i) = put_chars buf 0 (put (codes "\"") os) in
    let closed = put (codes "\"") os' in
    if i == max_str_len then put (codes "...") closed else closed

-- The memory of a process, as `process_vm_readv` shows it: the bytes that it copied.
abbrev pub ReadMemory : Type 0
ReadMemory = ℕ → List Iovec → Reply Bytes

-- catch (const std::system_error &se)
unfoldable pub write_read : Outcome Bytes → Stream → Outcome Stream
write_read (ok buf) os = ok (put_quoted buf os)
write_read (throw (system_error n)) os =
    if n == efault then ok (put (codes "<fault>") os) else throw (system_error n)
write_read (throw x) os = throw x
write_read terminate os = terminate

unfoldable pub write_str : ReadMemory → ℕ → ℕ → Stream → Outcome Stream
unfolding write_read remote_iovecs check
write_str read_memory target value os =
    write_read (check (read_memory target (remote_iovecs value))) os
