-- ===== src/Parser/Debug.antt =====
-- `DebugParser` of src/parser/debug_parser.h, beside the parser of src/parser/parser.cpp.
use gravelbox.Base.{ℕ, ◌≡◌, ap, Bytes, codes, false, none, ok, arith}
use gravelbox.Utils.{SyscallArgs, arg_at}
use gravelbox.NatMap
use gravelbox.Ostream.Defs.{Stream, empty, put, put_unsigned, set_base}
use gravelbox.Ostream.Digits.{dec, hex}
use gravelbox.Parser.StrType.{ReadMemory}
use gravelbox.Parser.Call.{Parser, call, write_call, noexcept, put_raw, put_raw_args}

-- "0x" << value
abbrev put_0x : ℕ → Stream → Stream
put_0x n os = put_unsigned n (put (codes "0x") os)

-- operator()
unfoldable pub debug_call : SyscallArgs → Bytes
unfolding set_base
debug_call c =
    let comma = put (codes ", ") in
    let name = set_base dec (put (codes "syscall(") empty) in
    let o0 = comma (put_unsigned c.number name) in
    let o1 = comma (put_0x c.args.a0 (set_base hex o0)) in
    let o2 = comma (put_0x c.args.a1 o1) in
    let o3 = comma (put_0x c.args.a2 o2) in
    let o4 = comma (put_0x c.args.a3 o3) in
    let o5 = comma (put_0x c.args.a4 o4) in (put (codes ")") (put_0x c.args.a5 o5)).text

-- setpid
unfoldable pub debug_setpid : ℕ → Unit {0} → Unit {0}
debug_setpid pid s = s

put_raw-debug_call : (c : SyscallArgs) → c.int80 ≡ false → (put_raw c empty).text ≡ debug_call c
unfolding put_raw put_raw_args debug_call arg_at set_base
put_raw-debug_call c h = ap (λ b. (put_raw (record c { int80 = b }) empty).text) h

-- The parser prints a 64-bit call that it has no definition for as the debug parser does.
pub call-debug_call :
    (read_memory : ReadMemory) (p : Parser) (c : SyscallArgs)
    → c.int80 ≡ false
    → NatMap.find c.number p.syscall_map ≡ none
    → call read_memory p c ≡ ok (debug_call c)
unfolding call write_call noexcept
call-debug_call read_memory p c h k = ground (arith, put_raw-debug_call c h)
