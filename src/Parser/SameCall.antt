-- ===== src/Parser/SameCall.antt =====
-- What the text of a system call with a definition says of the call, for src/parser/parser.cpp.
use gravelbox.Base.{
  ℕ, ◌≡◌, sym, ◌∙◌, Bytes, ◌++◌, append_cancel_left, codes, false, Bool-cases, leb, length,
  Option-cases, some, inl, inr, ok,
}
use gravelbox.Utils.{SyscallArgs, ArgArray}
use gravelbox.NatMap
use gravelbox.Parser.StrType.{ReadMemory}
use gravelbox.Parser.ArgText.{HoldsBytes}
use gravelbox.Parser.CallText.{args_text, def_text}
use gravelbox.Parser.CallSpec.{call_text, call-call_text, or_terminate}
use gravelbox.Parser.Call.{Parser, call, setpid}
use gravelbox.Parser.SyscallDef.{SyscallDef}
use gravelbox.Parser.Shown.{SameArgs, IsRegisters, args_told}

opened_inside :
    (d : SyscallDef) (x y r : Bytes)
    → d.fname ++ (codes "(" ++ (x ++ codes ")")) ≡ r
    → d.fname ++ (codes "(" ++ (y ++ codes ")")) ≡ r
    → x ++ codes ")" ≡ y ++ codes ")"
opened_inside d x y r hx hy = append_cancel_left (codes "(") (x ++ codes ")") (y ++ codes ")") (
    append_cancel_left d.fname (codes "(" ++ (x ++ codes ")")) (codes "(" ++ (y ++ codes ")"))
      (hx ∙ sym hy))

pub def_text-args :
    (m : ReadMemory) (k : ℕ) (d : SyscallDef) (a : ArgArray) (r : Bytes)
    → def_text m k d a ≡ some r
    → (x : Bytes) × (args_text m k a d.argtypes 0 ≡ some x)
      × (d.fname ++ (codes "(" ++ (x ++ codes ")")) ≡ r)
unfolding def_text
def_text-args m k d a r e = elim (Bool-cases (leb (length d.argtypes) 6)) [
  | inr n ↦ absurd (cc (rw n at e))
  | inl y ↦ elim (Option-cases (args_text m k a d.argtypes 0)) [
    | inl n ↦ absurd (cc (rw (y, n) at e))
    | inr (x, h) ↦ (x, h, cc (rw (y, h) at e))
  ]
]

pub call-def_text :
    (m : ReadMemory)
    → HoldsBytes m
    → (p : Parser) (c : SyscallArgs) (f : SyscallDef) (r : Bytes) → c.int80 ≡ false
    → NatMap.find c.number p.syscall_map ≡ some f
    → call m p c ≡ ok r
    → def_text m p.target f c.args ≡ some r
unfolding call_text
call-def_text m bytes p c f r entry known e =
    let shown : or_terminate (def_text m p.target f c.args) ≡ ok r =
      rw (entry, known) at (sym (call-call_text m bytes p c) ∙ e) in
    elim (Option-cases (def_text m p.target f c.args)) [
      | inl n ↦ absurd (cc (rw n at shown))
      | inr (x, h) ↦ cc (h, rw h at shown)
    ]

-- Two system calls with the number of one definition, made at any two times by any two threads, with the
-- memory that each has then, of bytes, and 64-bit registers: if the call operator returns the same text
-- for both, then the arguments that the definition names are the same, all of them if it names at most
-- one string, and else those in front of the first string. A 32-bit one is the same modulo 2^32; for a
-- string, what the two addresses hold up to the first NUL, of the bytes that are read, is the same, or
-- neither can be read.
pub call-SameArgs :
    (m m' : ReadMemory)
    → HoldsBytes m
    → HoldsBytes m'
    → (p : Parser) (pid : ℕ) (c d : SyscallArgs) (f : SyscallDef) (r : Bytes) → c.int80 ≡ false
    → d.int80 ≡ false
    → c.number ≡ d.number
    → NatMap.find c.number p.syscall_map ≡ some f
    → IsRegisters c.args
    → IsRegisters d.args
    → call m p c ≡ ok r
    → call m' (setpid pid p) d ≡ ok r
    → SameArgs m m' p.target pid c.args d.args f.argtypes 0
unfolding setpid
call-SameArgs m m' bytes bytes' p pid c d f r hc hd same known rc rd ec ed =
    let (x, hx, sx) =
      def_text-args m p.target f c.args r (call-def_text m bytes p c f r hc known ec) in
    let (y, hy, sy) =
      def_text-args m' pid f d.args r
        (call-def_text m' bytes' (setpid pid p) d f r hd (rw same at known) ed) in
    args_told m m' bytes bytes' p.target pid c.args d.args rc rd f.argtypes 0 x y hx hy
      (opened_inside f x y r sx sy)
