-- ===== src/Parser/TwoStrings.antt =====
-- Where the text of a system call does not say where a string ends: `StrType::write` of
-- src/parser/argtypes.cpp prints a quote inside a string as it is.
use gravelbox.Base.{
  ℕ, ◌≡◌, ◌≢◌, refl, sym, ap, ◌∙◌, Bytes, [], ◌∷◌, ◌++◌, append_assoc, append-nil, codes, false, ok,
  ◌==◌, length, some, arith,
}
use gravelbox.Utils.{done, SyscallArgs, arg_at}
use gravelbox.NatMap
use gravelbox.Parser.StrType.{ReadMemory, remote_iovecs, max_str_len}
use gravelbox.Parser.StrText.{c_string, escape, escape_char}
use gravelbox.Parser.ArgType.{str_type}
use gravelbox.Parser.ArgText.{HoldsBytes, arg_text, memory_text}
use gravelbox.Parser.CallText.{args_text, def_text}
use gravelbox.Parser.CallSpec.{call_text, call-call_text}
use gravelbox.Parser.Call.{Parser, call, setpid}
use gravelbox.Parser.SyscallDef.{SyscallDef}

-- At the address `v` the thread has the string `s`, which is shorter than what is read.
abbrev pub StringAt : ReadMemory → ℕ → ℕ → Bytes → Type 0
StringAt m pid v s =
    (buf : Bytes) × (m pid (remote_iovecs v) ≡ done buf)
    × (c_string buf ≡ s)
    × (length s ≢ max_str_len)

-- What stands between two strings.
abbrev pub between : Bytes
between = codes "\", \""

escape-append : (s t : Bytes) → escape (s ++ t) ≡ escape s ++ escape t
escape-append [] t = refl
escape-append (c ∷ s) t =
    ap (λ (r : Bytes). escape_char c ++ r) (escape-append s t)
    ∙ sym (append_assoc (escape_char c) (escape s) (escape t))

escape-between : (t : Bytes) → escape (between ++ t) ≡ between ++ escape t
unfolding escape_char
escape-between t = refl

string_text :
    (m : ReadMemory) (pid v : ℕ) (s : Bytes)
    → StringAt m pid v s
    → arg_text m pid str_type v ≡ some (b'"' ∷ (escape s ++ codes "\""))
unfolding arg_text memory_text
string_text m pid v s (buf, here, read, short) =
    let full : length (c_string buf) == max_str_len ≡ false = ground (arith, read, short) in
    rw (here, full, read) refl

strings_text :
    (m : ReadMemory) (pid : ℕ) (a : gravelbox.Utils.ArgArray) (s t : Bytes)
    → StringAt m pid (arg_at a 0) s
    → StringAt m pid (arg_at a 1) t
    → args_text m pid a (str_type ∷ str_type ∷ []) 0
      ≡ some (b'"' ∷ ((escape s ++ (between ++ escape t)) ++ codes "\""))
unfolding args_text
strings_text m pid a s t hs ht =
    rw (string_text m pid (arg_at a 0) s hs, string_text m pid (arg_at a 1) t ht)
      (ap some (simp (append_assoc, append-nil)))

same_text :
    (s t u : Bytes)
    → escape (s ++ (between ++ t)) ++ (between ++ escape u)
      ≡ escape s ++ (between ++ escape (t ++ (between ++ u)))
same_text s t u =
    rw
      (
        escape-append s (between ++ t),
        escape-append t (between ++ u),
        escape-between t,
        escape-between u,
      )
      (simp append_assoc)

two_strings_text : SyscallDef → Bytes → Bytes → Bytes
two_strings_text f s t =
    f.fname
    ++ (codes "(" ++ ((b'"' ∷ ((escape s ++ (between ++ escape t)) ++ codes "\"")) ++ codes ")"))

two_strings_text_same :
    (f : SyscallDef) (s t u : Bytes)
    → two_strings_text f (s ++ (between ++ t)) u ≡ two_strings_text f s (t ++ (between ++ u))
unfolding two_strings_text
two_strings_text_same f s t u =
    ap (λ (r : Bytes). f.fname ++ (codes "(" ++ ((b'"' ∷ (r ++ codes "\"")) ++ codes ")")))
      (same_text s t u)

call-two_strings_text :
    (m : ReadMemory)
    → HoldsBytes m
    → (p : Parser) (c : SyscallArgs) (f : SyscallDef) (s t : Bytes) → c.int80 ≡ false
    → NatMap.find c.number p.syscall_map ≡ some f
    → f.argtypes ≡ str_type ∷ str_type ∷ []
    → StringAt m p.target (arg_at c.args 0) s
    → StringAt m p.target (arg_at c.args 1) t
    → call m p c ≡ ok (two_strings_text f s t)
unfolding call_text def_text two_strings_text
call-two_strings_text m bytes p c f s t entry known types hs ht =
    call-call_text m bytes p c
    ∙ rw (entry, known, types, strings_text m p.target c.args s t hs ht) refl

-- Two system calls of one definition with two string parameters, made at any two times by any two
-- threads, with the memory that each has then, of bytes, and shorter strings than are read: if the first
-- strings are `s", "t` and `s`, and the second ones `u` and `t", "u`, the call operator returns the same
-- text for both calls.
pub call-between :
    (m m' : ReadMemory)
    → HoldsBytes m
    → HoldsBytes m'
    → (p : Parser) (pid : ℕ) (c d : SyscallArgs) (f : SyscallDef) (s t u : Bytes) → c.int80 ≡ false
    → d.int80 ≡ false
    → c.number ≡ d.number
    → NatMap.find c.number p.syscall_map ≡ some f
    → f.argtypes ≡ str_type ∷ str_type ∷ []
    → StringAt m p.target (arg_at c.args 0) (s ++ (between ++ t))
    → StringAt m p.target (arg_at c.args 1) u
    → StringAt m' pid (arg_at d.args 0) s
    → StringAt m' pid (arg_at d.args 1) (t ++ (between ++ u))
    → (r : Bytes) × (call m p c ≡ ok r) × (call m' (setpid pid p) d ≡ ok r)
unfolding setpid two_strings_text
call-between m m' bytes bytes' p pid c d f s t u hc hd same known types h0 h1 k0 k1 =
    let one = call-two_strings_text m bytes p c f (s ++ (between ++ t)) u hc known types h0 h1 in
    let other =
      call-two_strings_text m' bytes' (setpid pid p) d f s (t ++ (between ++ u)) hd
        (rw same at known) types k0 k1 in
    (
      two_strings_text f (s ++ (between ++ t)) u,
      one,
      other ∙ ap ok (sym (two_strings_text_same f s t u)),
    )
