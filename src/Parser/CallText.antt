-- ===== src/Parser/CallText.antt =====
-- The text of a system call, as a function of the call, its definition and the memory of the target:
-- what the call operator of src/parser/parser.cpp and `SyscallDef::write` of syscalldef.h
-- produce.
use gravelbox.Base.{
  ℕ, zero, suc, ◌+◌, ◌≤◌, ◌<◌, ◌≡◌, ◌≢◌, refl, sym, ◌∙◌, ap, Bytes, List, [], ◌∷◌, ◌++◌,
  append_assoc, append-nil, codes, Bool, true, false, ◌==◌, ltb, leb, lt→ltb, if◌then◌else◌, length,
  Option, none, some, Option-cases, inl, inr, Outcome, ok, throw, terminate, Bool-cases,
  >>=-returned, arith,
}
use gravelbox.Base.Options.{◌>>=◌}
use gravelbox.Utils.{ArgArray, arg_at}
use gravelbox.Ostream.Defs.{Stream, put}
use gravelbox.Parser.StrType.{ReadMemory}
use gravelbox.Ostream.Plain.{IsPlain, put-text, put-IsPlain}
use gravelbox.Parser.ArgType.{ArgType}
use gravelbox.Parser.ArgText.{HoldsBytes, Appends, arg_text, write-arg_text}
use gravelbox.Parser.SyscallDef
use gravelbox.Parser.SyscallDef.{SyscallDef, write_args}

-- The arguments from number `i` on, with ", " between two of them.
unfoldable pub args_text : ReadMemory → ℕ → ArgArray → List ArgType → ℕ → Option Bytes
args_text read_memory target args [] i = some []
args_text read_memory target args (ty ∷ tys) i = do
  t ← arg_text read_memory target ty (arg_at args i)
  rest ← args_text read_memory target args tys (i + 1)
  some ((if ltb 0 i then codes ", " else []) ++ (t ++ rest))

unfoldable pub def_text : ReadMemory → ℕ → SyscallDef → ArgArray → Option Bytes
def_text read_memory target d args =
    if leb (length d.argtypes) 6
    then (do
      t ← args_text read_memory target args d.argtypes 0
      some (d.fname ++ (codes "(" ++ (t ++ codes ")"))))
    else none

module _ (m : Outcome Stream) (f : Stream → Outcome Stream) (os os1 : Stream) (sep : Bytes)
    (behind : os1.text ≡ os.text ++ sep) where
  -- One more piece of text, behind a separator.
  step-Appends :
      (a b : Option Bytes)
      → Appends m os1 a
      → ((os2 : Stream) → IsPlain os2 → Appends (f os2) os2 b)
      → Appends (gravelbox.Base.◌>>=◌ m f) os (a >>= λ t. b >>= λ r. some (sep ++ (t ++ r)))
  step-Appends none b p q = λ os' e. let (x, h) = >>=-returned m f e in p x h
  step-Appends (some t) none (os2, h, e2, w2) q = λ os' e. q os2 w2 os' (rw h at e)
  step-Appends (some t) (some r) (os2, h, e2, w2) q =
      let (os3, k, e3, w3) = q os2 w2 in (os3, rw h k, rw (e3, e2, behind) (simp append_assoc), w3)

closing-Appends :
    (m : Outcome Stream) (os os1 : Stream) (name : Bytes) (a : Option Bytes)
    → os1.text ≡ os.text ++ name ++ codes "("
    → Appends m os1 a
    → Appends
        (gravelbox.Base.◌>>=◌ m (λ os'. ok (put (codes ")") os')))
        os
        (a >>= λ t. some (name ++ (codes "(" ++ (t ++ codes ")"))))
closing-Appends m os os1 name none opened p = λ os' e. let (x, h) = >>=-returned m _ e in p x h
closing-Appends m os os1 name (some t) opened (os2, h, e2, w2) = (
  put (codes ")") os2,
  rw h refl,
  rw (put-text (codes ")") os2 w2, e2, opened) (simp append_assoc),
  put-IsPlain (codes ")") os2,
)

separated-text :
    (b : Bool) (os : Stream)
    → IsPlain os
    → ((if b then put (codes ", ") os else os).text ≡ os.text ++ (if b then codes ", " else []))
      × IsPlain (if b then put (codes ", ") os else os)
separated-text true os w = (put-text (codes ", ") os w, put-IsPlain (codes ", ") os)
separated-text false os w = (sym (append-nil os.text), w)

module _ (read_memory : ReadMemory) (bytes : HoldsBytes read_memory) (target : ℕ)
    (args : ArgArray) where
  write_args-Appends :
      (tys : List ArgType) (i : ℕ) (os : Stream)
      → IsPlain os
      → Appends
          (write_args read_memory target args tys i os)
          os
          (args_text read_memory target args tys i)
  unfolding write_args args_text
  write_args-Appends [] i os w = (os, refl, sym (append-nil os.text), w)
  write_args-Appends (ty ∷ tys) i os w =
      let s = separated-text (ltb 0 i) os w in
      step-Appends _ (write_args read_memory target args tys (i + 1)) os
        (if ltb 0 i then put (codes ", ") os else os) _ s.0 _ _
        (write-arg_text read_memory bytes target ty (arg_at args i)
          (if ltb 0 i then put (codes ", ") os else os) s.1)
        (λ os2 w2. write_args-Appends tys (i + 1) os2 w2)

  -- A defined call is printed as `def_text` says; where there is no text, the printing fails.
  pub write-def_text :
      (d : SyscallDef) (os : Stream)
      → IsPlain os
      → Appends
          (SyscallDef.write read_memory target d args os)
          os
          (def_text read_memory target d args)
  unfolding SyscallDef.write def_text
  write-def_text d os w = elim (Bool-cases (leb (length d.argtypes) 6)) [
    | inr n ↦ rw n (λ os' e. cc)
    | inl y ↦ rw y (
        let opened = put (codes "(") (put d.fname os) in
        let opened-text : opened.text ≡ os.text ++ d.fname ++ codes "(" =
          rw (put-text (codes "(") (put d.fname os) (put-IsPlain d.fname os), put-text d.fname os w)
            refl in
        closing-Appends _ os opened d.fname (args_text read_memory target args d.argtypes 0)
          opened-text
          (write_args-Appends d.argtypes 0 opened (put-IsPlain (codes "(") (put d.fname os))))
  ]
