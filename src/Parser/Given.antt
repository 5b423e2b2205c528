-- ===== src/Parser/Given.antt =====
-- What an element of a file of definitions says, as the README describes it: for src/parser/parser.cpp.
use gravelbox.Base.{
  ℕ, ◌≡◌, ◌↔◌, refl, ap, sym, ◌∙◌, Bytes, Bool, List, [], ◌∷◌, ◌++◌, append_assoc, append-nil,
  codes, true, false, str_eq, str_eq_iff, ◌⊎◌, inl, inr, some, Option-cases, Bool-cases, Outcome,
  ok, throw, terminate, arith, ◌>>=◌, ◌>>◌,
}
use gravelbox.Parser.ArgType.{
  ArgType, unknown_type, sint32_type, uint32_type, sint64_type, uint64_type, ptr_type, str_type,
}
use gravelbox.Parser.SyscallDef
use gravelbox.Parser.SyscallDef.{SyscallDef}
use gravelbox.Parser.Json.{Json}
use gravelbox.Parser.Load.{sanitize, find_type, argtypes, param_type, add_params, read_syscall}

-- The names of the types.
abbrev pub Names : ArgType → Bytes → Type 0
Names unknown_type s = s ≡ codes "unknown"
Names sint32_type s = s ≡ codes "int32_t"
Names uint32_type s = s ≡ codes "uint32_t"
Names sint64_type s = s ≡ codes "int64_t"
Names uint64_type s = (s ≡ codes "flags") ⊎ (s ≡ codes "uint64_t")
Names ptr_type s = s ≡ codes "void*"
Names str_type s = s ≡ codes "char*"

pub >>=-through :
    {A B : Type 0} (first : Outcome A) (rest : A → Outcome B) {answer : B}
    → first >>= rest ≡ ok answer
    → (v : A) × (first ≡ ok v) × (rest v ≡ ok answer)
>>=-through terminate rest h = cc
>>=-through (throw x) rest h = cc
>>=-through (ok v) rest h = (v, refl, h)

named : (ty : ArgType) (s : Bytes) → Names ty s → find_type s argtypes ≡ some ty
unfolding find_type str_eq
named unknown_type s h = rw h refl
named sint32_type s h = rw h refl
named uint32_type s h = rw h refl
named sint64_type s h = rw h refl
named uint64_type s (inl h) = rw h refl
named uint64_type s (inr h) = rw h refl
named ptr_type s h = rw h refl
named str_type s h = rw h refl

-- The head of the table decides, or its tail does.
find_type-next :
    (name : Bytes) (t : ArgType) (m : List (Bytes × ArgType)) (s : Bytes) (ty : ArgType)
    → find_type s ((name, t) ∷ m) ≡ some ty
    → ((s ≡ name) × (ty ≡ t)) ⊎ (find_type s m ≡ some ty)
unfolding find_type
find_type-next name t m s ty h = elim (Bool-cases (str_eq name s)) [
  | inl y ↦ inl (sym ((str_eq_iff name s).0 y), ground arith)
  | inr n ↦ inr (ground arith)
]

-- A type and a name that one row holds.
row :
    (name : Bytes) (t : ArgType) (s : Bytes) (ty : ArgType)
    → Names t name
    → (s ≡ name) × (ty ≡ t)
    → Names ty s
row name t s ty names (same, this) = rw (same, this) names

-- Each row of a table names its type.
abbrev Rows : List (Bytes × ArgType) → Type 0
Rows [] = Unit
Rows ((name, t) ∷ m) = Names t name × Rows m

find_type-Names :
    (m : List (Bytes × ArgType)) (s : Bytes) (ty : ArgType)
    → Rows m
    → find_type s m ≡ some ty
    → Names ty s
unfolding find_type
find_type-Names [] s ty rows h = cc
find_type-Names ((name, t) ∷ m) s ty (names, rows) h = elim (find_type-next name t m s ty h) [
  | inl both ↦ row name t s ty names both
  | inr later ↦ find_type-Names m s ty rows later
]

argtypes-Rows : Rows argtypes
argtypes-Rows = (refl, (inl refl, (refl, (refl, (refl, (inr refl, (refl, (refl, tt))))))))

find_type_iff : (s : Bytes) (ty : ArgType) → (find_type s argtypes ≡ some ty) ↔ Names ty s
find_type_iff s ty = (find_type-Names argtypes s ty argtypes-Rows, named ty s)

param_type_iff : (def s : Bytes) (ty : ArgType) → (param_type def s ≡ ok ty) ↔ Names ty s
unfolding param_type
param_type_iff def s ty = elim (Option-cases (find_type s argtypes)) [
  | inl n ↦ (λ h. absurd (ground (arith, n)), λ h. absurd (cc (n, named ty s h)))
  | inr (t, y) ↦
      (λ h. (find_type_iff s ty).0 (ground (arith, y)), λ h. ground (arith, y, named ty s h))
]

ok_pair :
    {A B : Type 0} (a : A) (b : B) (c : A) (d : B)
    → ◌≡◌ {A = Outcome (A × B)} (ok (a, b)) (ok (c, d))
    → (a ≡ c) × (b ≡ d)
ok_pair a b c d h = (ground arith, ground arith)

module _ (json : Json) (def : Bytes) where
  open json use {Value, is_object, is_array, member, elements, as_string, as_uint64}

  -- The parameters, in their order.
  abbrev pub Params : List Value → List ArgType → Type 0
  Params [] [] = Unit
  Params (v ∷ vs) (ty ∷ tys) = (s : Bytes) × (as_string v ≡ ok s) × Names ty s × Params vs tys
  Params _ _ = ⊥

  -- An object with the number, the name and the array of the parameters.
  abbrev pub Gives : Value → ℕ → SyscallDef → Type 0
  Gives v k d =
      (n p q : Value) × (is_object v ≡ true)
      × (member v (codes "number") ≡ ok n)
      × (as_uint64 n ≡ ok k)
      × (member v (codes "name") ≡ ok p)
      × (as_string p ≡ ok d.fname)
      × (member v (codes "params") ≡ ok q)
      × (is_array q ≡ true)
      × Params (elements q) d.argtypes

  add_params-Params :
      (vs : List Value) (d d' : SyscallDef)
      → add_params json def vs d ≡ ok d'
      → (tys : List ArgType) × Params vs tys
        × (d'.fname ≡ d.fname)
        × (d'.argtypes ≡ d.argtypes ++ tys)
  unfolding add_params SyscallDef.add_param
  add_params-Params [] d d' h =
      let same : d ≡ d' = ground arith in
      (
        [],
        tt,
        ap SyscallDef.fname (sym same),
        ap SyscallDef.argtypes (sym same) ∙ sym (append-nil d.argtypes),
      )
  add_params-Params (v ∷ vs) d d' h =
      let next : ArgType → Outcome SyscallDef =
        λ ty. add_params json def vs (SyscallDef.add_param ty d) in
      let (s, read, typed) = >>=-through (as_string v) (λ s. param_type def s >>= next) h in
      let (ty, found, more) = >>=-through (param_type def s) next typed in
      let (tys, params, name, types) = add_params-Params vs (SyscallDef.add_param ty d) d' more in
      (
        ty ∷ tys,
        (s, read, (param_type_iff def s ty).0 found, params),
        name,
        types ∙ append_assoc d.argtypes (ty ∷ []) tys,
      )

  Params-add_params :
      (vs : List Value) (d : SyscallDef) (tys : List ArgType)
      → Params vs tys
      → add_params json def vs d ≡ ok (record { fname = d.fname; argtypes = d.argtypes ++ tys })
  unfolding add_params SyscallDef.add_param
  Params-add_params [] d [] p =
      ap (λ tys. ok (record { fname = d.fname; argtypes = tys })) (sym (append-nil d.argtypes))
  Params-add_params [] d (ty ∷ tys) p = elim p [ ]
  Params-add_params (v ∷ vs) d [] p = elim p [ ]
  Params-add_params (v ∷ vs) d (ty ∷ tys) (s, read, names, more) =
      let step = (param_type_iff def s ty).1 names in
      let rest = Params-add_params vs (SyscallDef.add_param ty d) tys more in
      let types = append_assoc d.argtypes (ty ∷ []) tys in rw (read, step, rest, types) refl

  sanitize-through :
      {A : Type 0} (holds : Bool) (details : Bytes) (rest : Outcome A) {answer : A}
      → sanitize def holds details >> rest ≡ ok answer
      → (holds ≡ true) × (rest ≡ ok answer)
  unfolding sanitize
  sanitize-through true details rest h = (refl, h)
  sanitize-through false details rest h = cc

  Params-same :
      (vs : List Value) (tys tys' : List ArgType) → tys' ≡ tys → Params vs tys → Params vs tys'
  Params-same vs tys tys' e params = rw e params

  -- The end of the reading of an element.
  numbered :
      (number : ℕ) (name : Bytes) (q : Value) (k : ℕ) (d : SyscallDef)
      → ◌≡◌ {A = Outcome (ℕ × SyscallDef)}
          (add_params json def (elements q) (SyscallDef.new name) >>= (λ d. ok (number, d)))
          (ok (k, d))
      → (number ≡ k) × (name ≡ d.fname) × Params (elements q) d.argtypes
  numbered number name q k d h =
      let pair : SyscallDef → Outcome (ℕ × SyscallDef) = λ d. ok (number, d) in
      let (d', added, whole) =
        >>=-through (add_params json def (elements q) (SyscallDef.new name)) pair h in
      let (tys, params, same_name, types) =
        add_params-Params (elements q) (SyscallDef.new name) d' added in
      let (same_number, same_d) = ok_pair number d' k d whole in
      (
        same_number,
        sym same_name ∙ ap SyscallDef.fname same_d,
        Params-same (elements q) tys d.argtypes (ap SyscallDef.argtypes (sym same_d) ∙ types)
            params,
      )

  read_syscall-Gives :
      (v : Value) (k : ℕ) (d : SyscallDef) → read_syscall json def v ≡ ok (k, d) → Gives v k d
  unfolding read_syscall
  read_syscall-Gives v k d h =
      let read_d : ℕ → Bytes → Value → Outcome (ℕ × SyscallDef) = λ number name params.
        add_params json def (elements params) (SyscallDef.new name) >>= (λ d. ok (number, d)) in
      let read_array : ℕ → Bytes → Value → Outcome (ℕ × SyscallDef) = λ number name params.
        sanitize def (is_array params) (codes "parameter definition is not an array")
        >> read_d number name params in
      let read_params : ℕ → Bytes → Outcome (ℕ × SyscallDef) =
        λ number name. member v (codes "params") >>= read_array number name in
      let as_name : ℕ → Value → Outcome (ℕ × SyscallDef) =
        λ number p. as_string p >>= read_params number in
      let read_name : ℕ → Outcome (ℕ × SyscallDef) =
        λ number. member v (codes "name") >>= as_name number in
      let as_number : Value → Outcome (ℕ × SyscallDef) = λ n. as_uint64 n >>= read_name in
      let (object_, h1) =
        sanitize-through (is_object v) (codes "syscall definition is not an object")
          (member v (codes "number") >>= as_number) h in
      let (n, number_member, h2) = >>=-through (member v (codes "number")) as_number h1 in
      let (number, is_number, h3) = >>=-through (as_uint64 n) read_name h2 in
      let (p, name_member, h4) = >>=-through (member v (codes "name")) (as_name number) h3 in
      let (name, is_name, h5) = >>=-through (as_string p) (read_params number) h4 in
      let (q, params_member, h6) =
        >>=-through (member v (codes "params")) (read_array number name) h5 in
      let (array, h7) =
        sanitize-through (is_array q) (codes "parameter definition is not an array")
          (read_d number name q) h6 in
      let (same_number, same_name, params) = numbered number name q k d h7 in
      (
        n,
        p,
        q,
        object_,
        number_member,
        is_number ∙ ap ok same_number,
        name_member,
        is_name ∙ ap ok same_name,
        params_member,
        array,
        params,
      )

  Gives-read_syscall :
      (v : Value) (k : ℕ) (d : SyscallDef) → Gives v k d → read_syscall json def v ≡ ok (k, d)
  unfolding read_syscall sanitize
  Gives-read_syscall v k d (n, p, q, h1, h2, h3, h4, h5, h6, h7, params) =
      let added = Params-add_params (elements q) (SyscallDef.new d.fname) d.argtypes params in
      rw (h1, h2, h3, h4, h5, h6, h7, added) refl

  -- An element is read as a definition exactly when it gives it.
  pub read_syscall_iff :
      (v : Value) (k : ℕ) (d : SyscallDef) → (read_syscall json def v ≡ ok (k, d)) ↔ Gives v k d
  read_syscall_iff v k d = (read_syscall-Gives v k d, Gives-read_syscall v k d)
