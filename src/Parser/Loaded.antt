-- ===== src/Parser/Loaded.antt =====
-- What the map of a `Parser` of src/parser/parser.cpp holds once its file is read.
use gravelbox.Base.{
  ℕ, ◌≡◌, ◌↔◌, ap, sym, ◌∙◌, Bytes, List, [], ◌∷◌, true, ◌==◌, ◌⊎◌, inl, inr, none, some,
  Bool-cases, ==_iff, Outcome, ok, arith, ◌>>=◌, ◌>>◌, codes,
}
use gravelbox.NatMap
use gravelbox.NatMap.{NatMap, find-assign}
use gravelbox.Parser.SyscallDef.{SyscallDef}
use gravelbox.Parser.Json.{Json}
use gravelbox.Parser.Given.{Gives, >>=-through, read_syscall_iff}
use gravelbox.Parser.Load.{sanitize, read_syscall, insert_syscall, read_syscalls, load_definitions}

module _ (json : Json) (def : Bytes) where
  open json use {Value, parse, is_array, elements}

  -- Some element of the list gives call `k` the definition `d`.
  abbrev pub Defines : ℕ → SyscallDef → List Value → Type 0
  Defines k d [] = ⊥
  Defines k d (v ∷ vs) = Gives json def v k d ⊎ Defines k d vs

  insert_syscall-new :
      (k : ℕ) (d : SyscallDef) (m m' : NatMap SyscallDef)
      → insert_syscall json def (k, d) m ≡ ok m'
      → (NatMap.find k m ≡ none) × (m' ≡ NatMap.assign k d m)
  unfolding insert_syscall NatMap.emplace sanitize
  insert_syscall-new k d m m' h = ground arith

  read_syscalls_next :
      (v : Value) (vs : List Value) (m m' : NatMap SyscallDef)
      → read_syscalls json def (v ∷ vs) m ≡ ok m'
      → (k : ℕ) × (d : SyscallDef) × (read_syscall json def v ≡ ok (k, d))
        × (NatMap.find k m ≡ none)
        × (read_syscalls json def vs (NatMap.assign k d m) ≡ ok m')
  unfolding read_syscalls
  read_syscalls_next v vs m m' h =
      let insert : ℕ × SyscallDef → Outcome (NatMap SyscallDef) =
        λ entry. insert_syscall json def entry m >>= read_syscalls json def vs in
      let ((k, d), read, inserted) = >>=-through (read_syscall json def v) insert h in
      let (m'', new_, rest) =
        >>=-through (insert_syscall json def (k, d) m) (read_syscalls json def vs) inserted in
      let (fresh, same) = insert_syscall-new k d m m'' new_ in
      (k, d, read, fresh, ap (read_syscalls json def vs) (sym same) ∙ rest)

  find-read_syscalls :
      (vs : List Value) (m m' : NatMap SyscallDef) (k : ℕ) (d : SyscallDef)
      → read_syscalls json def vs m ≡ ok m'
      → (NatMap.find k m' ≡ some d) ↔ ((NatMap.find k m ≡ some d) ⊎ Defines k d vs)
  unfolding read_syscalls
  find-read_syscalls [] m m' k d h = (λ e. inl (ground arith), λ e. ground arith)
  find-read_syscalls (v ∷ vs) m m' k d h =
      let (k', d', read, fresh, rest) = read_syscalls_next v vs m m' h in
      let there = find-read_syscalls vs (NatMap.assign k' d' m) m' k d rest in
      let found = find-assign k' k d' m in
      let given = read_syscall_iff json def v k d in
      (
        λ e. elim (Bool-cases (k' == k)) [
          | inl y ↦
              let same = (==_iff k' k).0 y in
              elim (there.0 e) [
                | inl f ↦ inr (inl (given.0 (ground (arith, read, found))))
                | inr more ↦ inr (inr more)
              ]
          | inr n ↦ elim (there.0 e) [
            | inl f ↦ inl (ground (arith, found))
            | inr more ↦ inr (inr more)
          ]
        ],
        λ e. there.1 (elim e [
          | inl old ↦ inl (ground (arith, found, fresh))
          | inr (inl this) ↦ inl (ground (arith, found, read, given.1 this))
          | inr (inr more) ↦ inr more
        ]),
      )

  -- If the bytes of a file are loaded, they are a JSON array, and the map has `d` for call `k`
  -- exactly when an element of the array gives it so: an object with the number, with the name and
  -- with an array of parameters, whose strings name the types of `d` in their order.
  pub find-load_definitions :
      (bytes : Bytes) (m : NatMap SyscallDef)
      → load_definitions json def (some bytes) ≡ ok m
      → (definitions : Value) × (parse bytes ≡ ok definitions)
        × (is_array definitions ≡ true)
        × ((k : ℕ) (d : SyscallDef)
            → (NatMap.find k m ≡ some d) ↔ Defines k d (elements definitions))
  unfolding load_definitions sanitize NatMap.find
  find-load_definitions bytes m h =
      let body : Value → Outcome (NatMap SyscallDef) = λ v.
        sanitize def (is_array v) (codes "definition list is not an array")
        >> read_syscalls json def (elements v) [] in
      let (v, parsed, loaded) = >>=-through (parse bytes) body h in
      elim (Bool-cases (is_array v)) [
        | inr n ↦ absurd (ground arith)
        | inl y ↦ (
          v,
          parsed,
          y,
          λ k d.
              let both = find-read_syscalls (elements v) [] m k d (ground arith) in
              (
                λ e. elim (both.0 e) [ inl none_there ↦ absurd (cc) | inr defined ↦ defined ],
                λ defined. both.1 (inr defined),
              ),
        )
      ]
