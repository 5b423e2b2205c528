-- ===== src/Targets/Print.antt =====
-- src/targets/print.c: shows files by sendfile.
pub mod Copied
pub mod Exits
use gravelbox.Base.{
  ℕ, ◌+◌, ◌-◌, Bytes, List, [], ◌∷◌, ◌++◌, Bool, true, false, ltb, if◌then◌else◌, Option, none,
  some,
}
use gravelbox.Utils.{Reply, done, errno}

-- An argument of the program, with what `open`, `fstat` (the size) and each `sendfile` answer.
pub record File : Type 0 where
  pub name : Bytes
  pub opened : Reply ℕ
  pub sized : Reply ℕ
  pub sent : List (Reply ℕ)

-- What the program does: a call of `sendfile` with its offset and count, a message of `perror`, `close`.
pub data Action : Type 0 where
  sending : (fd offset count : ℕ) → Action
  complaint : Bytes → Action
  closing : ℕ → Action

abbrev pub Log : Type 0
Log = List Action

-- The loop over `sendfile`; `none` where it still runs after all the answers.
unfoldable pub copy :
    Bytes → (fd size offset : ℕ) → Bool → List (Reply ℕ) → Log → Option (Bool × Log)
copy name fd size offset failure [] log = if ltb offset size then none else some (failure, log)
copy name fd size offset failure (done n ∷ rs) log =
    let rest =
      copy name fd size (offset + n) failure rs (log ++ sending fd offset (size - offset) ∷ []) in
    if ltb offset size then rest else some (failure, log)
copy name fd size offset failure (errno e ∷ rs) log =
    if ltb offset size
    then some (true, log ++ sending fd offset (size - offset) ∷ complaint name ∷ [])
    else some (failure, log)

-- A round of the loop over the arguments.
unfoldable pub show : File → Bool → Log → Option (Bool × Log)
unfolding copy
show f failure log = elim f.opened [
  | errno e ↦ some (true, log ++ complaint f.name ∷ [])
  | done fd ↦ elim f.sized [
    | errno e ↦ some (true, log ++ complaint f.name ∷ closing fd ∷ [])
    | done size ↦ elim (copy f.name fd size 0 failure f.sent log) [
      | none ↦ none
      | some r ↦ some (r.0, r.1 ++ closing fd ∷ [])
    ]
  ]
]

unfoldable pub show_all : List File → Bool → Log → Option (Bool × Log)
unfolding show
show_all [] failure log = some (failure, log)
show_all (f ∷ fs) failure log = elim (show f failure log) [
  | none ↦ none
  | some r ↦ show_all fs r.0 r.1
]

-- EXIT_SUCCESS and EXIT_FAILURE are 0 and 1.
unfoldable pub main : List File → Option (ℕ × Log)
unfolding show_all
main files = elim (show_all files false []) [
  | none ↦ none
  | some r ↦ some (if r.0 then 1 else 0, r.1)
]
