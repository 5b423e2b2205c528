-- ===== src/Targets/Print/Exits.antt =====
-- With which code src/targets/print.c exits.
use gravelbox.Base.{
  ℕ, ◌+◌, ◌-◌, ◌≤◌, ◌<◌, ◌≡◌, ◌≢◌, refl, Bytes, List, [], ◌∷◌, ◌++◌, Bool, false, length,
  if◌then◌else◌, none, some, Option-cases, inl, inr, ◌⊎◌, All, arith,
}
use gravelbox.Utils.{Reply, done, errno, Reply-cases}
use gravelbox.Targets.Print.{File, sending, Log, copy, show, show_all, main}
use gravelbox.Targets.Print.Copied.{closed, given, Shown, show_all-Went}

-- An answer of `sendfile` that is an error, or that some bytes were sent.
abbrev pub Moves : Reply ℕ → Type 0
Moves (done n) = 0 < n
Moves (errno e) = Unit

-- There are as many answers as the file has bytes, and each is one of these.
abbrev pub Answers : File → Type 0
Answers f = All Moves f.sent × ((size : ℕ) → f.sized ≡ done size → size ≤ length f.sent)

copy_ends :
    (name : Bytes) (fd size offset : ℕ) (failure : Bool) (rs : List (Reply ℕ)) (log : Log)
    → All Moves rs
    → size ≤ offset + length rs
    → copy name fd size offset failure rs log ≢ none
unfolding copy
copy_ends name fd size offset failure [] log a h = λ e. absurd (ground arith)
copy_ends name fd size offset failure (done n ∷ rs) log (m, a) h = λ e.
    let log' = log ++ sending fd offset (size - offset) ∷ [] in
    let more = copy_ends name fd size (offset + n) failure rs log' a (omega arith) in
    absurd (ground (arith, more))
copy_ends name fd size offset failure (errno k ∷ rs) log a h = λ e. absurd (ground arith)

show_ends : (f : File) (failure : Bool) (log : Log) → Answers f → show f failure log ≢ none
unfolding show
show_ends f failure log (a, enough) = λ e. elim (Reply-cases f.opened) [
  | inr (k, o) ↦ absurd (ground arith)
  | inl (fd, o) ↦ elim (Reply-cases f.sized) [
    | inr (k, z) ↦ absurd (ground arith)
    | inl (size, z) ↦ absurd (
        ground
          (arith, copy_ends f.name fd size 0 failure f.sent log a (omega (arith, enough size z))))
  ]
]

show_all_ends :
    (fs : List File) (failure : Bool) (log : Log) → All Answers fs → show_all fs failure log ≢ none
unfolding show_all
show_all_ends [] failure log a = λ e. absurd (cc (e))
show_all_ends (f ∷ fs) failure log (a, as_) = λ e. elim (Option-cases (show f failure log)) [
  | inl k ↦ show_ends f failure log a k
  | inr (r, k) ↦ show_all_ends fs r.0 r.1 as_ (ground arith)
]

-- If `sendfile` can be called once for each byte of a file, and each call fails or sends something:
-- the program exits; every descriptor that it was given is closed once, in order; and the code is 0
-- if every file was opened, measured and sent to its end, and 1 if not.
pub main_exits :
    (files : List File)
    → All Answers files
    → (code : ℕ) × (log : Log) × (main files ≡ some (code, log))
      × (closed log ≡ given files)
      × (((code ≡ 0) × All Shown files) ⊎ ((code ≡ 1) × (All Shown files → ⊥)))
unfolding main
main_exits files a = elim (Option-cases (show_all files false [])) [
  | inl e ↦ absurd (show_all_ends files false [] a e)
  | inr (r, e) ↦
      let went = show_all-Went files false [] r e in
      (
        if r.0 then 1 else 0,
        r.1,
        rw (e, main) refl,
        went.closes,
        elim went.ends [
          | inl (k, shown) ↦ inl (rw k refl, shown)
          | inr (k, not_shown) ↦ inr (rw k refl, not_shown)
        ],
      )
]

-- The loop does not end where `sendfile` sends nothing, as at the end of a file that was cut short
-- since it was measured, however often it is called.
copy_stuck :
    (name : Bytes) (fd size offset : ℕ) (failure : Bool) (rs : List (Reply ℕ)) (log : Log)
    → offset < size
    → All (λ r. r ≡ done 0) rs
    → copy name fd size offset failure rs log ≡ none
unfolding copy
copy_stuck name fd size offset failure [] log h a = ground arith
copy_stuck name fd size offset failure (done n ∷ rs) log h (z, a) =
    let log' = log ++ sending fd offset (size - offset) ∷ [] in
    let nothing : n ≡ 0 = cc (z) in
    ground (arith, copy_stuck name fd size (offset + n) failure rs log' (omega arith) a)
copy_stuck name fd size offset failure (errno e ∷ rs) log h (z, a) = absurd (cc (z))
