-- ===== src/Ui/PwdTest.antt =====
-- `main` of src/ui/test.cpp, around the console lock of src/ui/pwd.cpp.
use gravelbox.Base.{
  ℕ, zero, suc, ◌<◌, ◌≡◌, ◌≢◌, Bytes, List, [], ◌∷◌, ◌++◌, codes, str_eq, length, Bool, ◌==◌,
  if◌then◌else◌, Option, none, some, Option-cases, Bool-cases, inl, inr, refl, arith,
}
use gravelbox.Ui.Pwd.{Tty, Pwd, say, new_pwd, lock, unlock, unlock-ne-none, unlock_left}

-- std::getline, and `none` where the input ends. The terminal echoes by its mode.
unfoldable pub getline : List ℕ → Option (Bytes × List ℕ)
getline [] = none
getline (ch ∷ rest) =
    let next = getline rest in
    if ch == 10
    then some ([], rest)
    else (elim next [ none ↦ none | some (line, left) ↦ some (ch ∷ line, left) ])

unfoldable pub echo_line : Bytes → Tty → Tty
unfolding say
echo_line line t = if t.mode.echo then say (line ++ codes "\n") t else t

unfoldable pub usage : Bytes → Tty → Tty
unfolding say
usage progname t = say (codes "3. To shut down the console: enter <ctr-D>\n") (
    say (codes "2. To lock the console: enter \"LOCK\"\n") (
      say (codes "1. You must set a password at first.\n")
        (say (codes "Usage: " ++ (progname ++ codes "\n")) t)))

-- `if (user.unlock())`, behind the call.
unfoldable pub unlocked :
    Option (Option (Bool × Pwd × List ℕ × Tty)) → Option (Option (Pwd × List ℕ × Tty))
unlocked none = none
unlocked (some none) = some none
unlocked (some (some (b, user, rest, t))) =
    some (some (user, rest, if b then say (codes "***SUCCESSFULLY UNLOCKED***\n") t else t))

-- `if (user.lock()) { ... }`: the outer `none` is a lack of fuel, the inner one a loop that reads
-- for ever.
unfoldable pub lock_console : Pwd → List ℕ → Tty → Option (Option (Pwd × List ℕ × Tty))
unfolding lock unlocked
lock_console user input t =
    let (locked, user') = lock user in
    let opened = unlocked (unlock user' input (say (codes "***SUCCESSFULLY LOCKED***\n") t)) in
    if locked then opened else some (some (user', input, t))

unfoldable pub main_loop : ℕ → Pwd → List ℕ → Tty → Option (Option Tty)
unfolding getline
main_loop zero user input t = none
main_loop (suc fuel) user input t =
    let asked = say (codes "Enter query:\n") t in
    elim (getline input) [
      | none ↦ some (some (say (codes "Shutting Down...\n") asked))
      | some (line, rest) ↦
          let echoed = echo_line line asked in
          let locked : Option (Option Tty) = elim (lock_console user rest echoed) [
            | none ↦ none
            | some none ↦ some none
            | some (some (user', rest', t')) ↦ main_loop fuel user' rest' t'
          ] in
          let again = main_loop fuel user rest echoed in
          if str_eq line (codes "LOCK") then locked else again
    ]

-- The inner `none` also where the first password is never ended.
unfoldable pub main : Bytes → List ℕ → Tty → Option (Option Tty)
unfolding usage new_pwd main_loop
main progname input t = elim (new_pwd input (usage progname t)) [
  | none ↦ some none
  | some (user, rest, t') ↦ main_loop (suc (length rest)) user rest t'
]

getline_shorter :
    (input : List ℕ) {r : Bytes × List ℕ} → getline input ≡ some r → length r.1 < length input
unfolding getline
getline_shorter [] h = absurd (cc)
getline_shorter (ch ∷ rest) h = grind (arith, getline_shorter rest)

unlocked-ne-none : (r : Option (Option (Bool × Pwd × List ℕ × Tty))) → r ≢ none → unlocked r ≢ none
unfolding unlocked
unlocked-ne-none none h k = h refl
unlocked-ne-none (some none) h k = cc
unlocked-ne-none (some (some r)) h k = cc

lock_console-ne-none : (user : Pwd) (input : List ℕ) (t : Tty) → lock_console user input t ≢ none
unfolding lock_console
lock_console-ne-none user input t =
    unlocked-ne-none _
      (unlock-ne-none (lock user).1 input (say (codes "***SUCCESSFULLY LOCKED***\n") t))

-- What is left to read is shorter than `n`.
abbrev Shorter : ℕ → Option (Option (Pwd × List ℕ × Tty)) → Type 0
Shorter n (some (some (user, rest, t))) = length rest < n
Shorter n _ = Unit

unlocked-Shorter :
    (n : ℕ) (r : Option (Option (Bool × Pwd × List ℕ × Tty)))
    → ((b : Bool) (p : Pwd) (rest : List ℕ) (t : Tty)
        → r ≡ some (some (b, p, rest, t))
        → length rest < n)
    → Shorter n (unlocked r)
unfolding unlocked
unlocked-Shorter n none h = tt
unlocked-Shorter n (some none) h = tt
unlocked-Shorter n (some (some (b, p, rest, t))) h = h b p rest t refl

lock_console-Shorter :
    (user : Pwd) (input : List ℕ) (t : Tty) → Shorter (length input) (lock_console user input t)
unfolding lock_console lock
lock_console-Shorter user input t =
    unlocked-Shorter (length input) _
      (λ b p rest t' h. (unlock_left (lock user).1 p input rest _ t' b h).0)

module _ (fuel : ℕ)
    (goes_on : (user : Pwd) (input : List ℕ) (t : Tty)
      → length input < fuel
      → main_loop fuel user input t ≢ none) where
  locked_on :
      (n : ℕ) (r : Option (Option (Pwd × List ℕ × Tty)))
      → n < suc fuel
      → r ≢ none
      → Shorter n r
      → ◌≢◌ {A = Option (Option Tty)}
          (elim r [
            | none ↦ none
            | some none ↦ some none
            | some (some (user, rest, t)) ↦ main_loop fuel user rest t
          ])
          none
  locked_on n none h k l = absurd (k refl)
  locked_on n (some none) h k l = λ e. cc
  locked_on n (some (some (user, rest, t))) h k l = goes_on user rest t (omega (arith, h, l))

main_loop_total :
    (fuel : ℕ) (user : Pwd) (input : List ℕ) (t : Tty)
    → length input < fuel
    → main_loop fuel user input t ≢ none
unfolding main_loop
main_loop_total zero user input t h = absurd (omega arith)
main_loop_total (suc fuel) user input t h = elim (Option-cases (getline input)) [
  | inl e ↦ λ k. ground arith
  | inr ((line, rest), e) ↦
      let less = getline_shorter input e in
      elim (Bool-cases (str_eq line (codes "LOCK"))) [
        | inl y ↦
            rw (main_loop, e, y)
              (locked_on fuel (main_loop_total fuel) (length rest) _ (omega (arith, h, less))
                (lock_console-ne-none user rest _) (lock_console-Shorter user rest _))
        | inr n ↦ rw (main_loop, e, n) (main_loop_total fuel user rest _ (omega (arith, h, less)))
      ]
]

-- However much is typed, the fuel is enough.
main_total : (progname : Bytes) (input : List ℕ) (t : Tty) → main progname input t ≢ none
unfolding main
main_total progname input t = elim (Option-cases (new_pwd input (usage progname t))) [
  | inl e ↦ λ k. ground arith
  | inr ((user, rest, t'), e) ↦
      rw (main, e) (main_loop_total (suc (length rest)) user rest t' (omega arith))
]
