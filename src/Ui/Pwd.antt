-- ===== src/Ui/Pwd.antt =====
-- The console lock of src/ui/pwd.cpp, and the loop of src/ui/test.cpp around it. Standard input is
-- the list of the bytes that will be typed.
use gravelbox.Base.{
  ℕ, zero, suc, ◌<◌, ◌≡◌, ◌≢◌, Bytes, List, [], ◌∷◌, ◌++◌, codes, str_eq, length, Bool, true, false,
  ◌==◌, if◌then◌else◌, Option, none, some, arith,
}
use gravelbox.Config.FileConfig.{is_empty}

-- ICANON and ECHO of the terminal.
pub record Mode : Type 0 where
  pub canonical : Bool
  pub echo : Bool

pub record Tty : Type 0 where
  pub out : Bytes
  pub mode : Mode

unfoldable pub hide : Mode → Mode
hide t_old = record { canonical = false; echo = false }

-- `getch`, where the next byte is `ch`: what the terminal echoes is what its mode then says.
unfoldable pub getch : ℕ → Tty → Tty
unfolding hide
getch ch t =
    let t_new = hide t.mode in record t { out = t.out ++ (if t_new.echo then ch ∷ [] else []) }

unfoldable pub drop_last : Bytes → Bytes
drop_last [] = []
drop_last (c ∷ []) = []
drop_last (c ∷ d ∷ s) = c ∷ drop_last (d ∷ s)

unfoldable pub say : Bytes → Tty → Tty
say text t = record t { out = t.out ++ text }

-- The password, what is left to read, and the terminal. At the end of the input `getchar` gives EOF
-- again and again, and the loop never returns: `none`.
unfoldable pub my_getpwd : List ℕ → Bytes → Tty → Option (Bytes × List ℕ × Tty)
unfolding getch drop_last say
my_getpwd [] password t = none
my_getpwd (ch ∷ rest) password t =
    let t' = getch ch t in
    let shorter = my_getpwd rest (drop_last password) (say (codes "\u{8} \u{8}") t') in
    let empty = my_getpwd rest password t' in
    let longer = my_getpwd rest (password ++ ch ∷ []) (say (codes "*") t') in
    if ch == 10
    then some (password, rest, say (codes "\n") t')
    else if ch == 127
    then (if is_empty password then empty else shorter)
    else longer

pub record Pwd : Type 0 where
  pub pwd : Bytes
  pub locked : Bool

-- Pwd()
unfoldable pub new_pwd : List ℕ → Tty → Option (Pwd × List ℕ × Tty)
unfolding my_getpwd say
new_pwd input t = elim (my_getpwd input [] (say (codes "Set a password <= 100 characters:\n") t)) [
  | none ↦ none
  | some (password, rest, t') ↦ some (record { pwd = password; locked = false }, rest, t')
]

unfoldable pub lock : Pwd → Bool × Pwd
lock p = (true, record p { locked = true })

-- The loop; the outer `none` means that the fuel ran out, the inner one that it reads for ever.
unfoldable pub unlock_loop : ℕ → Bytes → List ℕ → Tty → Option (Option (List ℕ × Tty))
unfolding my_getpwd say
unlock_loop zero pwd input t = none
unlock_loop (suc fuel) pwd input t =
    elim (my_getpwd input [] (say (codes "Enter your password to unlock:\n") t)) [
      | none ↦ some none
      | some (cur_pwd, rest, t') ↦
          let again = unlock_loop fuel pwd rest t' in
          if str_eq pwd cur_pwd then some (some (rest, t')) else again
    ]

-- As many turns as bytes are typed, and one more.
unfoldable pub unlock : Pwd → List ℕ → Tty → Option (Option (Bool × Pwd × List ℕ × Tty))
unfolding unlock_loop
unlock p input t = elim (unlock_loop (suc (length input)) p.pwd input t) [
  | none ↦ none
  | some none ↦ some none
  | some (some (rest, t')) ↦ some (some (true, record p { locked = false }, rest, t'))
]

-- An entry takes a byte at least.
my_getpwd_shorter :
    (input : List ℕ) (password : Bytes) (t : Tty) {r : Bytes × List ℕ × Tty}
    → my_getpwd input password t ≡ some r
    → length r.1 < length input
unfolding my_getpwd
my_getpwd_shorter [] password t h = absurd (cc)
my_getpwd_shorter (ch ∷ rest) password t h = grind (arith, my_getpwd_shorter rest)

unlock_loop_total :
    (fuel : ℕ) (pwd : Bytes) (input : List ℕ) (t : Tty)
    → length input < fuel
    → unlock_loop fuel pwd input t ≢ none
unfolding unlock_loop
unlock_loop_total zero pwd input t h = absurd (omega arith)
unlock_loop_total (suc fuel) pwd input t h =
    grind (arith, my_getpwd_shorter, unlock_loop_total fuel)

pub unlock-ne-none : (p : Pwd) (input : List ℕ) (t : Tty) → unlock p input t ≢ none
unfolding unlock
unlock-ne-none p input t h =
    ground (arith, unlock_loop_total (suc (length input)) p.pwd input t (omega arith))

unlock_loop_left :
    (fuel : ℕ) (pwd : Bytes) (input rest : List ℕ) (t t' : Tty)
    → unlock_loop fuel pwd input t ≡ some (some (rest, t'))
    → length rest < length input
unfolding unlock_loop
unlock_loop_left zero pwd input rest t t' h = absurd (cc)
unlock_loop_left (suc fuel) pwd input rest t t' h =
    grind (arith, my_getpwd_shorter, unlock_loop_left fuel pwd)

-- An unlocked console has taken a byte at least, and is not locked.
pub unlock_left :
    (p p' : Pwd) (input rest : List ℕ) (t t' : Tty) (b : Bool)
    → unlock p input t ≡ some (some (b, p', rest, t'))
    → (length rest < length input) × (p'.locked ≡ false)
unfolding unlock
unlock_left p p' input rest t t' b h =
    grind (arith, unlock_loop_left (suc (length input)) p.pwd input)
