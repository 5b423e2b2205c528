-- ===== src/Ui/Cli.antt =====
-- `CliUI::ask` of src/ui/cli_ui.cpp.
use gravelbox.Base.{
  ◌≡◌, ◌↔◌, ◌⊎◌, arith, str_eq_iff, refl, ap, Bytes, List, [], ◌∷◌, ◌++◌, codes, str_eq, Bool, true,
  false, ◌||◌, if◌then◌else◌, inl, inr, Bool-cases, All,
}
use gravelbox.Config.FileConfig.{is_empty}

-- The lines that `std::cin` still has, and what went to `std::cerr`.
pub record Terminal : Type 0 where
  pub lines : List Bytes
  pub err : Bytes

unfoldable pub is_yes : Bytes → Bool
is_yes input = is_empty input || str_eq input (codes "Y") || str_eq input (codes "y")

unfoldable pub is_no : Bytes → Bool
is_no input = str_eq input (codes "N") || str_eq input (codes "n")

abbrev pub prompt : Bytes → Bytes
prompt syscall = syscall ++ codes " [Y/n] "

-- The loop. At the end of its input `std::getline` leaves `input` empty.
unfoldable pub ask_lines : Bytes → List Bytes → Bytes → Bool × Terminal
unfolding is_yes is_no
ask_lines syscall [] err = (true, record { lines = []; err = err ++ prompt syscall })
ask_lines syscall (input ∷ rest) err =
    let shown = err ++ prompt syscall in
    let again = ask_lines syscall rest (shown ++ codes "Invalid input\n") in
    if is_yes input
    then (true, record { lines = rest; err = shown })
    else if is_no input
    then (false, record { lines = rest; err = shown })
    else again

unfoldable pub ask : Bytes → Terminal → Bool × Terminal
unfolding ask_lines
ask syscall t = ask_lines syscall t.lines t.err

-- An empty line, Y and y are a yes; N and n are a no; anything else is no answer.
abbrev pub SaysYes : Bytes → Type 0
SaysYes line = (line ≡ []) ⊎ (line ≡ codes "Y") ⊎ (line ≡ codes "y")

abbrev pub SaysNo : Bytes → Type 0
SaysNo line = (line ≡ codes "N") ⊎ (line ≡ codes "n")

abbrev pub Says : Bytes → Bool → Type 0
Says line true = SaysYes line
Says line false = SaysNo line

abbrev pub IsInvalid : Bytes → Type 0
IsInvalid line = (SaysYes line → ⊥) × (SaysNo line → ⊥)

-- The lines before `after` answer nothing, and `after` decides: by its first line, or by being empty.
abbrev pub Decides : List Bytes → Bool → List Bytes → Type 0
Decides [] b left = (b ≡ true) × (left ≡ [])
Decides (line ∷ rest) b left = Says line b × (left ≡ rest)

pub record Answered (lines : List Bytes) (b : Bool) (left : List Bytes) : Type 0 where
  pub before : List Bytes
  pub after : List Bytes
  pub splits : lines ≡ before ++ after
  pub invalid : All IsInvalid before
  pub decides : Decides after b left

is_yes_iff : (line : Bytes) → (is_yes line ≡ true) ↔ SaysYes line
unfolding is_yes
is_yes_iff [] = (λ h. inl refl, λ h. refl)
is_yes_iff (c ∷ line) = (
  λ h. elim (Bool-cases (str_eq (c ∷ line) (codes "Y"))) [
    | inl y ↦ inr (inl ((str_eq_iff (c ∷ line) (codes "Y")).0 y))
    | inr n ↦ inr (inr ((str_eq_iff (c ∷ line) (codes "y")).0 (ground arith)))
  ],
  λ h. elim h [
    | inl e ↦ cc
    | inr (inl e) ↦ let y = (str_eq_iff (c ∷ line) (codes "Y")).1 e in ground (arith, y)
    | inr (inr e) ↦ let y = (str_eq_iff (c ∷ line) (codes "y")).1 e in ground (arith, y)
  ],
)

is_no_iff : (line : Bytes) → (is_no line ≡ true) ↔ SaysNo line
unfolding is_no
is_no_iff line = (
  λ h. elim (Bool-cases (str_eq line (codes "N"))) [
    | inl y ↦ inl ((str_eq_iff line (codes "N")).0 y)
    | inr n ↦ inr ((str_eq_iff line (codes "n")).0 (ground arith))
  ],
  λ h. elim h [
    | inl e ↦ let y = (str_eq_iff line (codes "N")).1 e in ground (arith, y)
    | inr e ↦ let y = (str_eq_iff line (codes "n")).1 e in ground (arith, y)
  ],
)

invalid_line : (line : Bytes) → is_yes line ≡ false → is_no line ≡ false → IsInvalid line
invalid_line line y n = (
  λ h. let e = (is_yes_iff line).1 h in absurd (cc (e, y)),
  λ h. let e = (is_no_iff line).1 h in absurd (cc (e, n)),
)

Answered-skip :
    (line : Bytes) (lines : List Bytes) (b : Bool) (left : List Bytes)
    → IsInvalid line
    → Answered lines b left
    → Answered (line ∷ lines) b left
Answered-skip line lines b left h a = record {
  before = line ∷ a.before;
  after = a.after;
  splits = ap (λ l. line ∷ l) a.splits;
  invalid = (h, a.invalid);
  decides = a.decides;
}

Answered-here :
    (line : Bytes) (lines : List Bytes) (b : Bool) → Says line b → Answered (line ∷ lines) b lines
Answered-here line lines b h = record {
  before = [];
  after = line ∷ lines;
  splits = refl;
  invalid = tt;
  decides = (h, refl);
}

ask_lines-Answered :
    (syscall : Bytes) (lines : List Bytes) (err : Bytes)
    → let (b, t) = ask_lines syscall lines err in Answered lines b t.lines
unfolding ask_lines
ask_lines-Answered syscall [] err = record {
  before = [];
  after = [];
  splits = refl;
  invalid = tt;
  decides = (refl, refl);
}
ask_lines-Answered syscall (line ∷ rest) err = elim (Bool-cases (is_yes line)) [
  | inl y ↦ rw y (Answered-here line rest true ((is_yes_iff line).0 y))
  | inr n ↦ elim (Bool-cases (is_no line)) [
    | inl y ↦ rw (n, y) (Answered-here line rest false ((is_no_iff line).0 y))
    | inr m ↦
        rw (n, m)
          (Answered-skip line rest _ _ (invalid_line line n m) (ask_lines-Answered syscall rest _))
  ]
]

-- Whatever is typed: the first line that is empty, Y, y, N or n decides, which is a yes for the first
-- three and a no for the others, and the lines behind it are left; at the end of the input, with no such
-- line, the call is allowed.
pub ask-Answered :
    (syscall : Bytes) (t : Terminal) → let (b, t') = ask syscall t in Answered t.lines b t'.lines
unfolding ask
ask-Answered syscall t = ask_lines-Answered syscall t.lines t.err
