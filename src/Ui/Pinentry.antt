-- ===== src/Ui/Pinentry.antt =====
-- The dialogue with pinentry: src/ui/pinentry_conn.h, pinentry_conn.cpp, and `ask` and `ask_password` of
-- pinentry_ui.h and pinentry_ui.cpp. The pipe from pinentry is the list of the lines that it sends.
use gravelbox.Base.{
  ℕ, ◌+◌, ◌-◌, ◌*◌, ◌%◌, ◌^◌, Bytes, List, [], ◌∷◌, ◌++◌, codes, Bool, true, false, ◌&&◌, ◌||◌,
  ◌==◌, leb, ltb, if◌then◌else◌, Option, none, some, str_eq, take, drop, ios_failure,
  pinentry_exception, Outcome, ok, throw,
}
use gravelbox.Exec.{Exec, pure, ◌>>=◌, ◌>>◌}
use gravelbox.Ostream.Digits.{dec}
use gravelbox.Ostream.Number.{print_unsigned}
use gravelbox.Config.FileConfig.{is_empty}
use gravelbox.Config.Hex.{is_space}

abbrev pub cancel_code : ℕ
cancel_code = 83886179

pub record Response : Type 0 where
  pub code : ℕ
  pub text : Bytes

-- What `getpin` gives: whether the user cancelled, and what was entered.
pub record Password : Type 0 where
  pub cancelled : Bool
  pub password : Bytes

-- `operator bool`, and the `password` that is read where it is true.
abbrev pub taken : Password → Option Bytes
taken p = if p.cancelled then none else some p.password

-- The lines sent, latest first, and those to come.
pub record Conn : Type 0 where
  pub sent : List Bytes
  pub incoming : List Bytes

unfoldable pub is_decimal : ℕ → Bool
is_decimal c = leb b'0' c && leb c b'9'

unfoldable pub skip_space : Bytes → Bytes
unfolding is_space
skip_space [] = []
skip_space (c ∷ s) = let rest = skip_space s in if is_space c then rest else c ∷ s

-- The digits in front: their value, and what stands behind them.
unfoldable pub scan_digits : ℕ → Bytes → ℕ × Bytes
unfolding is_decimal
scan_digits n [] = (n, [])
scan_digits n (c ∷ s) = elim (is_decimal c) [
  | true ↦ scan_digits (n * 10 + (c - b'0')) s
  | false ↦ (n, c ∷ s)
]

unfoldable pub starts_decimal : Bytes → Bool
unfolding is_decimal
starts_decimal [] = false
starts_decimal (c ∷ s) = is_decimal c

-- What is left for `std::getline` after `iss.get()`, if the stream is still good.
unfoldable pub behind_code : Bytes → Option Bytes
behind_code [] = none
behind_code (c ∷ s) = some s

-- `iss >> code` of a uint32_t behind the sign, then `iss.get()`. No digit gives 0 and a number that does
-- not fit gives the largest, and either ends the reading.
unfoldable pub unsigned_code : Bool → Bytes → ℕ × Option Bytes
unfolding starts_decimal scan_digits behind_code
unsigned_code negative s =
    if starts_decimal s
    then (let (n, rest) = scan_digits 0 s in
        if ltb n (2 ^ 32)
        then (if negative then (2 ^ 32 - n) % 2 ^ 32 else n, behind_code rest)
        else (2 ^ 32 - 1, none))
    else (0, none)

-- With nothing but white space to read, `code` is not written: it keeps what it held, `unset`.
unfoldable pub read_code : ℕ → Bytes → ℕ × Option Bytes
unfolding unsigned_code
read_code unset [] = (unset, none)
read_code unset (c ∷ s) =
    if c == b'-'
    then unsigned_code true s
    else if c == b'+'
    then unsigned_code false s
    else unsigned_code false (c ∷ s)

-- The branch of an "ERR " line; `text` keeps the data that was there where nothing more can be read.
unfoldable pub error_response : ℕ → Bytes → Bytes → Response
unfolding skip_space read_code
error_response unset text line =
    let (code, rest) = read_code unset (skip_space (drop 4 line)) in
    record { code = code; text = elim rest [ none ↦ text | some t ↦ t ] }

-- The loop of recv, with `data`. A stream that ends throws.
unfoldable pub recv_lines : ℕ → Bytes → List Bytes → Outcome Response × List Bytes
unfolding error_response
recv_lines unset text [] = (throw ios_failure, [])
recv_lines unset text (line ∷ rest) =
    let next = recv_lines unset text rest in
    let next_data = recv_lines unset (drop 2 line) rest in
    if str_eq (take 3 line) (codes "OK") || str_eq (take 3 line) (codes "OK ")
    then (ok (record { code = 0; text = text }), rest)
    else if str_eq (take 4 line) (codes "ERR ")
    then (ok (error_response unset text line), rest)
    else if str_eq (take 2 line) (codes "D ")
    then next_data
    else if str_eq (take 2 line) (codes "S ")
    then next
    else (throw (pinentry_exception (codes "Unknown response: \"" ++ (line ++ codes "\""))), rest)

module _ (unset : ℕ) where
  unfoldable pub recv : Exec Conn Response
  recv c = let (r, rest) = recv_lines unset [] c.incoming in (r, record c { incoming = rest })

  -- os_ << line << std::endl
  unfoldable pub send : Bytes → Exec Conn (Unit {0})
  send line c = (ok tt, record c { sent = line ∷ c.sent })

  unfoldable pub throw_error {ℓ} : {A : Type ℓ} → Response → Outcome A
  throw_error r = throw (pinentry_exception (print_unsigned dec r.code ++ (codes " " ++ r.text)))

  unfoldable pub check_ok : Response → Exec Conn (Unit {0})
  unfolding throw_error
  check_ok r c = (if r.code == 0 then ok tt else throw_error r, c)

  -- ok()
  unfoldable pub expect_ok : Exec Conn (Unit {0})
  unfolding ◌>>=◌ check_ok
  expect_ok = recv >>= check_ok

  -- A command, and the reply that all is well.
  unfoldable pub command : Bytes → Exec Conn (Unit {0})
  unfolding ◌>>=◌ send expect_ok
  command line = send line >> expect_ok

  -- The end of `confirm`.
  unfoldable pub confirmed : Response → Exec Conn Bool
  unfolding throw_error
  confirmed r c = (
    if r.code == 0 then ok true else if r.code == cancel_code then ok false else throw_error r,
    c,
  )

  unfoldable pub confirm : Bytes → Exec Conn Bool
  unfolding ◌>>=◌ send
  confirm message = do
    command (codes "SETDESC " ++ message)
    command (codes "SETOK Allow")
    command (codes "SETCANCEL Deny")
    send (codes "CONFIRM")
    r ← recv
    confirmed r

  -- The end of `getpin`, with what the callers take of the `Password`.
  unfoldable pub entered : Response → Exec Conn (Option Bytes)
  unfolding throw_error
  entered r c = (
    if r.code == 0
        then ok (taken (record { cancelled = false; password = r.text }))
        else if r.code == cancel_code
        then ok (taken (record { cancelled = true; password = [] }))
        else throw_error r,
    c,
  )

  unfoldable pub getpin : Bytes → Bytes → Bytes → Exec Conn (Option Bytes)
  unfolding ◌>>=◌ send pure
  getpin message prompt error = do
    command (codes "SETDESC " ++ message)
    command (codes "SETPROMPT " ++ prompt)
    command (codes "SETOK OK")
    command (codes "SETCANCEL Cancel")
    if is_empty error then pure tt else command (codes "SETERROR " ++ error)
    send (codes "GETPIN")
    r ← recv
    entered r

  -- open, after the pipes are attached, and close, before they are left.
  unfoldable pub open_conn : Exec Conn (Unit {0})
  unfolding ◌>>=◌
  open_conn = expect_ok >> command (codes "SETTITLE GravelBox")

  unfoldable pub close_conn : Exec Conn (Unit {0})
  close_conn = command (codes "BYE")

  -- PinentryUI::ask
  unfoldable pub ask : Bytes → Exec Conn Bool
  ask syscall = confirm (codes "Do you allow the following system call?%0a%0a" ++ syscall)
