-- ===== src/Ui/Interface.antt =====
-- What the tracer asks of a user interface (`IsUI` of src/type_traits.h), and pinentry as one.
use gravelbox.Base.{
  ℕ, ◌≤◌, ◌<◌, ◌≡◌, Bytes, List, [], ◌∷◌, ◌++◌, codes, Bool, true, false, if◌then◌else◌, length,
  drop, Option, some, ok, arith,
}
use gravelbox.Exec.{Exec, pure, ◌>>=◌, ◌>>◌}
use gravelbox.Config.FileConfig.{is_empty}
use gravelbox.Ui.Pinentry.{
  Conn, Response, recv_lines, recv, send, check_ok, expect_ok, throw_error, command, entered,
  getpin, ask,
}

-- `ask`, and `ask_password` with `none` for a cancelled password. `left` bounds how many passwords can
-- still be entered: each takes input that is not there again.
pub record Ui (W : Type 0) : Type 0 where
  pub ask : Bytes → Exec W Bool
  pub ask_password : Bytes → Bytes → Bytes → Exec W (Option Bytes)
  pub left : W → ℕ
  pub ask_password_left :
      (message prompt error : Bytes) (w : W) (p : Bytes)
      → (ask_password message prompt error w).0 ≡ ok (some p)
      → left (ask_password message prompt error w).1 < left w

-- A password that the user entered in some dialog.
abbrev pub Entered : {W : Type 0} → Ui W → Bytes → Type 0
Entered {W} ui p =
    (message prompt error : Bytes) × (w : W) × ((ui.ask_password message prompt error w).0
      ≡ ok (some p))

length-recv_lines :
    (unset : ℕ) (text : Bytes) (ls : List Bytes) → length (recv_lines unset text ls).1 ≤ length ls
unfolding recv_lines
length-recv_lines unset text [] = omega arith
length-recv_lines unset text (line ∷ rest) =
    ground (arith, length-recv_lines unset text rest, length-recv_lines unset (drop 2 line) rest)

-- A response takes a line at least.
recv_lines_shrinks :
    (unset : ℕ) (text : Bytes) (ls : List Bytes) {r : Response}
    → (recv_lines unset text ls).0 ≡ ok r
    → length (recv_lines unset text ls).1 < length ls
unfolding recv_lines
recv_lines_shrinks unset text [] h = cc
recv_lines_shrinks unset text (line ∷ rest) h =
    ground (arith, length-recv_lines unset text rest, length-recv_lines unset (drop 2 line) rest)

-- An action that puts nothing back into the pipe, and one that takes a line where it returns.
abbrev Reads : {A : Type 0} → Exec Conn A → Type 0
Reads m = (c : Conn) → length (m c).1.incoming ≤ length c.incoming

abbrev Takes : {A : Type 0} → Exec Conn A → Type 0
Takes {A} m = (c : Conn) (a : A) → (m c).0 ≡ ok a → length (m c).1.incoming < length c.incoming

module _ {A B : Type 0} (m : Exec Conn A) (f : A → Exec Conn B) where
  Reads-bind : Reads m → ((a : A) → Reads (f a)) → Reads (m >>= f)
  unfolding ◌>>=◌
  Reads-bind rm rf c = grind (arith, rm, rf)

  Takes-first : Takes m → ((a : A) (c : Conn) → (f a c).1 ≡ c) → Takes (m >>= f)
  unfolding ◌>>=◌
  Takes-first tm same c b h = grind (arith, tm, same)

Takes-then :
    {B : Type 0} (m : Exec Conn (Unit {0})) (n : Exec Conn B) → Reads m → Takes n → Takes (m >> n)
unfolding ◌>>=◌
Takes-then m n rm rn c b h = grind (arith, rm, rn)

module _ (unset : ℕ) where
  recv-Reads : Reads (recv unset)
  unfolding recv
  recv-Reads c = length-recv_lines unset [] c.incoming

  recv-Takes : Takes (recv unset)
  unfolding recv
  recv-Takes c r h = recv_lines_shrinks unset [] c.incoming h

  send-Reads : (line : Bytes) → Reads (send unset line)
  unfolding send
  send-Reads line c = omega arith

  command-Reads : (line : Bytes) → Reads (command unset line)
  unfolding command expect_ok check_ok
  command-Reads line c = ground (arith, recv-Reads (record c { sent = line ∷ c.sent }))

  set_error-Reads : (b : Bool) (line : Bytes) → Reads (if b then pure tt else command unset line)
  unfolding pure
  set_error-Reads true line c = omega arith
  set_error-Reads false line c = command-Reads line c

  entered_cases : (r : Response) (c : Conn) → (entered unset r c).1 ≡ c
  unfolding entered throw_error
  entered_cases r c = ground arith

  reply-Takes : Takes (recv unset >>= entered unset)
  reply-Takes = Takes-first (recv unset) (entered unset) recv-Takes entered_cases

  pub getpin-Takes : (message prompt error : Bytes) → Takes (getpin unset message prompt error)
  unfolding getpin
  getpin-Takes message prompt error =
      let cmd = command unset in
      let desc = codes "SETDESC " ++ message in
      let prompt_line = codes "SETPROMPT " ++ prompt in
      let error_line = codes "SETERROR " ++ error in
      let set_error = if is_empty error then pure tt else cmd error_line in
      let t6 = recv unset >>= entered unset in
      let t5 = send unset (codes "GETPIN") >> t6 in
      let t4 = set_error >> t5 in
      let t3 = cmd (codes "SETCANCEL Cancel") >> t4 in
      let t2 = cmd (codes "SETOK OK") >> t3 in
      let t1 = cmd prompt_line >> t2 in
      Takes-then (cmd desc) t1 (command-Reads desc) (
        Takes-then (cmd prompt_line) t2 (command-Reads prompt_line) (
          Takes-then (cmd (codes "SETOK OK")) t3 (command-Reads (codes "SETOK OK")) (
            Takes-then (cmd (codes "SETCANCEL Cancel")) t4
              (command-Reads (codes "SETCANCEL Cancel"))
              (Takes-then set_error t5 (set_error-Reads (is_empty error) error_line) (
                Takes-then (send unset (codes "GETPIN")) t6 (send-Reads (codes "GETPIN"))
                  reply-Takes)))))

  -- PinentryUI
  unfoldable pub pinentry_ui : Ui Conn
  pinentry_ui = record {
    ask = ask unset;
    ask_password = getpin unset;
    left = λ c. length c.incoming;
    ask_password_left =
        λ message prompt error c p h. getpin-Takes message prompt error c (some p) h;
  }
