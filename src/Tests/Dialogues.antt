-- ===== src/Tests/Dialogues.antt =====
-- Sample dialogues with pinentry, as src/ui leads them.
use gravelbox.Base.{◌≡◌, refl, Bytes, List, [], ◌∷◌, codes, false, ok, some, arith}
use gravelbox.Ostream.Number.{read_from, read_unsigned, digit_of}
use gravelbox.Ui.Pinentry.{Response, confirm, getpin, cancel_code}
use gravelbox.Ui.Reading.{Reads}
use gravelbox.Ui.Dialogue.{Dialogue}
use gravelbox.Ui.Replies.{confirm_dialogue, getpin_dialogue, question_lines, password_lines}

abbrev cancelled : Response
cancelled = record { code = cancel_code; text = codes "cancelled" }

abbrev fine : Response
fine = record { code = 0; text = [] }

abbrev question_sent : List Bytes
question_sent =
    codes "CONFIRM" ∷ codes "SETCANCEL Deny" ∷ codes "SETOK Allow" ∷ codes "SETDESC fork()" ∷ []

-- The replies: a plain `OK`, one with a remark, a status line before the third, and a cancellation.
abbrev question_replies : List Bytes
question_replies =
    codes "OK"
    ∷ codes "OK set"
    ∷ codes "S PROGRESS"
    ∷ codes "OK"
    ∷ codes "ERR 83886179 cancelled"
    ∷ []

denied :
    Dialogue
      (question_lines (codes "fork()"))
      (codes "CONFIRM")
      []
      question_replies
      (ok cancelled)
      question_sent
      []
unfolding read_unsigned read_from digit_of
denied = Dialogue.accepted _ _ _ _ _ fine _ _ _ _ (Reads.fine [] _) refl (
    Dialogue.accepted _ _ _ _ _ fine _ _ _ _ (Reads.fine_with [] (codes "set") _) refl (
      Dialogue.accepted _ _ _ _ _ fine _ _ _ _
        (Reads.status [] (codes "PROGRESS") _ fine _ (Reads.fine [] _)) refl
        (Dialogue.answered _ _ _ cancelled [] (
          Reads.failed [] (codes "83886179") (codes "cancelled") cancel_code [] refl
            (omega arith)))))

confirm_dialogue_example :
    confirm 7 (codes "fork()") (record { sent = []; incoming = question_replies })
    ≡ (ok false, record { sent = question_sent; incoming = [] })
confirm_dialogue_example =
    confirm_dialogue 7 (codes "fork()") [] question_replies (ok cancelled) question_sent [] denied

abbrev password_sent : List Bytes
password_sent =
    codes "GETPIN"
    ∷ codes "SETERROR Wrong password"
    ∷ codes "SETCANCEL Cancel"
    ∷ codes "SETOK OK"
    ∷ codes "SETPROMPT Password"
    ∷ codes "SETDESC Enter your password."
    ∷ []

abbrev password_replies : List Bytes
password_replies =
    codes "OK"
    ∷ codes "OK"
    ∷ codes "OK"
    ∷ codes "OK thanks"
    ∷ codes "OK"
    ∷ codes "D abc"
    ∷ codes "OK"
    ∷ []

abbrev abc : Response
abc = record { code = 0; text = codes "abc" }

entered_abc :
    Dialogue
      (password_lines (codes "Enter your password.") (codes "Password") (codes "Wrong password"))
      (codes "GETPIN")
      []
      password_replies
      (ok abc)
      password_sent
      []
entered_abc = Dialogue.accepted _ _ _ _ _ fine _ _ _ _ (Reads.fine [] _) refl (
    Dialogue.accepted _ _ _ _ _ fine _ _ _ _ (Reads.fine [] _) refl (
      Dialogue.accepted _ _ _ _ _ fine _ _ _ _ (Reads.fine [] _) refl (
        Dialogue.accepted _ _ _ _ _ fine _ _ _ _ (Reads.fine_with [] (codes "thanks") _) refl (
          Dialogue.accepted _ _ _ _ _ fine _ _ _ _ (Reads.fine [] _) refl (
            Dialogue.answered _ _ _ abc []
              (Reads.data_line [] (codes "abc") _ abc [] (Reads.fine (codes "abc") [])))))))

getpin_dialogue_example :
    getpin 7
      (codes "Enter your password.")
      (codes "Password")
      (codes "Wrong password")
      (record { sent = []; incoming = password_replies })
    ≡ (ok (some (codes "abc")), record { sent = password_sent; incoming = [] })
getpin_dialogue_example =
    getpin_dialogue 7 (codes "Enter your password.") (codes "Password") (codes "Wrong password") []
      password_replies (ok abc) password_sent [] entered_abc
