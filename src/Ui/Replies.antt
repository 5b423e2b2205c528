-- ===== src/Ui/Replies.antt =====
-- What the replies of pinentry come to in `confirm` and `getpin` of src/ui/pinentry_conn.h.
use gravelbox.Base.{
  ℕ, ◌≡◌, refl, Bytes, List, [], ◌∷◌, ◌++◌, codes, Bool, true, false, ◌==◌, if◌then◌else◌, Outcome,
  ok, throw, terminate, ◌>>=◌, ◌∙◌, arith, Option, none, some, inl, inr, Bool-cases,
}
use gravelbox.Config.FileConfig.{is_empty}
use gravelbox.Ui.Dialogue.{Dialogue, refusal, led, Dialogue-led}
use gravelbox.Exec.{Exec, continue}
use gravelbox.Ui.Pinentry.{Conn, Response, confirmed, confirm, entered, getpin, throw_error}

-- The answer for a response: yes for code 0, no for a cancellation, or an error.
abbrev pub answer_of : Response → Outcome Bool
answer_of r = if r.code == 0 then ok true else if r.code == 83886179 then ok false else refusal r

-- The password for a response: what came with code 0, none for a cancellation, or an error.
abbrev pub password_of : Response → Outcome (Option Bytes)
password_of r =
    if r.code == 0 then ok (some r.text) else if r.code == 83886179 then ok none else refusal r

-- Where the end of a dialog leaves the connection alone, it works on the outcome.
continue-outcome :
    {A : Type 0} (next : Response → Exec Conn A) (f : Response → Outcome A) (o : Outcome Response)
    (c : Conn)
    → ((r : Response) (c : Conn) → next r c ≡ (f r, c))
    → continue o next c ≡ (o >>= f, c)
unfolding continue
continue-outcome next f (ok r) c h = h r c
continue-outcome next f (throw x) c h = refl
continue-outcome next f terminate c h = refl

-- A question with its two labels, as `confirm` sends them.
abbrev pub question_lines : Bytes → List Bytes
question_lines message =
    (codes "SETDESC " ++ message) ∷ codes "SETOK Allow" ∷ codes "SETCANCEL Deny" ∷ []

-- The settings of a dialog for a password, with the error if there is one.
abbrev pub password_lines : Bytes → Bytes → Bytes → List Bytes
password_lines message prompt error =
    (codes "SETDESC " ++ message)
    ∷ (codes "SETPROMPT " ++ prompt)
    ∷ codes "SETOK OK"
    ∷ codes "SETCANCEL Cancel"
    ∷ (if is_empty error then [] else (codes "SETERROR " ++ error) ∷ [])

-- However pinentry replies to the question and its labels, to each by a line for `OK`, with a remark or
-- not, or by an error with a code of 32 bits, and with lines of data and of status before: the lines are
-- sent in their order, each after the one before was accepted, and then the command, whose response
-- decides: code 0 is a yes, the code of a cancellation a no, and any other code is thrown with its
-- text, as is the first setting that was refused.
pub confirm_dialogue :
    (unset : ℕ) (message : Bytes) (sent replies : List Bytes) (o : Outcome Response)
    (sent' rest : List Bytes)
    → Dialogue (question_lines message) (codes "CONFIRM") sent replies o sent' rest
    → confirm unset message (record { sent = sent; incoming = replies })
      ≡ (o >>= answer_of, record { sent = sent'; incoming = rest })
unfolding confirm confirmed throw_error led
confirm_dialogue unset message sent replies o sent' rest h =
    Dialogue-led unset (confirmed unset) h
    ∙ continue-outcome (confirmed unset) answer_of o (record { sent = sent'; incoming = rest })
        (λ r c. refl)

entered-password_of : (unset : ℕ) (r : Response) (c : Conn) → entered unset r c ≡ (password_of r, c)
unfolding entered throw_error
entered-password_of unset r c = ground arith

getpin-led :
    (unset : ℕ) (message prompt error : Bytes) (sent replies : List Bytes)
    → getpin unset message prompt error (record { sent = sent; incoming = replies })
      ≡ led unset
          (password_lines message prompt error)
          (codes "GETPIN")
          (entered unset)
          (record { sent = sent; incoming = replies })
unfolding getpin led
getpin-led unset message prompt error sent replies = elim (Bool-cases (is_empty error)) [
  | inl y ↦ rw y refl
  | inr n ↦ rw n refl
]

-- However pinentry replies in this way to the texts of the dialog, to its labels and to the error, where
-- there is one: they are sent in this order, each after the one before was accepted, and then the
-- command, whose response decides: code 0 gives the data that came with it as the password, the code of
-- a cancellation gives none, and any other code is thrown with its text, as is the first setting that
-- was refused.
pub getpin_dialogue :
    (unset : ℕ) (message prompt error : Bytes) (sent replies : List Bytes) (o : Outcome Response)
    (sent' rest : List Bytes)
    → Dialogue (password_lines message prompt error) (codes "GETPIN") sent replies o sent' rest
    → getpin unset message prompt error (record { sent = sent; incoming = replies })
      ≡ (o >>= password_of, record { sent = sent'; incoming = rest })
getpin_dialogue unset message prompt error sent replies o sent' rest h =
    getpin-led unset message prompt error sent replies
    ∙ Dialogue-led unset (entered unset) h
    ∙ continue-outcome (entered unset) password_of o (record { sent = sent'; incoming = rest })
        (entered-password_of unset)
