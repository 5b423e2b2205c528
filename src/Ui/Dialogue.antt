-- ===== src/Ui/Dialogue.antt =====
-- Dialogues with pinentry: the lines a dialog sends and the replies it waits for, for src/ui/pinentry_conn.h.
use gravelbox.Base.{
  ℕ, ◌≡◌, ◌≢◌, refl, Bytes, List, [], ◌∷◌, ◌++◌, codes, false, ◌==◌, Outcome, ok, throw,
  pinentry_exception, arith,
}
use gravelbox.Exec
use gravelbox.Exec.{Exec, continue}
use gravelbox.Ostream.Digits.{dec}
use gravelbox.Ostream.Number.{print_unsigned}
use gravelbox.Ui.Pinentry.{Response, Conn, recv, send, check_ok, expect_ok, command, throw_error}
use gravelbox.Ui.Reading.{Reads, Reads-recv_lines}

-- What is thrown for a response that is an error.
abbrev pub refusal {ℓ} : {A : Type ℓ} → Response → Outcome A
refusal r = throw (pinentry_exception (print_unsigned dec r.code ++ (codes " " ++ r.text)))

-- The settings are sent one by one, each after the reply to the one before has code 0, and the question
-- after the reply to the last; the first other reply ends the dialogue. The indices: the settings, the
-- question, the lines sent before (latest first), the lines to come, then the response to the question
-- or what is thrown, the lines sent after, and the lines left.
pub data Dialogue
    : List Bytes
      → Bytes
      → List Bytes
      → List Bytes
      → Outcome Response
      → List Bytes
      → List Bytes
      → Type 0 where
  answered :
      (question : Bytes) (sent replies : List Bytes) (r : Response) (rest : List Bytes)
      → Reads [] replies r rest
      → Dialogue [] question sent replies (ok r) (question ∷ sent) rest
  accepted :
      (line : Bytes) (lines : List Bytes) (question : Bytes) (sent replies : List Bytes)
      (r : Response) (more : List Bytes) (o : Outcome Response) (sent' rest : List Bytes)
      → Reads [] replies r more
      → r.code ≡ 0
      → Dialogue lines question (line ∷ sent) more o sent' rest
      → Dialogue (line ∷ lines) question sent replies o sent' rest
  refused :
      (line : Bytes) (lines : List Bytes) (question : Bytes) (sent replies : List Bytes)
      (r : Response) (rest : List Bytes)
      → Reads [] replies r rest
      → r.code ≢ 0
      → Dialogue (line ∷ lines) question sent replies (refusal r) (line ∷ sent) rest

module _ (unset : ℕ) where
  -- The commands, the question, and what is done with its response.
  unfoldable pub led : {A : Type 0} → List Bytes → Bytes → (Response → Exec Conn A) → Exec Conn A
  unfolding Exec.◌>>=◌ send
  led [] question next = Exec.◌>>=◌ (send unset question) (λ _. Exec.◌>>=◌ (recv unset) next)
  led (line ∷ lines) question next = Exec.◌>>=◌ (command unset line) (λ _. led lines question next)

  -- A dialogue goes as its lines say, and what it ends with is given to `next`.
  pub Dialogue-led :
      {A : Type 0} {lines : List Bytes} {question : Bytes} {sent replies : List Bytes}
      {o : Outcome Response} {sent' rest : List Bytes} (next : Response → Exec Conn A)
      → Dialogue lines question sent replies o sent' rest
      → led lines question next (record { sent = sent; incoming = replies })
        ≡ continue o next (record { sent = sent'; incoming = rest })
  unfolding led recv send command expect_ok check_ok throw_error
  Dialogue-led next (Dialogue.answered question sent replies r rest reads) =
      rw (Reads-recv_lines unset reads) refl
  Dialogue-led next
        (Dialogue.accepted line lines question sent replies r more o sent' rest reads fine later) =
      rw (Reads-recv_lines unset reads, fine) (Dialogue-led next later)
  Dialogue-led next (Dialogue.refused line lines question sent replies r rest reads wrong) =
      let not_fine : (r.code == 0) ≡ false = ground (arith, wrong) in
      rw (Reads-recv_lines unset reads, not_fine) refl
