-- ===== src/Ui/Lines.antt =====
-- Which lines src/ui/pinentry_conn.h and pinentry_ui.cpp send to pinentry.
use gravelbox.Base.{ℕ, ◌≡◌, refl, Bytes, ◌++◌, codes, All, All-append, ok, arith}
use gravelbox.Exec.{Exec, ◌>>=◌}
use gravelbox.Exec.Keeps.{ended, kept, Keeps, Keeps-still, Keeps-bind}
use gravelbox.Parser.StrType.{ReadMemory}
use gravelbox.Parser.Escape.{IsPrint}
use gravelbox.Parser.ArgText.{HoldsBytes}
use gravelbox.Parser.Call.{Parser, call}
use gravelbox.Parser.Printable.{NamesPrint, call-IsPrint}
use gravelbox.Utils.{SyscallArgs}
use gravelbox.Ui.Pinentry.{
  Response, Conn, recv, send, check_ok, expect_ok, command, confirmed, confirm, ask,
}

-- Every line that was sent has a property.
abbrev pub SentAll : (Bytes → Type 0) → Conn → Type 0
SentAll P c = All P c.sent

module _ (P : Bytes → Type 0) (unset : ℕ) where
  abbrev Sends : {A : Type 0} → Exec Conn A → Type 0
  Sends m = Keeps ⊥ (SentAll P) m

  send-Sends : (line : Bytes) → P line → Sends (send unset line)
  unfolding send
  send-Sends line p = record { at = λ c h. kept (p, h) }

  recv-Sends : Sends (recv unset)
  unfolding recv
  recv-Sends = record { at = λ c h. kept h }

  check_ok-Sends : (r : Response) → Sends (check_ok unset r)
  unfolding check_ok
  check_ok-Sends r = Keeps-still (check_ok unset r) (λ c. refl)

  command-Sends : (line : Bytes) → P line → Sends (command unset line)
  unfolding command expect_ok
  command-Sends line p = Keeps-bind (send-Sends line p) (λ _. Keeps-bind recv-Sends check_ok-Sends)

  -- The answer to a last line.
  reply-Sends :
      {A : Type 0} (f : Response → Exec Conn A)
      → ((r : Response) (c : Conn) → (f r c).1 ≡ c)
      → Sends (recv unset >>= f)
  reply-Sends f same = Keeps-bind recv-Sends (λ r. Keeps-still (f r) (same r))

  confirm-Sends :
      (message : Bytes)
      → P (codes "SETDESC " ++ message)
      → P (codes "SETOK Allow")
      → P (codes "SETCANCEL Deny")
      → P (codes "CONFIRM")
      → Sends (confirm unset message)
  unfolding confirm confirmed
  confirm-Sends message desc set_ok set_cancel last = Keeps-bind (command-Sends _ desc) (λ _.
      Keeps-bind (command-Sends _ set_ok) (λ _.
        Keeps-bind (command-Sends _ set_cancel)
          (λ _. Keeps-bind (send-Sends _ last) (λ _. reply-Sends (confirmed unset) (λ r c. refl)))))

-- If the memory holds bytes, the names in the definitions are printable, and so are the lines that were
-- sent before: whatever the target has in its registers and its memory, and whatever pinentry answers,
-- the lines sent after the dialogue about a call hold printable characters only, and no end of a line.
pub ask-IsPrint :
    (read_memory : ReadMemory)
    → HoldsBytes read_memory
    → (p : Parser) → NamesPrint p.syscall_map
    → (args : SyscallArgs) (text : Bytes) → call read_memory p args ≡ ok text
    → (unset : ℕ) (c : Conn) → SentAll (All IsPrint) c
    → SentAll (All IsPrint) (ask unset text c).1
unfolding ask
ask-IsPrint read_memory bytes p names args text h unset c before =
    let question = codes "Do you allow the following system call?%0a%0a" in
    let shown =
      All-append IsPrint question text (ground arith)
        (call-IsPrint read_memory bytes p names args text h) in
    let desc = All-append IsPrint (codes "SETDESC ") (question ++ text) (ground arith) shown in
    elim ((confirm-Sends (All IsPrint) unset (question ++ text) desc (ground arith) (ground arith)
        (ground arith)).at
      c before) [ ended e q ↦ absurd q | kept k ↦ k ]
