-- ===== src/Tests/Descriptors.antt =====
-- Sample runs of what src/utils.h, src/trace/tracer.cpp and src/ui do with descriptors and lines.
use gravelbox.Base.{◌+◌, ◌≡◌, refl, [], ◌∷◌, codes, false, ok}
use gravelbox.Utils.{done}
use gravelbox.Utils.Fd.{new, move, assign, release, Files, CloseReply, destroy_all}
use gravelbox.Utils.FdOwner.{destroy_all-moved}
use gravelbox.Ui.Launch.{Startup, new_pinentry}
use gravelbox.Ui.Descriptors.{HoldsEnds, count, made, new_pinentry-devices}
use gravelbox.Ui.Cli.{Terminal, Answered, ask, ask-Answered}

abbrev pub closes_all : CloseReply
closes_all = λ n. done tt

abbrev pub nothing_closed : Files
nothing_closed = record { closed = [] }

destroy_all-moved_example :
    (destroy_all closes_all ((move (new 5)).0 ∷ (move (new 5)).1 ∷ []) nothing_closed
      ≡ (ok tt, record { closed = 5 ∷ [] }))
    × (destroy_all closes_all ((release (new 5)).1 ∷ []) nothing_closed ≡ (ok tt, nothing_closed))
    × (destroy_all closes_all
          ((assign false (new 5) (new 6)).0 ∷ (assign false (new 5) (new 6)).1 ∷ [])
          nothing_closed
        ≡ (ok tt, record { closed = 6 ∷ [] }))
destroy_all-moved_example = destroy_all-moved closes_all (λ n. refl) (new 5) (new 6) nothing_closed

-- Pinentry starts, and refuses the title.
abbrev refusing : Startup
refusing = record {
  to_pinentry = done (3, 4);
  from_pinentry = done (5, 6);
  ttyname = done (codes "/dev/tty");
  forked = done 200;
  lines = codes "OK Pleased to meet you" ∷ codes "ERR 1 no" ∷ [];
}

new_pinentry-devices_example :
    let (r, s) = new_pinentry closes_all 0 refusing nothing_closed in
    HoldsEnds refusing r s.devices
    × (count 4 s.files.closed + count 4 s.devices ≡ count 4 (made refusing) + 0)
new_pinentry-devices_example =
    new_pinentry-devices closes_all (λ n. refl) 0 refusing nothing_closed 4

abbrev terminal : Terminal
terminal = record { lines = codes "what" ∷ codes "n" ∷ codes "y" ∷ []; err = [] }

ask-Answered_example :
    let (b, t) = ask (codes "execve()") terminal in Answered terminal.lines b t.lines
ask-Answered_example = ask-Answered (codes "execve()") terminal
