-- ===== src/Tracer/GrantedBy.antt =====
-- Which calls the loop of src/trace/tracer.cpp lets through, with the definitions that its parser has.
use gravelbox.Base.{ℕ, ◌≡◌, refl, true, Bytes, All, ok, arith}
use gravelbox.Utils.{SyscallArgs}
use gravelbox.NatMap.{NatMap}
use gravelbox.Parser.StrType.{ReadMemory}
use gravelbox.Parser.SyscallDef.{SyscallDef}
use gravelbox.Parser.Call.{Parser, setpid, call}
use gravelbox.Config.FileConfig.{Libraries, FileConfig}
use gravelbox.Ui.Interface.{Ui}
use gravelbox.Tracer.Run.{Launch, start_trace, run_with_callbacks, untraced}
use gravelbox.Utils.{done}
use gravelbox.Tracer.Entries.{rounds}
use gravelbox.Tracer.LetThrough.{LetThrough, rounds-LetThrough, initial-AllFit}
use gravelbox.Tracer.Mediation.{initial}
use gravelbox.Tracer.Decide.{Session, run_callbacks, syscall_callback}
use gravelbox.Tracer.Approval.{Approves, syscall_callback-approved}
use gravelbox.Tracer.Granted.{Granted, Safe-run_with_callbacks, Safe-start_trace}

module _ (lib : Libraries) {W : Type 0} (ui : Ui W) (config : FileConfig lib)
    (read_memory : ReadMemory) (definitions : NatMap SyscallDef) where
  -- By the definitions, the parser made a text for the call from the memory of the thread, and that text
  -- is approved.
  abbrev pub ApprovedBy : ℕ → SyscallArgs → Type 0
  ApprovedBy p c =
      let parser : Parser = record { target = p; syscall_map = definitions } in
      (w : W) × (text : Bytes) × (call read_memory parser c ≡ ok text)
      × Approves lib ui config text w

  abbrev pub Defined : Session W → Type 0
  Defined s = s.parser.syscall_map ≡ definitions

  pub Defined-syscall_callback :
      (c : SyscallArgs) (s : Session W)
      → Defined s
      → Defined (syscall_callback lib ui config read_memory c s).1
  unfolding syscall_callback
  Defined-syscall_callback c s h = ground arith

  pub run_callbacks-ApprovedBy :
      (p : ℕ) (c : SyscallArgs) (s : Session W)
      → Defined s
      → (syscall_callback lib ui config read_memory c (record s { parser = setpid p s.parser })).0
        ≡ ok true
      → ApprovedBy p c
  unfolding setpid
  run_callbacks-ApprovedBy p c s d h =
      let s' = record s { parser = setpid p s.parser } in
      let (text, made, approved, same) =
        syscall_callback-approved lib ui config read_memory c s' h in
      (s'.ui, text, rw d at made, approved)

  -- From a start of the program with these definitions, whatever the system answers.
  pub run_with_callbacks-Granted :
      (l : Launch) (target : ℕ) (w : W)
      → Granted ApprovedBy
          (run_with_callbacks (run_callbacks lib ui config read_memory) l (
            untraced (record {
              parser = record { target = target; syscall_map = definitions };
              ui = w;
            }))).1.log
  unfolding run_callbacks setpid
  run_with_callbacks-Granted l target w =
      (Safe-run_with_callbacks (run_callbacks lib ui config read_memory) ApprovedBy Defined
        (λ p s d. d) Defined-syscall_callback run_callbacks-ApprovedBy l
        (untraced
          (record { parser = record { target = target; syscall_map = definitions }; ui = w }))
        (record { log = tt; world = refl })).log

  -- In every round of a start of the program with these definitions.
  pub run-LetThrough :
      (l : Launch) (child target : ℕ) (w : W)
      → let cb = run_callbacks lib ui config read_memory in
        let begun : Session W = record {
          parser = record { target = target; syscall_map = definitions };
          ui = w;
        } in
        l.forked ≡ done child
        → (start_trace l (untraced begun)).0 ≡ ok tt
        → All (LetThrough cb ApprovedBy) (rounds cb l.events (initial l child begun))
  unfolding run_callbacks setpid
  run-LetThrough l child target w forked started =
      let cb = run_callbacks lib ui config read_memory in
      let begun : Session W = record {
        parser = record { target = target; syscall_map = definitions };
        ui = w;
      } in
      rounds-LetThrough cb ApprovedBy Defined (λ p s d. d) Defined-syscall_callback
        run_callbacks-ApprovedBy l.events (initial l child begun)
        (initial-AllFit l child begun forked started cb)
        (Safe-start_trace cb ApprovedBy Defined (λ p s d. d) Defined-syscall_callback
          run_callbacks-ApprovedBy l (untraced begun) (record { log = tt; world = refl }))
