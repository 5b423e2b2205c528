-- ===== src/Program/Monitored.antt =====
-- What a run of the program in src/modules.cpp came from, from its configuration to its last call.
use gravelbox.Base.{ℕ, ◌≡◌, Option, none, some, ◌⊎◌, inl, inr, All, ok, arith}
use gravelbox.Exec.{Exec, lift, bind-ok, ◌>>=◌}
use gravelbox.Config.FileConfig.{Libraries, FileConfig, new_config}
use gravelbox.Parser.Call.{Parser}
use gravelbox.Parser.Load.{new_parser}
use gravelbox.Tracer.Granted.{Granted}
use gravelbox.Tracer.GrantedBy.{ApprovedBy, run_with_callbacks-Granted, run-LetThrough}
use gravelbox.Tracer.Entries.{rounds}
use gravelbox.Tracer.LetThrough.{LetThrough}
use gravelbox.Tracer.Mediation.{initial}
use gravelbox.Tracer.Types.{Tracer}
use gravelbox.Tracer.Loop.{trace_loop}
use gravelbox.Tracer.Run.{Launch, start_trace, run_with_callbacks, untraced}
use gravelbox.Tracer.Decide.{Session, run_callbacks}
use gravelbox.Utils.{done, Reply-cases}
use gravelbox.Program.Options.{Options, UiOwner, owning}
use gravelbox.Program.Run.{Machine, make_other, prepare, traced, trace, run_prepared, run}
use gravelbox.Program.Trust.{Trusted, prepare-Trusted}

start_trace-forked :
    {W : Type 0} (l : Launch) (t : Tracer W)
    → (start_trace l t).0 ≡ ok tt
    → (child : ℕ) × (l.forked ≡ done child)
unfolding start_trace
start_trace-forked l t h = elim (Reply-cases l.forked) [
  | inl (child, e) ↦ (child, e)
  | inr (n, e) ↦ absurd (ground arith)
]

module _ (lib : Libraries) {W : Type 0} (owner : UiOwner W) (vm : Options) (m : Machine) where
  -- A run of the target that came to `code`.
  pub record Monitored (code : ℕ) : Type 0 where
    pub written : FileConfig lib
    pub config : FileConfig lib
    pub parser : Parser
    pub world : W
    pub loaded : new_config lib vm.config ≡ ok written
    pub trusted : Trusted lib owner vm written config
    pub defined : new_parser lib.json lib.read_file m.target config.syscalldef ≡ ok parser
    pub came_to : (traced lib owner vm m config parser world).0 ≡ ok (some code)
    pub child : ℕ
    pub forked : m.launch.forked ≡ done child
    -- The rounds of the run.
    pub let_through :
        let begun : Session W = record { parser = parser; ui = world } in
        let cb = run_callbacks lib owner.ui config m.read_memory in
        All
          (LetThrough cb (ApprovedBy lib owner.ui config m.read_memory parser.syscall_map))
          (rounds cb m.launch.events (initial m.launch child begun))
    pub granted :
        Granted
          (ApprovedBy lib owner.ui config m.read_memory parser.syscall_map)
          (traced lib owner vm m config parser world).1.log

  -- There was no key for the configuration any more.
  abbrev pub GaveUp : W → ℕ → Type 0
  GaveUp w code = ((prepare lib owner vm w).0 ≡ ok none) × (code ≡ 1)

  traced-Granted :
      (c : FileConfig lib) (parser : Parser) (w : W)
      → Granted
          (ApprovedBy lib owner.ui c m.read_memory parser.syscall_map)
          (traced lib owner vm m c parser w).1.log
  unfolding traced
  traced-Granted c parser w =
      run_with_callbacks-Granted lib owner.ui c m.read_memory parser.syscall_map m.launch
        parser.target w

  traced-started :
      (c : FileConfig lib) (parser : Parser) (w : W) (code : ℕ)
      → (traced lib owner vm m c parser w).0 ≡ ok (some code)
      → (child : ℕ) × (m.launch.forked ≡ done child)
        × ((start_trace m.launch (untraced {W = Session W} (record { parser = parser; ui = w }))).0
            ≡ ok tt)
  unfolding traced run_with_callbacks
  traced-started c parser w code h =
      let begun : Session W = record { parser = parser; ui = w } in
      let (_, started, rest) =
        bind-ok (start_trace m.launch)
          (λ _. trace_loop (run_callbacks lib owner.ui c m.read_memory) m.launch.events)
          (untraced begun) (some code) h in
      let (child, forked) = start_trace-forked m.launch (untraced begun) started in
      (child, forked, started)

  run_prepared-Monitored :
      (c c' : FileConfig lib) (w : W) (code : ℕ)
      → new_config lib vm.config ≡ ok c
      → Trusted lib owner vm c c'
      → (run_prepared lib owner vm m (some c') w).0 ≡ ok (some code)
      → Monitored code
  unfolding run_prepared lift trace
  run_prepared-Monitored c c' w code loaded trusted h =
      let with_parser : Parser → Exec W (Option ℕ) = trace lib owner vm m c' in
      let load : Exec W Parser = lift (new_parser lib.json lib.read_file m.target c'.syscalldef) in
      let ui_made : Exec W (Unit {0}) = make_other lib owner vm c'.pinentry in
      let (_, _, rest) = bind-ok ui_made (λ _. load >>= with_parser) w (some code) h in
      let w' = (ui_made w).1 in
      let (parser, defined, ran) = bind-ok load with_parser w' (some code) rest in
      let (child, forked, started) = traced-started c' parser w' code ran in
      record {
        written = c;
        config = c';
        parser = parser;
        world = w';
        loaded = loaded;
        trusted = trusted;
        defined = defined;
        came_to = ran;
        child = child;
        forked = forked;
        let_through =
            run-LetThrough lib owner.ui c' m.read_memory parser.syscall_map m.launch child
              parser.target w' forked started;
        granted = traced-Granted c' parser w';
      }

  prepared_cases :
      (prepared : Option (FileConfig lib)) (w w' : W) (code : ℕ)
      → (prepare lib owner vm w).0 ≡ ok prepared
      → (run_prepared lib owner vm m prepared w').0 ≡ ok (some code)
      → GaveUp w code ⊎ Monitored code
  unfolding run_prepared
  prepared_cases none w w' code h k = inl (h, ground arith)
  prepared_cases (some c') w w' code h k =
      let (c, loaded, trusted) = prepare-Trusted lib owner vm w c' h in
      inr (run_prepared-Monitored c c' w' code loaded trusted k)

  -- If `run` returns a code: the user gave up on the key, and it is 1; or the target was run with a
  -- configuration that was loaded from the file asked for and is trusted, with the definitions that the
  -- configuration names, and the run of the target came to that code. In each of its rounds in which the
  -- kernel lets a thread go from user space into a system call, the call that the kernel reports was
  -- approved by that configuration or the user, or it was cancelled before.
  pub run-Monitored :
      (w : W) (code : ℕ)
      → (run lib owner vm m w).0 ≡ ok (some code)
      → GaveUp w code ⊎ Monitored code
  unfolding run owning
  run-Monitored w code h =
      let run_it : Option (FileConfig lib) → Exec W (Option ℕ) = run_prepared lib owner vm m in
      let inner : ((prepare lib owner vm >>= run_it) w).0 ≡ ok (some code) = ground arith in
      let (prepared, a, b) = bind-ok (prepare lib owner vm) run_it w (some code) inner in
      prepared_cases prepared w _ code a b
