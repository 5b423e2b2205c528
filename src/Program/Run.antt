-- ===== src/Program/Run.antt =====
-- `run` of src/modules.cpp.
use gravelbox.Base.{ℕ, Bytes, codes, if◌then◌else◌, Option, none, some, Outcome}
use gravelbox.Exec.{Exec, pure, lift, ◌>>=◌, ◌>>◌}
use gravelbox.Config.FileConfig.{
  Libraries, FileConfig, new_config, dismiss_signature, remove_password,
}
use gravelbox.Parser.StrType.{ReadMemory}
use gravelbox.Parser.Call.{Parser}
use gravelbox.Parser.Load.{new_parser}
use gravelbox.Tracer.Run.{Launch, run_with_callbacks, untraced}
use gravelbox.Tracer.Types.{Tracer}
use gravelbox.Tracer.Decide.{Session, run_callbacks}
use gravelbox.Program.Options.{Options, UiOwner, owning}
use gravelbox.Program.Key.{ask_key}

abbrev pub exit_failure : ℕ
exit_failure = 1

abbrev pub exit_success : ℕ
exit_success = 0

-- What a run meets besides the user: the memory of the target, the system's answers to the tracer, and
-- the value that `target_` of the parser happens to hold at first.
pub record Machine : Type 0 where
  pub read_memory : ReadMemory
  pub launch : Launch
  pub target : ℕ

module _ (lib : Libraries) {W : Type 0} (owner : UiOwner W) (vm : Options) where
  open owner use {make, ui}

  -- `if (vm.count("pinentry") > 0)` and `if (vm.count("pinentry") == 0)`.
  unfoldable pub make_given : Exec W (Unit {0})
  unfolding pure
  make_given w = elim vm.pinentry [ none ↦ pure tt w | some path ↦ make path w ]

  unfoldable pub make_other : Bytes → Exec W (Unit {0})
  unfolding pure
  make_other path w = elim vm.pinentry [ none ↦ make path w | some _ ↦ pure tt w ]

  -- The signature, or the lack of it; `none` is `return EXIT_FAILURE`.
  unfoldable pub sign_in : FileConfig lib → Exec W (Option (FileConfig lib))
  unfolding pure ask_key make_other ◌>>=◌
  sign_in c =
      let ask = make_other (codes "pinentry") >> ask_key lib ui c in
      if vm.no_signature then pure (some (remove_password lib (dismiss_signature lib c))) else ask

  -- Up to the tracer.
  unfoldable pub prepare : Exec W (Option (FileConfig lib))
  unfolding lift make_given sign_in ◌>>=◌
  prepare = do c ← lift (new_config lib vm.config); make_given; sign_in c

  -- tracer.run, with what the tracer has at the end.
  unfoldable pub traced :
      Machine → FileConfig lib → Parser → W → Outcome (Option ℕ) × Tracer (Session W)
  unfolding run_with_callbacks
  traced m c parser w =
      run_with_callbacks (run_callbacks lib ui c m.read_memory) m.launch
        (untraced (record { parser = parser; ui = w }))

  -- `none` is a target that still runs.
  unfoldable pub trace : Machine → FileConfig lib → Parser → Exec W (Option ℕ)
  unfolding traced
  trace m c parser w = let (r, t) = traced m c parser w in (r, t.world.ui)

  unfoldable pub run_prepared : Machine → Option (FileConfig lib) → Exec W (Option ℕ)
  unfolding pure make_other lift trace ◌>>=◌
  run_prepared m none = pure (some exit_failure)
  run_prepared m (some c) = do
    make_other c.pinentry
    parser ← lift (new_parser lib.json lib.read_file m.target c.syscalldef)
    trace m c parser

  unfoldable pub run : Machine → Exec W (Option ℕ)
  unfolding prepare run_prepared owning ◌>>=◌
  run m = owning owner (prepare >>= run_prepared m)
