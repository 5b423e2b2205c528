-- ===== src/Program/Keeping.antt =====
-- What `run` of src/modules.cpp keeps of the user interface that it owns.
use gravelbox.Base.{ℕ, zero, suc, Bytes, [], codes, Option, none, some, Outcome}
use gravelbox.Exec.{pure, ◌>>=◌}
use gravelbox.Exec.Keeps.{Ends, ended, kept, Keeps, Keeps-pure, Keeps-lift, Keeps-bind, Keeps-if}
use gravelbox.Config.FileConfig.{Libraries, FileConfig, new_config, verify_signature}
use gravelbox.Parser.Call.{Parser}
use gravelbox.Parser.Load.{new_parser}
use gravelbox.Tracer.Asking.{UiKeeps, Ends-settle, syscall_callback-Keeps}
use gravelbox.Tracer.Decide.{Session, run_callbacks}
use gravelbox.Tracer.Run.{untraced}
use gravelbox.Tracer.Worlds.{run_with_callbacks-KeepsWorld}
use gravelbox.Program.Options.{Options, UiOwner}
use gravelbox.Program.Key.{key_message, key_prompt, key_error, key_loop, ask_key}
use gravelbox.Program.Run.{
  Machine, make_given, make_other, sign_in, prepare, traced, trace, run_prepared,
}

-- The operations of the pointer and of its object keep an invariant.
pub record OwnerKeeps {W : Type 0} (Q : Type 0) (P : W → Type 0) (owner : UiOwner W) : Type 0 where
  pub make : (path : Bytes) → Keeps Q P (owner.make path)
  pub ui : UiKeeps Q P owner.ui

module _ (lib : Libraries) {W : Type 0} (owner : UiOwner W) (vm : Options) {Q : Type 0}
    {P : W → Type 0} (keeps : OwnerKeeps Q P owner) where
  key_loop-Keeps :
      (fuel : ℕ) (c : FileConfig lib) (entered : Option Bytes)
      → Keeps Q P (key_loop lib owner.ui fuel c entered)
  unfolding key_loop
  key_loop-Keeps fuel c none = Keeps-pure (some none)
  key_loop-Keeps zero c (some k) = Keeps-pure none
  key_loop-Keeps (suc fuel) c (some k) =
      let (r, c') = verify_signature lib c k in
      Keeps-bind (Keeps-lift r) (λ accepted. Keeps-if accepted (Keeps-pure (some (some c'))) (
        Keeps-bind (keeps.ui.ask_password key_message key_prompt key_error)
          (key_loop-Keeps fuel c')))

  settled-Keeps :
      (c : FileConfig lib) (entered : Option Bytes)
      → Keeps Q P (λ w.
        gravelbox.Tracer.Decide.settle (key_loop lib owner.ui (suc (owner.ui.left w)) c entered w))
  settled-Keeps c entered = record {
    at = λ w h. Ends-settle _ _ ((key_loop-Keeps (suc (owner.ui.left w)) c entered).at w h);
  }

  ask_key-Keeps : (c : FileConfig lib) → Keeps Q P (ask_key lib owner.ui c)
  unfolding ask_key
  ask_key-Keeps c = Keeps-bind (keeps.ui.ask_password key_message key_prompt []) (settled-Keeps c)

  make_given-Keeps : Keeps Q P (make_given lib owner vm)
  unfolding make_given
  make_given-Keeps = record { at = λ w h. go vm.pinentry w h }
    where
      go :
          (o : Option Bytes) (w : W)
          → P w
          → let (r, w') : Outcome (Unit {0}) × W = elim o [
            | none ↦ pure tt w
            | some path ↦ owner.make path w
          ] in
            Ends Q P r w'
      go none w h = kept h
      go (some path) w h = (keeps.make path).at w h

  make_other-Keeps : (path : Bytes) → Keeps Q P (make_other lib owner vm path)
  unfolding make_other
  make_other-Keeps path = record { at = λ w h. go vm.pinentry w h }
    where
      go :
          (o : Option Bytes) (w : W)
          → P w
          → let (r, w') : Outcome (Unit {0}) × W = elim o [
            | none ↦ owner.make path w
            | some _ ↦ pure tt w
          ] in
            Ends Q P r w'
      go none w h = (keeps.make path).at w h
      go (some _) w h = kept h

  sign_in-Keeps : (c : FileConfig lib) → Keeps Q P (sign_in lib owner vm c)
  unfolding sign_in
  sign_in-Keeps c =
      Keeps-if vm.no_signature (Keeps-pure _)
        (Keeps-bind (make_other-Keeps (codes "pinentry")) (λ _. ask_key-Keeps c))

  prepare-Keeps : Keeps Q P (prepare lib owner vm)
  unfolding prepare
  prepare-Keeps =
      Keeps-bind (Keeps-lift (new_config lib vm.config))
        (λ c. Keeps-bind make_given-Keeps (λ _. sign_in-Keeps c))

  trace-Keeps :
      (m : Machine) (c : FileConfig lib) (parser : Parser)
      → Keeps Q P (trace lib owner vm m c parser)
  unfolding trace traced run_callbacks
  trace-Keeps m c parser = record {
    at = λ w h.
        elim ((run_with_callbacks-KeepsWorld (run_callbacks lib owner.ui c m.read_memory) Q
            (λ (s : Session W). P s.ui) (λ p s k. k)
            (syscall_callback-Keeps lib owner.ui c keeps.ui m.read_memory) m.launch).at
          (untraced (record { parser = parser; ui = w })) h) [
            | ended e q ↦ ended e q
            | kept k ↦ kept k
          ];
  }

  run_prepared-Keeps :
      (m : Machine) (o : Option (FileConfig lib)) → Keeps Q P (run_prepared lib owner vm m o)
  unfolding run_prepared
  run_prepared-Keeps m none = Keeps-pure _
  run_prepared-Keeps m (some c) = Keeps-bind (make_other-Keeps c.pinentry) (λ _.
      Keeps-bind (Keeps-lift (new_parser lib.json lib.read_file m.target c.syscalldef))
        (λ parser. trace-Keeps m c parser))

  -- Before the pointer is left, the program has kept what the operations of the interface keep.
  pub body-Keeps : (m : Machine) → Keeps Q P (prepare lib owner vm >>= run_prepared lib owner vm m)
  body-Keeps m = Keeps-bind prepare-Keeps (run_prepared-Keeps m)
