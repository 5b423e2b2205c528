-- ===== src/Program/Accepting.antt =====
-- That src/modules.cpp goes on with a key that is right, after any number of wrong ones.
use gravelbox.Base.{
  ℕ, zero, suc, ◌≡◌, ◌<◌, refl, ap, ◌∙◌, Bytes, [], codes, true, false, Option, none, some, Outcome,
  ok, arith,
}
use gravelbox.Exec.{pure, lift, ◌>>=◌}
use gravelbox.Config.FileConfig.{Libraries, FileConfig, new_config, verify_signature}
use gravelbox.Config.Password.{verify_signature_state}
use gravelbox.Ui.Interface.{Ui}
use gravelbox.Tracer.Decide.{settle}
use gravelbox.Program.Options.{Options, UiOwner}
use gravelbox.Program.Key.{key_message, key_prompt, key_error, key_loop, ask_key}
use gravelbox.Program.Run.{make_given, make_other, sign_in, prepare}

module _ (lib : Libraries) {W : Type 0} (ui : Ui W) (fuel : ℕ) (c : FileConfig lib)
    (k : Bytes) where
  key_loop_right :
      (w : W)
      → (verify_signature lib c k).0 ≡ ok true
      → (key_loop lib ui (suc fuel) c (some k) w).0
        ≡ ok (some (some (record c { key = k; config = [] })))
  unfolding key_loop ◌>>=◌ lift pure
  key_loop_right w y = let left = rw y at (verify_signature_state lib c k) in rw (y, left) refl

  key_loop_wrong :
      (w v : W) (next : Option Bytes)
      → (verify_signature lib c k).0 ≡ ok false
      → ui.ask_password key_message key_prompt key_error w ≡ (ok next, v)
      → (key_loop lib ui (suc fuel) c (some k) w).0
        ≡ (key_loop lib ui fuel (record c { key = k }) next v).0
  unfolding key_loop ◌>>=◌ lift pure
  key_loop_wrong w v next n again =
      let left : (verify_signature lib c k).1 ≡ record c { key = k } =
        rw n at (verify_signature_state lib c k) in
      rw (n, again) (ap (λ x. (key_loop lib ui fuel x next v).0) left)

module _ (lib : Libraries) {W : Type 0} (ui : Ui W) (c : FileConfig lib) where
  -- The user enters keys: none, which gives up; one that verifies the signature; or one that does
  -- not, and is asked again, with an error. `r` is the key that was right.
  pub data Dialogue : (entered : Option Bytes) (w : W) (r : Option Bytes) → Type 0 where
    gave_up : {w : W} → Dialogue none w none
    right :
        {k : Bytes} {w : W} → (verify_signature lib c k).0 ≡ ok true → Dialogue (some k) w (some k)
    wrong :
        {k : Bytes} {w v : W} {next r : Option Bytes}
        → (verify_signature lib c k).0 ≡ ok false
        → ui.ask_password key_message key_prompt key_error w ≡ (ok next, v)
        → Dialogue next v r
        → Dialogue (some k) w r

  -- What is left of the configuration under the key that was right.
  abbrev pub signed_by : Option Bytes → Option (FileConfig lib)
  signed_by none = none
  signed_by (some k) = some (record c { key = k; config = [] })

  -- The key that was tried before does not matter.
  verify_signature-tried :
      (tried k : Bytes)
      → (verify_signature lib (record c { key = tried }) k).0 ≡ (verify_signature lib c k).0
  unfolding verify_signature
  verify_signature-tried tried k = refl

  -- With more turns than keys that can still be entered.
  key_loop-Dialogue :
      (fuel : ℕ) (tried : Bytes) (entered : Option Bytes) (w : W) (r : Option Bytes)
      → Dialogue entered w r
      → ((p : Bytes) → entered ≡ some p → ui.left w < fuel)
      → (key_loop lib ui fuel (record c { key = tried }) entered w).0 ≡ ok (some (signed_by r))
  unfolding key_loop pure
  key_loop-Dialogue fuel tried entered w r gave_up h = refl
  key_loop-Dialogue zero tried entered w r (right {k} y) h = absurd (omega (arith, h k refl))
  key_loop-Dialogue zero tried entered w r (wrong {k} n again d) h =
      absurd (omega (arith, h k refl))
  key_loop-Dialogue (suc fuel) tried entered w r (right {k} y) h =
      key_loop_right lib ui fuel (record c { key = tried }) k w (verify_signature-tried tried k ∙ y)
  key_loop-Dialogue (suc fuel) tried entered w r (wrong {k} {v = v} {next = next} n again d) h =
      key_loop_wrong lib ui fuel (record c { key = tried }) k w v next
        (verify_signature-tried tried k ∙ n) again
      ∙ key_loop-Dialogue fuel k next v r d (λ p e. omega (
        arith,
        h k refl,
        ui.ask_password_left key_message key_prompt key_error w p (ap (λ x. x.0) again ∙ ap ok e),
        ap (λ x. ui.left x.1) again,
      ))

settle-some :
    {W A : Type 0} (x : Outcome (Option A) × W) (a : A) → x.0 ≡ ok (some a) → (settle x).0 ≡ ok a
unfolding settle
settle-some x a h = rw (settle, h) refl

module _ (lib : Libraries) {W : Type 0} (owner : UiOwner W) (vm : Options) where
  ask_key-Dialogue :
      (c : FileConfig lib) (w v : W) (entered r : Option Bytes)
      → owner.ui.ask_password key_message key_prompt [] w ≡ (ok entered, v)
      → Dialogue lib owner.ui c entered v r
      → (ask_key lib owner.ui c w).0 ≡ ok (signed_by lib owner.ui c r)
  unfolding ask_key ◌>>=◌
  ask_key-Dialogue c w v entered r asked d =
      let looped =
        key_loop-Dialogue lib owner.ui c (suc (owner.ui.left v)) c.key entered v r d
          (λ p e. omega arith) in
      rw asked (
        settle-some (key_loop lib owner.ui (suc (owner.ui.left v)) c entered v)
          (signed_by lib owner.ui c r) looped)

  -- If the configuration is loaded, its signature is not waived, and the user interface starts: after any
  -- dialogue about the key, however many wrong keys are entered in it, the program goes on with the
  -- configuration under the key that was right, or with none if the user gave up.
  pub prepare-Dialogue :
      (c : FileConfig lib) (w given other asked : W) (entered r : Option Bytes)
      → new_config lib vm.config ≡ ok c
      → vm.no_signature ≡ false
      → make_given lib owner vm w ≡ (ok tt, given)
      → make_other lib owner vm (codes "pinentry") given ≡ (ok tt, other)
      → owner.ui.ask_password key_message key_prompt [] other ≡ (ok entered, asked)
      → Dialogue lib owner.ui c entered asked r
      → (prepare lib owner vm w).0 ≡ ok (signed_by lib owner.ui c r)
  unfolding prepare sign_in ◌>>=◌ lift
  prepare-Dialogue c w given other asked entered r loaded signed started started' answered d =
      rw (loaded, started, signed, started') (ask_key-Dialogue c other asked entered r answered d)
