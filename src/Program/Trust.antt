-- ===== src/Program/Trust.antt =====
-- Which configurations get as far as the tracer, in src/modules.cpp.
use gravelbox.Base.{
  ℕ, zero, suc, ◌≡◌, ◌≢◌, ◌<◌, refl, ap, ◌∙◌, Bytes, [], codes, Bool, true, false, if◌then◌else◌,
  ◌⊎◌, inl, inr, Option, none, some, Outcome, ok, throw, terminate, Bool-cases, arith,
}
use gravelbox.Exec.{Exec, pure, lift, bind-ok, ◌>>=◌, ◌>>◌}
use gravelbox.Config.FileConfig.{
  Libraries, FileConfig, new_config, verify_signature, dismiss_signature, remove_password,
}
use gravelbox.Config.Password.{verify_signature_state}
use gravelbox.Ui.Interface.{Ui, Entered}
use gravelbox.Tracer.Decide.{settle}
use gravelbox.Program.Options.{Options, UiOwner}
use gravelbox.Program.Key.{key_message, key_prompt, key_error, key_loop, ask_key}
use gravelbox.Program.Run.{make_given, make_other, sign_in, prepare}

module _ (lib : Libraries) {W : Type 0} (ui : Ui W) where
  -- A key that the user entered was accepted for `c`, and `c'` is what is left of `c`.
  abbrev pub Accepted : FileConfig lib → FileConfig lib → Type 0
  Accepted c c' =
      (key : Bytes) × Entered ui key
      × ((verify_signature lib c key).0 ≡ ok true)
      × (c' ≡ record c { key = key; config = [] })

  abbrev retry : Exec W (Option Bytes)
  retry = ui.ask_password key_message key_prompt key_error

  -- The key that was remembered before does not matter.
  Accepted-key :
      (c c' : FileConfig lib) (k : Bytes) → Accepted (record c { key = k }) c' → Accepted c c'
  unfolding verify_signature
  Accepted-key c c' k a = a

  key_turn :
      (fuel : ℕ) (r : Outcome Bool) (c : FileConfig lib) (w : W)
      (b : Option (Option (FileConfig lib)))
      → ((lift r >>= λ accepted.
            if accepted then pure (some (some c)) else (retry >>= key_loop lib ui fuel c))
          w).0
        ≡ ok b
      → ((r ≡ ok true) × (b ≡ some (some c)))
        ⊎ ((r ≡ ok false)
            × (next : Option Bytes) × ((retry w).0 ≡ ok next)
            × ((key_loop lib ui fuel c next (retry w).1).0 ≡ ok b))
  unfolding ◌>>=◌ lift pure
  key_turn fuel (ok true) c w b h = inl (refl, ground arith)
  key_turn fuel (ok false) c w b h =
      let (next, a, again) = bind-ok retry (key_loop lib ui fuel c) w b h in
      inr (refl, next, a, again)
  key_turn fuel (throw e) c w b h = absurd (cc)
  key_turn fuel terminate c w b h = absurd (cc)

  key_loop_next :
      (fuel : ℕ) (c : FileConfig lib) (k : Bytes) (w : W) (b : Option (Option (FileConfig lib)))
      → (key_loop lib ui (suc fuel) c (some k) w).0 ≡ ok b
      → (((verify_signature lib c k).0 ≡ ok true)
          × (b ≡ some (some (record c { key = k; config = [] }))))
        ⊎ ((next : Option Bytes) × ((retry w).0 ≡ ok next)
            × ((key_loop lib ui fuel (record c { key = k }) next (retry w).1).0 ≡ ok b))
  unfolding key_loop
  key_loop_next fuel c k w b h =
      let left = verify_signature_state lib c k in
      elim (key_turn fuel (verify_signature lib c k).0 (verify_signature lib c k).1 w b h) [
        | inl (y, e) ↦ inl (y, e ∙ ap (λ x. some (some x)) (rw y at left))
        | inr (n, next, a, again) ↦ inr (next, a, rw (← (rw n at left)) again)
      ]

  -- With more turns than keys that can still be entered, the loop comes to its end.
  key_loop_total :
      (fuel : ℕ) (c : FileConfig lib) (entered : Option Bytes) (w : W)
      → ((p : Bytes) → entered ≡ some p → ui.left w < fuel)
      → (key_loop lib ui fuel c entered w).0 ≢ ok none
  unfolding key_loop pure
  key_loop_total fuel c none w h = λ e. cc
  key_loop_total zero c (some k) w h = absurd (omega (arith, h k refl))
  key_loop_total (suc fuel) c (some k) w h = λ e. elim (key_loop_next fuel c k w none e) [
    | inl (y, b) ↦ cc
    | inr (next, a, again) ↦
        key_loop_total fuel (record c { key = k }) next (retry w).1
          (λ p q. omega (
            arith,
            h k refl,
            ui.ask_password_left key_message key_prompt key_error w p (a ∙ ap ok q),
          ))
          again
  ]

  key_loop-Accepted :
      (fuel : ℕ) (c c' : FileConfig lib) (entered : Option Bytes) (w : W)
      → ((p : Bytes) → entered ≡ some p → Entered ui p)
      → (key_loop lib ui fuel c entered w).0 ≡ ok (some (some c'))
      → Accepted c c'
  unfolding key_loop pure
  key_loop-Accepted fuel c c' none w h e = absurd (cc)
  key_loop-Accepted zero c c' (some k) w h e = absurd (cc)
  key_loop-Accepted (suc fuel) c c' (some k) w h e =
      elim (key_loop_next fuel c k w (some (some c')) e) [
        | inl (y, b) ↦ (k, h k refl, y, ground arith)
        | inr (next, a, again) ↦ Accepted-key c c' k (
            key_loop-Accepted fuel (record c { key = k }) c' next (retry w).1
              (λ p q. (key_message, key_prompt, key_error, w, a ∙ ap ok q)) again)
      ]

  pub ask_key-Accepted :
      (c c' : FileConfig lib) (w : W) → (ask_key lib ui c w).0 ≡ ok (some c') → Accepted c c'
  unfolding ask_key settle
  ask_key-Accepted c c' w h =
      let dialog = ui.ask_password key_message key_prompt [] in
      let (entered, a, b) =
        bind-ok dialog (λ k v. settle (key_loop lib ui (suc (ui.left v)) c k v)) w (some c') h in
      let v = (dialog w).1 in
      key_loop-Accepted (suc (ui.left v)) c c' entered v
        (λ p q. (key_message, key_prompt, [], w, a ∙ ap ok q)) (ground arith)

module _ (lib : Libraries) {W : Type 0} (owner : UiOwner W) (vm : Options) where
  -- How the loaded configuration `c` became the one that is used, `c'`.
  abbrev pub Trusted : FileConfig lib → FileConfig lib → Type 0
  Trusted c c' =
      ((vm.no_signature ≡ true) × (c' ≡ record c { config = []; password_hash = [] }))
      ⊎ ((vm.no_signature ≡ false) × Accepted lib owner.ui c c')

  sign_in-Trusted :
      (c c' : FileConfig lib) (w : W) → (sign_in lib owner vm c w).0 ≡ ok (some c') → Trusted c c'
  unfolding sign_in pure dismiss_signature remove_password
  sign_in-Trusted c c' w h = elim (Bool-cases vm.no_signature) [
    | inl y ↦ inl (y, ground arith)
    | inr n ↦
        let (_, made_, asked) =
          bind-ok (make_other lib owner vm (codes "pinentry")) (λ _. ask_key lib owner.ui c) w
            (some c') (ground arith) in
        inr (n, ask_key-Accepted lib owner.ui c c' _ asked)
  ]

  -- The configuration that the program goes on with was loaded from the file that was asked for, and
  -- either the signature was waived, and then no password is left in it; or the user entered a key that
  -- verifies the signature, and then nothing else in it was changed.
  pub prepare-Trusted :
      (w : W) (c' : FileConfig lib)
      → (prepare lib owner vm w).0 ≡ ok (some c')
      → (c : FileConfig lib) × (new_config lib vm.config ≡ ok c) × Trusted c c'
  unfolding prepare lift
  prepare-Trusted w c' h =
      let (c, loaded, rest) =
        bind-ok (lift (new_config lib vm.config))
          (λ c. make_given lib owner vm >> sign_in lib owner vm c) w (some c') h in
      let (_, given, signed) =
        bind-ok (make_given lib owner vm) (λ _. sign_in lib owner vm c) w (some c') rest in
      (c, loaded, sign_in-Trusted c c' _ signed)
