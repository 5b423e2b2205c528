-- ===== src/Program/Exit.antt =====
-- With which codes `main` of src/main.cpp exits.
use gravelbox.Base.{
  ℕ, ◌≡◌, refl, Bytes, codes, List, true, false, ◌⊎◌, inl, inr, Option, some, Option-cases,
  Bool-cases, Outcome, ok, throw, terminate, Exception, child_exit_exception, system_error,
  ios_failure, config_exception, pinentry_exception, none, false, ap, arith,
}
use gravelbox.Exec.{try_catch, handle}
use gravelbox.Config.FileConfig.{Libraries}
use gravelbox.Program.Options.{Options, UiOwner}
use gravelbox.Program.Run.{Machine, run}
use gravelbox.Program.Main.{
  CommandLine, Stored, store_error, stored, Texts, Console, read_options, print, on_world, exit,
  report, refuse, show_help, run_guarded, run_options, main,
}

-- An error that `main` reports and exits with 1 for. A child that ended is none.
abbrev pub IsReported : Exception → Type 0
IsReported (system_error _) = Unit
IsReported ios_failure = Unit
IsReported (config_exception _ _ _) = Unit
IsReported (pinentry_exception _) = Unit
IsReported _ = ⊥

report_code :
    {W : Type 0} (texts : Texts) (e : Exception) (s : Console W) (code : ℕ)
    → (report texts e s).0 ≡ ok (some code)
    → ((code ≡ 1) × IsReported e) ⊎ (e ≡ child_exit_exception code)
unfolding report print exit
report_code texts e s code h = ground arith

module _ (lib : Libraries) {W : Type 0} (owner : UiOwner W) (m : Machine) (texts : Texts) where
  -- The target was run, and `code` is its exit code or, where it ended before it was traced, the one of
  -- its child; or the run failed with an error that is reported.
  abbrev pub RunGave : Options → W → ℕ → Type 0
  RunGave vm w code =
      ((run lib owner vm m w).0 ≡ ok (some code))
      ⊎ ((run lib owner vm m w).0 ≡ throw (child_exit_exception code))
      ⊎ ((code ≡ 1) × (e : Exception) × ((run lib owner vm m w).0 ≡ throw e) × IsReported e)

  handle_code :
      (r : Outcome (Option ℕ)) (s : Console W) (code : ℕ)
      → (handle (report texts) r s).0 ≡ ok (some code)
      → (r ≡ ok (some code))
        ⊎ (r ≡ throw (child_exit_exception code))
        ⊎ ((code ≡ 1) × (e : Exception) × (r ≡ throw e) × IsReported e)
  unfolding handle
  handle_code (ok a) s code h = inl h
  handle_code (throw e) s code h = elim (report_code texts e s code h) [
    | inl (one, reported) ↦ inr (inr (one, e, refl, reported))
    | inr child ↦ inr (inl (ap throw child))
  ]
  handle_code terminate s code h = absurd (cc)

  run_guarded_code :
      (vm : Options) (s : Console W) (code : ℕ)
      → (run_guarded lib owner m texts vm s).0 ≡ ok (some code)
      → RunGave vm s.world code
  unfolding run_guarded try_catch on_world
  run_guarded_code vm s code h =
      handle_code (run lib owner vm m s.world).0
        (record s { world = (run lib owner vm m s.world).1 }) code h

  -- What good options come to: help, which gives 0; no target, which gives 1; or a run.
  abbrev pub Serves : Options → W → ℕ → Type 0
  Serves vm w code =
      ((vm.help ≡ true) × (code ≡ 0))
      ⊎ ((vm.help ≡ false) × (vm.args ≡ none) × (code ≡ 1))
      ⊎ ((vm.help ≡ false) × (args : List Bytes) × (vm.args ≡ some args) × RunGave vm w code)

  refuse_code :
      (what : Bytes) (s : Console W) (code : ℕ)
      → (refuse texts what s).0 ≡ ok (some code)
      → code ≡ 1
  unfolding refuse print exit
  refuse_code what s code h = ground arith

  run_options_code :
      (vm : Options) (s : Console W) (code : ℕ)
      → (run_options lib owner m texts vm s).0 ≡ ok (some code)
      → Serves vm s.world code
  unfolding run_options show_help print exit
  run_options_code vm s code h = elim (Bool-cases vm.help) [
    | inl y ↦ inl (y, ground arith)
    | inr n ↦ elim (Option-cases vm.args) [
      | inl e ↦ inr (inl (n, e, refuse_code (codes "no target provided") s code (ground arith)))
      | inr (args, e) ↦ inr (inr (n, args, e, run_guarded_code vm s code (ground arith)))
    ]
  ]

  Stored-cases :
      (r : Stored) → ((what : Bytes) × (r ≡ store_error what)) ⊎ ((vm : Options) × (r ≡ stored vm))
  Stored-cases (store_error what) = inl (what, refl)
  Stored-cases (stored vm) = inr (vm, refl)

  -- If the program exits with a code: the command line is bad and the code is 1; or the options are good,
  -- and the code is 0 for help, 1 for no target, what the run of the target returned, the code of a child
  -- that ended before it was traced, or 1 for a run that threw an error that is reported, which such a
  -- child is not.
  pub main_exit :
      (line : CommandLine) (s : Console W) (code : ℕ)
      → (main lib owner m texts line s).0 ≡ ok (some code)
      → ((what : Bytes) × (read_options texts line ≡ store_error what) × (code ≡ 1))
        ⊎ ((vm : Options) × (read_options texts line ≡ stored vm) × Serves vm s.world code)
  unfolding main
  main_exit line s code h = elim (Stored-cases (read_options texts line)) [
    | inl (what, e) ↦ inl (what, e, refuse_code what s code (ground arith))
    | inr (vm, e) ↦ inr (vm, e, run_options_code vm s code (ground arith))
  ]
