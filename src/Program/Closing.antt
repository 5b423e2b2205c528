-- ===== src/Program/Closing.antt =====
-- Which descriptors a whole run of src/modules.cpp leaves open, with the pinentry of
-- src/ui/pinentry_ui.cpp.
use gravelbox.Base.{
  ℕ, ◌+◌, ◌≡◌, ◌≢◌, ap, Bytes, List, [], ◌∷◌, ◌++◌, length, true, Option, none, some, Option-cases,
  Outcome, ok, throw, terminate, ◌⊎◌, inl, inr, arith,
}
use gravelbox.Utils.{Reply, done}
use gravelbox.Utils.Fd.{CloseReply}
use gravelbox.Exec.{Exec}
use gravelbox.Exec.Keeps.{Ends, ended, kept, Keeps}
use gravelbox.Config.FileConfig.{Libraries}
use gravelbox.Ui.Pinentry.{Conn}
use gravelbox.Ui.Launch.{Startup, Pinentry, on_conn, drop_devices, new_pinentry, quit}
use gravelbox.Ui.Descriptors.{count, count-append, made, HoldsEnds, new_pinentry-devices}
use gravelbox.Program.Options.{Options, owning}
use gravelbox.Program.Run.{Machine, run}
use gravelbox.Program.Keeping.{OwnerKeeps, body-Keeps}
use gravelbox.Program.PinentryOwner.{Host, replace, make, on_current, pinentry_owner}

-- The descriptors that the object of the pointer has.
abbrev pub held : Option Pinentry → List ℕ
held none = []
held (some p) = p.devices

-- How often the system gave a descriptor to the objects that were started.
abbrev pub made_by : ℕ → List Startup → ℕ
made_by n [] = 0
made_by n (l ∷ ls) = count n (made l) + made_by n ls

-- What was given is closed, or held by the object, but for what was closed before.
abbrev Accounts : ℕ → ℕ → Host → Type 0
Accounts n before w =
    count n w.files.closed + count n (held w.current) ≡ made_by n w.started + before

module _ (close_reply : CloseReply) (closes : (n : ℕ) → close_reply n ≡ done tt) (unset : ℕ) where
  quit-closed :
      (waited : Reply ℕ) (p : Pinentry)
      → ((quit close_reply unset true waited p).0 ≡ terminate)
        ⊎ ((quit close_reply unset true waited p).1.files.closed ≡ p.devices ++ p.files.closed)
  unfolding quit drop_devices on_conn
  quit-closed waited p = ground arith

  -- The object that the pointer had is closed.
  replace-closed :
      (next : Option Pinentry) (w : Host)
      → let (r, w') = replace close_reply unset next w in
        (r ≡ terminate)
        ⊎ ((w'.files.closed ≡ held w.current ++ w.files.closed)
            × (w'.current ≡ next)
            × (w'.started ≡ w.started))
  unfolding replace
  replace-closed next w = elim (Option-cases w.current) [
    | inl e ↦ ground arith
    | inr (p, e) ↦ ground (arith, quit-closed (w.waited w.ends) (record p { files = w.files }))
  ]

  module _ (n before : ℕ) where
    after_start :
        (l : Startup) (r : Outcome (Unit {0})) (p : Pinentry) (w : Host)
        → HoldsEnds l r p.devices
        → count n p.files.closed + count n p.devices ≡ count n (made l) + count n w.files.closed
        → Accounts n before w
        → let w' = record w { started = l ∷ w.started; files = p.files } in
          let (o, u) : Outcome (Unit {0}) × Host = elim r [
            | ok _ ↦ replace close_reply unset (some p) w'
            | throw e ↦ (throw e, w')
            | terminate ↦ (terminate, w')
          ] in
          Ends (Unit {0}) (Accounts n before) o u
    after_start l (ok _) p w hold made_ h =
        let w' = record w { started = l ∷ w.started; files = p.files } in
        elim (replace-closed (some p) w') [
          | inl e ↦ ended e tt
          | inr (closed, current, started) ↦ kept (
              rw (closed, current, started)
                (omega (arith, h, made_, count-append n (held w.current) p.files.closed)))
        ]
    after_start l (throw e) p w hold made_ h = kept (omega (arith, h, made_, ap (count n) hold))
    after_start l terminate p w hold made_ h = absurd hold

    make-Accounts :
        (path : Bytes) → Keeps (Unit {0}) (Accounts n before) (make close_reply unset path)
    unfolding make
    make-Accounts path = record {
      at = λ w h.
          let l = w.startup (length w.started) path in
          let (hold, made_) = new_pinentry-devices close_reply closes unset l w.files n in
          after_start l _ (new_pinentry close_reply unset l w.files).1 w hold made_ h;
    }

    -- A dialogue changes neither what is held nor what is closed.
    on_current-Accounts :
        {A : Type 0} (m : Exec Conn A)
        → Keeps (Unit {0}) (Accounts n before) (on_current close_reply unset m)
    unfolding on_current on_conn
    on_current-Accounts m = record {
      at = λ w h. elim (Option-cases w.current) [
        | inl e ↦ kept (rw e (rw e at h))
        | inr (p, e) ↦ kept (rw (e) (rw e at h))
      ];
    }

    pinentry_owner-Accounts :
        OwnerKeeps (Unit {0}) (Accounts n before) (pinentry_owner close_reply unset)
    unfolding pinentry_owner
    pinentry_owner-Accounts = record {
      make = make-Accounts;
      ui = record {
        ask = λ syscall. on_current-Accounts _;
        ask_password = λ message prompt error. on_current-Accounts _;
      };
    }

  -- A scope that keeps the account, and is left with its pointer.
  owning-closes :
      (n before : ℕ) {A : Type 0} (body : Exec Host A) (w : Host)
      → Keeps (Unit {0}) (Accounts n before) body
      → Accounts n before w
      → let (r, u) = owning (pinentry_owner close_reply unset) body w in
        r ≢ terminate → (u.current ≡ none) × (count n u.files.closed ≡ made_by n u.started + before)
  unfolding owning pinentry_owner
  owning-closes n before body w keeps h ends =
      let w1 = (body w).1 in
      elim (keeps.at w h) [
        | ended e q ↦ absurd (ends (ground arith))
        | kept k ↦ elim (replace-closed none w1) [
          | inl e ↦ absurd (ends (ground arith))
          | inr (closed, current, started) ↦ (
            current,
            rw (closed, started)
                (omega (arith, k, count-append n (held w1.current) w1.files.closed)),
          )
        ]
      ]

  -- Where `close` succeeds, of a run of the program that starts with no pinentry and is not
  -- terminated in the middle, whatever the user, pinentry and the target do, and whether it returns
  -- or throws: at its end no pinentry is connected, and each descriptor of the pipes that it made
  -- was closed as often as the system gave it.
  pub run-closes :
      (lib : Libraries) (vm : Options) (m : Machine) (w : Host) (n : ℕ)
      → w.current ≡ none
      → w.started ≡ []
      → (run lib (pinentry_owner close_reply unset) vm m w).0 ≢ terminate
      → let u = (run lib (pinentry_owner close_reply unset) vm m w).1 in
        (u.current ≡ none) × (count n u.files.closed ≡ made_by n u.started + count n w.files.closed)
  unfolding run
  run-closes lib vm m w n unconnected unstarted ends =
      owning-closes n (count n w.files.closed) _ w
        (body-Keeps lib (pinentry_owner close_reply unset) vm
          (pinentry_owner-Accounts n (count n w.files.closed)) m)
        (rw (unconnected, unstarted) (omega arith)) ends
