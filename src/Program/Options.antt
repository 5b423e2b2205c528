-- ===== src/Program/Options.antt =====
-- The options of src/main.cpp, as boost's `variables_map` gives them, and the user interface that
-- src/modules.cpp makes.
use gravelbox.Base.{Bytes, List, codes, Bool, Option, none, some, ok, throw, terminate}
use gravelbox.Exec.{Exec}
use gravelbox.Ui.Interface.{Ui}
use gravelbox.Tracer.Child.{Target}

-- `none` is an option that was not given and has no default.
pub record Options : Type 0 where
  pub help : Bool
  pub args : Option (List Bytes)
  pub std_in : Option Bytes
  pub std_out : Option Bytes
  pub std_err : Option Bytes
  pub append_stdout : Bool
  pub append_stderr : Bool
  pub no_signature : Bool
  pub config : Bytes
  pub pinentry : Option Bytes

abbrev pub or_dash : Option Bytes → Bytes
or_dash none = codes "-"
or_dash (some path) = path

-- The arguments of `tracer.run`.
unfoldable pub target_of : List Bytes → Options → Target
target_of args vm = record {
  args = args;
  std_in = or_dash vm.std_in;
  std_out = or_dash vm.std_out;
  append_stdout = vm.append_stdout;
  std_err = or_dash vm.std_err;
  append_stderr = vm.append_stderr;
}

-- `std::unique_ptr<PinentryUI>`: `make` is `ui = std::make_unique<PinentryUI>(path)`, which starts the
-- new one and then destroys the old one, if any; `leave` destroys what is there, if anything.
pub record UiOwner (W : Type 0) : Type 0 where
  pub make : Bytes → Exec W (Unit {0})
  pub ui : Ui W
  pub leave : Exec W (Unit {0})

-- A scope that the interface does not outlive. Its destructor does not throw.
unfoldable pub owning : {W A : Type 0} → UiOwner W → Exec W A → Exec W A
owning owner m w =
    let (r, w') = m w in
    let (left, w'') = owner.leave w' in
    (elim left [ ok _ ↦ r | throw _ ↦ terminate | terminate ↦ terminate ], w'')
