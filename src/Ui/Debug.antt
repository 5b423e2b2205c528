-- ===== src/Ui/Debug.antt =====
-- `DebugUI` of src/ui/debug_ui.h, as an interface of src/type_traits.h. Its state is `std::cerr`.
use gravelbox.Base.{Bytes, ◌++◌, codes, true, none, ok}
use gravelbox.Ui.Interface.{Ui}

-- An empty password that is false.
unfoldable pub debug_ui : Ui Bytes
debug_ui = record {
  ask = λ syscall err. (ok true, err ++ (syscall ++ codes "\n"));
  ask_password = λ message prompt error err. (ok none, err);
  left = λ err. 0;
  ask_password_left = λ message prompt error err p h. absurd (cc);
}
