-- ===== src/Config/Interface.antt =====
-- What the tracer asks of a configuration (`IsConfig` of src/type_traits.h), with `FileConfig` of
-- src/config/file_config.h and `DebugConfig` of src/config/debug_config.h as two.
use gravelbox.Base.{ℕ, Bytes, codes, Bool, true, false}
use gravelbox.Config.FileConfig.{
  Verdict, ask, Libraries, FileConfig, get_action, has_password, verify_password,
}

pub record Config (C : Type 0) : Type 0 where
  pub syscalldef : C → Bytes
  pub pinentry : C → Bytes
  pub max_str_len : C → ℕ
  pub get_action : C → Bytes → Verdict
  pub has_password : C → Bool
  pub verify_password : C → Bytes → Bool

abbrev pub file_config : (lib : Libraries) → Config (FileConfig lib)
file_config lib = record {
  syscalldef = λ c. c.syscalldef;
  pinentry = λ c. c.pinentry;
  max_str_len = λ c. c.max_str_len;
  get_action = get_action lib;
  has_password = has_password lib;
  verify_password = verify_password lib;
}

-- It has no members.
abbrev pub debug_config : Config (Unit {0})
debug_config = record {
  syscalldef = λ c. codes "syscalldef.json";
  pinentry = λ c. codes "pinentry";
  max_str_len = λ c. 64;
  get_action = λ c syscall. ask;
  has_password = λ c. false;
  verify_password = λ c password. true;
}
