-- ===== src/Tests/Programs.antt =====
-- Sample runs of the programs of src/modules.cpp, src/main.cpp and src/sign.cpp.
use gravelbox.Base.{
  List, ℕ, ◌≡◌, refl, Bytes, [], ◌∷◌, codes, str_eq, true, false, if◌then◌else◌, none, some, ok,
}
use gravelbox.Base.Only.{Only, IsConfigException, returned}
use gravelbox.Parser.Json.{Json, JsonThrows}
use gravelbox.Parser.Load.{new_parser}
use gravelbox.Config.Hex.{hex2bytes}
use gravelbox.Config.FileConfig.{
  ask, Libraries, FileConfig, new_config, verify_signature, read_config, string_at, password_bytes,
  to_action, read_groups, verify_hmac,
}
use gravelbox.Program.Options.{Options, UiOwner}
use gravelbox.Program.Key.{key_loop}
use gravelbox.Program.Run.{prepare, make_given, make_other}
use gravelbox.Program.Accepting.{Dialogue, wrong, right, prepare-Dialogue}
use gravelbox.Program.Sign
use gravelbox.Program.Sign.{Desk, SignReplies}
use gravelbox.Program.SignVerify.{later}
use gravelbox.Program.Trust.{Trusted, prepare-Trusted}
use gravelbox.Program.Loading.{load-Only}
use gravelbox.Config.Throws.{LoadError}
use gravelbox.Tests.Sample.{mac, user}

-- A JSON object whose members are their own names, but for the default action and the password; a list
-- in it is empty.
abbrev object : Json
object = record {
  Value = Bytes;
  parse = λ s. ok s;
  is_array = λ v. true;
  is_object = λ v. true;
  member = λ v key. ok key;
  elements = λ v. [];
  as_string = λ v. ok (
      if str_eq v (codes "default-action")
      then codes "ask"
      else if str_eq v (codes "password")
      then []
      else v);
  as_uint64 = λ v. ok 32;
}

-- The file "signature" holds the signature of "rules" under the key "pw"; any other holds "rules".
abbrev pub lib : Libraries
lib = record {
  json = object;
  Regex = Bytes;
  compile = λ p. ok p;
  regex_match = str_eq;
  hmac = λ key text. some (mac key text);
  read_error = λ path. none;
  read_file = λ path.
      some (
        if str_eq path (codes "signature")
        then mac (codes "pw") (codes "rules")
        else codes "rules");
}

abbrev pub owner : UiOwner ℕ
owner = record { make = λ path n. (ok tt, n); ui = user; leave = λ n. (ok tt, n) }

abbrev pub options : Options
options = record {
  help = false;
  args = some (codes "ls" ∷ []);
  std_in = none;
  std_out = none;
  std_err = none;
  append_stdout = false;
  append_stderr = false;
  no_signature = false;
  config = codes "rules.json";
  pinentry = none;
}

abbrev loaded : Bytes → Bytes → FileConfig lib
loaded key text = record {
  config = text;
  signature = codes "signature";
  key = key;
  password_hash = [];
  syscalldef = codes "syscall-definition";
  pinentry = codes "pinentry";
  max_str_len = 32;
  action_default = ask;
  action_groups = [];
}

prepare-Trusted_example :
    (c : FileConfig lib) × (new_config lib (codes "rules.json") ≡ ok c)
    × Trusted lib owner options c (loaded (codes "pw") [])
unfolding prepare new_config read_config string_at password_bytes hex2bytes str_eq to_action
    read_groups key_loop verify_signature verify_hmac
prepare-Trusted_example = prepare-Trusted lib owner options 2 (loaded (codes "pw") []) refl

-- The user enters "no", is asked again, and enters "pw".
two_keys : Dialogue lib user (loaded [] (codes "rules")) (some (codes "no")) 1 (some (codes "pw"))
unfolding verify_signature verify_hmac str_eq
two_keys = wrong refl refl (right refl)

prepare-Dialogue_example : (prepare lib owner options 2).0 ≡ ok (some (loaded (codes "pw") []))
unfolding new_config read_config string_at password_bytes hex2bytes str_eq to_action read_groups
    make_given make_other
prepare-Dialogue_example =
    prepare-Dialogue lib owner options (loaded [] (codes "rules")) 2 2 2 1 (some (codes "no"))
      (some (codes "pw")) refl refl refl refl refl two_keys

object-JsonThrows : JsonThrows object
object-JsonThrows = record {
  parse = λ s. returned s;
  member = λ v key. returned key;
  as_string = λ v. returned _;
  as_uint64 = λ v. returned 32;
}

load-Only_example :
    Only (LoadError lib (codes "rules.json")) (new_config lib (codes "rules.json"))
    × Only IsConfigException (new_parser object lib.read_file 0 (codes "syscall-definition"))
load-Only_example =
    load-Only lib object-JsonThrows (λ p. returned p) (codes "rules.json") 0
      (loaded [] (codes "rules"))

abbrev desk : Desk ℕ
desk = record { written = []; err = []; world = 1 }

abbrev good : SignReplies
good = record { opens = true; writes = true; flushes = true }

-- What is written last stands first.
abbrev signed_files : List (Bytes × Bytes)
signed_files = (codes "rules.sig", mac (codes "pw") (codes "rules")) ∷ (codes "rules.sig", []) ∷ []

abbrev signed : FileConfig (later lib signed_files)
signed = record {
  config = codes "rules";
  signature = codes "rules.sig";
  key = [];
  password_hash = [];
  syscalldef = [];
  pinentry = [];
  max_str_len = 32;
  action_default = ask;
  action_groups = [];
}
