-- ===== src/Program/Loading.antt =====
-- What src/modules.cpp can meet when it loads its files.
use gravelbox.Base.{ℕ, Bytes}
use gravelbox.Base.Only.{Only, IsConfigException}
use gravelbox.Parser.Json.{JsonThrows}
use gravelbox.Parser.Load.{new_parser}
use gravelbox.Parser.Throws.{new_parser-Only}
use gravelbox.Config.FileConfig.{Libraries, FileConfig, new_config}
use gravelbox.Config.Throws.{IsRegexError, LoadError, new_config-Only}

-- If JsonCpp throws only `Json::Exception` and `std::regex` only `std::regex_error`: loading a
-- configuration, or the definitions that a configuration names, returns or throws a `ConfigException`,
-- whatever is in the files; and where the file of the configuration can be opened but not be read to its
-- end, loading it may throw `std::ios_base::failure`. Nothing else is thrown, and the process goes on.
pub load-Only :
    (lib : Libraries)
    → JsonThrows lib.json
    → ((p : Bytes) → Only IsRegexError (lib.compile p))
    → (path : Bytes) (target : ℕ) (c : FileConfig lib)
    → Only (LoadError lib path) (new_config lib path)
      × Only IsConfigException (new_parser lib.json lib.read_file target c.syscalldef)
load-Only lib json regex path target c = (
  new_config-Only lib json regex path,
  new_parser-Only lib.json json lib.read_file target c.syscalldef,
)
