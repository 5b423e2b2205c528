-- ===== src/Exceptions.antt =====
-- The texts of the exceptions of src/exceptions.h, and where a handler for `std::exception` catches.
use gravelbox.Base.{
  Bytes, ◌++◌, codes, Bool, true, false, if◌then◌else◌, Exception, system_error, ios_failure,
  config_exception, pinentry_exception, child_exit_exception, out_of_range, json_exception,
  regex_error,
}
use gravelbox.Config.FileConfig.{is_empty}

-- ConfigException(path, type, details).what()
unfoldable pub config_what : Bytes → Bytes → Bytes → Bytes
config_what path type details =
    let head =
      codes "Config file \"" ++ (path ++ (codes "\" is not a valid " ++ (type ++ codes " file"))) in
    if is_empty details then head else head ++ (codes "\n" ++ details)

-- The exceptions of the program derive from `std::exception` privately, so `catch (const
-- std::exception &)` lets them pass.
unfoldable pub is_std_exception : Exception → Bool
is_std_exception (system_error _) = true
is_std_exception ios_failure = true
is_std_exception (config_exception _ _ _) = false
is_std_exception (pinentry_exception _) = false
is_std_exception (child_exit_exception _) = false
is_std_exception out_of_range = true
is_std_exception (json_exception _) = true
is_std_exception (regex_error _) = true
