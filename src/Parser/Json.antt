-- ===== src/Parser/Json.antt =====
-- What src/parser/parser.cpp and src/config/file_config.cpp use of JsonCpp, which is not part of the
-- repository: a parameter.
use gravelbox.Base.{ℕ, Bytes, Bool, List, Outcome}
use gravelbox.Base.Only.{Only, IsJsonException}

-- A call of JsonCpp gives a value or throws a `Json::Exception`.
pub record Json : Type 1 where
  pub Value : Type 0
  -- stream >> value
  pub parse : Bytes → Outcome Value
  pub is_array : Value → Bool
  pub is_object : Value → Bool
  -- value[key]
  pub member : Value → Bytes → Outcome Value
  -- the values of a range-for loop
  pub elements : Value → List Value
  pub as_string : Value → Outcome Bytes
  pub as_uint64 : Value → Outcome ℕ

-- JsonCpp throws a `Json::Exception` and nothing else.
pub record JsonThrows (json : Json) : Type 0 where
  pub parse : (s : Bytes) → Only IsJsonException (json.parse s)
  pub member : (v : json.Value) (key : Bytes) → Only IsJsonException (json.member v key)
  pub as_string : (v : json.Value) → Only IsJsonException (json.as_string v)
  pub as_uint64 : (v : json.Value) → Only IsJsonException (json.as_uint64 v)
