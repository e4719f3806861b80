-- ===== src/Importer/Values.antt =====
-- The JSON and YAML values that src/bbagent/importer/core.py walks, and what it takes from outside
-- the repository. A number is known by whether it is zero and by its text; a key stands once.
use bugbounty_agent.Base.{
  ℕ, Char, String, Bool, true, false, not, Option, List, ◌==◌, if◌then◌else◌,
}
use bugbounty_agent.Scope.Libs.{Libs}

mutual
  pub data Value : Type 0 where
    null : Value
    bool : Bool → Value
    number : Bool → String → Value
    date : ℕ → Value
    text : String → Value
    array : Items → Value
    object : Fields → Value

  pub data Items : Type 0 where
    nil : Items
    item : Value → Items → Items

  pub data Fields : Type 0 where
    end : Fields
    field : String → Value → Fields → Fields

-- bool(v)
unfoldable pub truthy : Value → Bool
truthy null = false
truthy (bool b) = b
truthy (number is_zero t) = not is_zero
truthy (date d) = true
truthy (text s) = not (s == "")
truthy (array nil) = false
truthy (array (item v vs)) = true
truthy (object end) = false
truthy (object (field k v fs)) = true

-- d.get(key, default), for a dict
unfoldable pub get : String → Value → Fields → Value
get key default end = default
get key default (field k v fs) = if k == key then v else get key default fs

-- key in d
unfoldable pub has_key : String → Fields → Bool
has_key key end = false
has_key key (field k v fs) = if k == key then true else has_key key fs

-- v or w
unfoldable pub or_else : Value → Value → Value
unfolding truthy
or_else v w = if truthy v then v else w

-- The exceptions of the importer. An ImportError_ is told from the others, since the sniffer catches
-- it alone.
pub data Error : Type 0 where
  unrecognized_hackerone unrecognized_bugcrowd unknown_shape : Error
  empty_scope no_targets no_page_scope : Error
  no_llm not_a_brief : Error
  fetch_failed : Error
  value_error attribute_error type_error validation_error json_error : Error

unfoldable pub is_import_error : Error → Bool
is_import_error unrecognized_hackerone = true
is_import_error unrecognized_bugcrowd = true
is_import_error unknown_shape = true
is_import_error empty_scope = true
is_import_error no_targets = true
is_import_error no_page_scope = true
is_import_error no_llm = true
is_import_error not_a_brief = true
is_import_error _ = false

-- What the importer calls: repr of a text, str of a value, isdecimal of a character that is not ASCII,
-- json.loads and yaml.safe_load (none is their error), the validation of a date, float and int of a
-- value (none is a ValueError or a TypeError; rates are in thousandths), and the scans of a page for
-- embedded JSON and for host names.
pub record Importing : Type 0 where
  pub libs : Libs
  pub repr : String → String
  pub str : Value → String
  pub is_decimal : Char → Bool
  pub json_loads : String → Option Value
  pub yaml_load : String → Option Value
  pub date_of : Value → Option ℕ
  pub float_of : Value → Option ℕ
  pub int_of : Value → Option ℕ
  pub embedded_json : String → List Value
  pub page_hosts : String → List String

-- str(v)
abbrev pub str_of : Importing → Value → String
str_of I (text s) = s
str_of I v = I.str v
