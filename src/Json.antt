-- ===== src/Json.antt =====
-- include/json_obj.h: the class `json` over a RapidJSON document, and its `error_code`.
pub mod Reading
use pocker_backend.Base.{
  ℕ, ◌≡◌, [], ◌∷◌, ◌++◌, Bool, true, false, Option, none, some, if◌then◌else◌,
}
use pocker_backend.Base.Bytes.{Bytes, codes, c_str}
use pocker_backend.Base.Results.{Result, ok, err, ◌>>=◌, runtime_error, assertion, undefined}
use pocker_backend.Rapidjson.{Rapidjson, ParseErrorCode}

-- `json::error_code::code_t`
pub data Code : Type 0 where
  error_none document_empty document_root_not_singular value_invalid : Code
  object_miss_name object_miss_colon object_miss_comma_or_bracket : Code
  array_miss_comma_or_bracket string_unicode_escape_invalid_hex : Code
  string_unicode_surrogate_invalid string_escape_invalid : Code
  string_miss_quotation_mark string_invalid_encoding number_too_big : Code
  number_miss_fraction number_miss_exponent error_termination : Code
  unspecific_syntax_error value_type value_empty : Code

-- `(error_code::code_t) d_.GetParseError()`: each enumerator has RapidJSON's number.
abbrev pub of_parse_error : ParseErrorCode → Code
of_parse_error ParseErrorCode.error_none = error_none
of_parse_error ParseErrorCode.document_empty = document_empty
of_parse_error ParseErrorCode.document_root_not_singular = document_root_not_singular
of_parse_error ParseErrorCode.value_invalid = value_invalid
of_parse_error ParseErrorCode.object_miss_name = object_miss_name
of_parse_error ParseErrorCode.object_miss_colon = object_miss_colon
of_parse_error ParseErrorCode.object_miss_comma_or_bracket = object_miss_comma_or_bracket
of_parse_error ParseErrorCode.array_miss_comma_or_bracket = array_miss_comma_or_bracket
of_parse_error ParseErrorCode.string_unicode_escape_invalid_hex = string_unicode_escape_invalid_hex
of_parse_error ParseErrorCode.string_unicode_surrogate_invalid = string_unicode_surrogate_invalid
of_parse_error ParseErrorCode.string_escape_invalid = string_escape_invalid
of_parse_error ParseErrorCode.string_miss_quotation_mark = string_miss_quotation_mark
of_parse_error ParseErrorCode.string_invalid_encoding = string_invalid_encoding
of_parse_error ParseErrorCode.number_too_big = number_too_big
of_parse_error ParseErrorCode.number_miss_fraction = number_miss_fraction
of_parse_error ParseErrorCode.number_miss_exponent = number_miss_exponent
of_parse_error ParseErrorCode.error_termination = error_termination
of_parse_error ParseErrorCode.unspecific_syntax_error = unspecific_syntax_error

pub record ErrorCode : Type 0 where
  pub mes : Bytes
  pub offset : ℕ
  pub code : Code

abbrev pub error_code : ErrorCode
error_code = record { mes = codes "Success"; offset = 0; code = error_none }

-- `reset` keeps the offset.
pub reset : ErrorCode → ErrorCode
reset ec = record ec { mes = codes "success"; code = error_none }

-- `operator bool`
abbrev pub is_error : Code → Bool
is_error error_none = false
is_error _ = true

-- The texts of `set_`; its `default` is for numbers that are no enumerator.
unfoldable pub mes_of : Code → Bytes
mes_of error_none = codes "Success"
mes_of document_empty = codes "The document is empty"
mes_of document_root_not_singular = codes "The document root must not follow by other values"
mes_of value_invalid = codes "Invalid value"
mes_of object_miss_name = codes "Missing a name for object member"
mes_of object_miss_colon = codes "Missing a colon after a name of object member"
mes_of object_miss_comma_or_bracket = codes "Missing a comma or '}' after an object member"
mes_of array_miss_comma_or_bracket = codes "Missing a comma or ']' after an array element"
mes_of string_unicode_escape_invalid_hex = codes "Incorrect hex digit after \\u escape in string"
mes_of string_unicode_surrogate_invalid = codes "The surrogate pair in string is invalid"
mes_of string_escape_invalid = codes "Invalid escape character in string"
mes_of string_miss_quotation_mark = codes "Missing a closing quotation mark in string"
mes_of string_invalid_encoding = codes "Invalid encoding in string"
mes_of number_too_big = codes "Number too big to be stored in double"
mes_of number_miss_fraction = codes "Miss fraction part in number"
mes_of number_miss_exponent = codes "Miss exponent in number"
mes_of error_termination = codes "Parsing was terminated"
mes_of unspecific_syntax_error = codes "Unspecific syntax error"
mes_of value_type = codes "Attempt to get value with wrong type"
mes_of value_empty = codes "Value is empty"

-- `set_`
abbrev pub set_code : ErrorCode → Code → ℕ → ErrorCode
set_code ec code offset = record { mes = mes_of code; offset = offset; code = code }

module _ (R : Rapidjson) where
  -- `parse(json_str, ec)`: the document, and `ec` as it is left.
  pub parse_ec : Bytes → ErrorCode → R.Document × ErrorCode
  parse_ec s ec =
      let d = R.parse (c_str s) in
      (
        d,
        if R.has_parse_error d
            then set_code ec (of_parse_error (R.get_parse_error d)) (R.get_error_offset d)
            else ec,
      )

  -- `parse(json_str)`, the constructor and the assignment from a string
  pub parse : Bytes → Result R.Document
  unfolding parse_ec
  parse s =
      let (d, ec) = parse_ec s error_code in
      if is_error ec.code then err (runtime_error (ec.mes ++ 10 ∷ (codes "json:" ++ s))) else ok d

  -- A document that is no object fails an assertion too; without assertions that is undefined.
  abbrev pub missing : Bool → Option R.Value → Result R.Value
  missing object none = err assertion
  missing true (some v) = ok v
  missing false (some v) = err undefined

  -- `value(name)`, and `d_[name.c_str()]` of `value_as`
  unfoldable pub value : R.Document → Bytes → Result R.Value
  value d name = elim (R.member d (c_str name)) [
    | none ↦ missing (R.is_object d) R.absent
    | some v ↦ ok v
  ]

  -- `value_as<std::string>(name, ec)`
  pub string_ec : R.Document → Bytes → ErrorCode → Result (Bytes × ErrorCode)
  string_ec d name ec = do
    v ← value d name
    if R.is_null v
        then ok ([], set_code ec value_empty 0)
        else if R.is_string v
        then ok (R.get_string v, ec)
        else ok ([], set_code ec value_type 0)

  -- `value_as<std::size_t>(name, ec)`
  pub size_ec : R.Document → Bytes → ErrorCode → Result (ℕ × ErrorCode)
  size_ec d name ec = do
    v ← value d name
    if R.is_null v
        then ok (0, set_code ec value_empty 0)
        else if R.is_size v
        then ok (R.get_size v, ec)
        else ok (0, set_code ec value_type 0)

  -- The throwing `value_as(name)`.
  throw_if_error {ℓ} : {A : Type ℓ} → Bytes → A × ErrorCode → Result A
  throw_if_error name (val, ec) =
      if is_error ec.code
      then err (runtime_error (ec.mes ++ 10 ∷ (codes "json value name:" ++ name)))
      else ok val

  -- `value_as<std::string>(name)`
  pub value_as_string : R.Document → Bytes → Result Bytes
  unfolding string_ec throw_if_error
  value_as_string d name = string_ec d name error_code >>= throw_if_error name

  -- `value_as<std::size_t>(name)`
  pub value_as_size : R.Document → Bytes → Result ℕ
  unfolding size_ec throw_if_error
  value_as_size d name = size_ec d name error_code >>= throw_if_error name
