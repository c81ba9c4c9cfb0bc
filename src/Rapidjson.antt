-- ===== src/Rapidjson.antt =====
-- RapidJSON, which include/json_obj.h and components/api/api.cpp call and which is not part of the
-- repository: its documents, values and writer as a parameter, with what its documentation says of
-- a document that was parsed from written text.
use pocker_backend.Base.{
  ℕ, ◌+◌, ◌*◌, ◌≤◌, length, ◌≡◌, ◌≢◌, List, [], ◌∷◌, Bool, true, false, Option, none, some,
  if◌then◌else◌,
}
use pocker_backend.Base.Bytes.{Bytes, c_str, beq, IsNulFree}
use pocker_backend.Base.Int.{ℤ, pos, int64_of_size}

-- `rapidjson::ParseErrorCode`
pub data ParseErrorCode : Type 0 where
  error_none document_empty document_root_not_singular value_invalid : ParseErrorCode
  object_miss_name object_miss_colon object_miss_comma_or_bracket : ParseErrorCode
  array_miss_comma_or_bracket string_unicode_escape_invalid_hex : ParseErrorCode
  string_unicode_surrogate_invalid string_escape_invalid : ParseErrorCode
  string_miss_quotation_mark string_invalid_encoding number_too_big : ParseErrorCode
  number_miss_fraction number_miss_exponent error_termination : ParseErrorCode
  unspecific_syntax_error : ParseErrorCode

pub record Rapidjson : Type 1 where
  pub Document : Type 0
  pub Value : Type 0
  pub parse : Bytes → Document
  pub has_parse_error : Document → Bool
  pub get_parse_error : Document → ParseErrorCode
  pub get_error_offset : Document → ℕ
  pub is_object : Document → Bool
  -- `d[name]`: `none` where the document is no object or has no such member.
  pub member : Document → Bytes → Option Value
  pub is_null : Value → Bool
  -- What `d[name]` is for an object without such a member: a null value where assertions are compiled out
  -- (NDEBUG), and `none` where it is a failed assertion.
  pub absent : Option Value
  pub absent_null : (v : Value) → absent ≡ some v → is_null v ≡ true
  pub is_string : Value → Bool
  -- `GetString` with `GetStringLength`
  pub get_string : Value → Bytes
  -- `Is<size_t>` and `Get<size_t>`
  pub is_size : Value → Bool
  pub get_size : Value → ℕ
  -- `none` where the value is no `int64_t`, an assertion
  pub get_int64 : Value → Option ℤ
  -- a `PrettyWriter` over its `StringBuffer`
  pub Writer : Type 0
  pub new_writer : Writer
  pub start_object : Writer → Writer
  pub string : Bytes → Writer → Writer
  pub int64 : ℤ → Writer → Writer
  pub end_object : Writer → Writer
  pub get_output : Writer → Bytes

-- A value that the program writes: a text, or a `size_t` that is cast to an `int64_t`.
pub data Scalar : Type 0 where
  text : Bytes → Scalar
  number : ℕ → Scalar

abbrev pub Fields : Type 0
Fields = List (Bytes × Scalar)

-- The first field of a name.
abbrev pub find_field : Bytes → Fields → Option Scalar
find_field name [] = none
find_field name ((k, x) ∷ fields) = if beq k name then some x else find_field name fields

-- A generous bound on the size of what is written: a byte is escaped to six at most, a number has
-- twenty characters at most, and each field has its quotes, its separators, a line and an indent.
abbrev pub budget : Fields → ℕ
budget [] = 8
budget ((k, text s) ∷ fields) = 6 * length k + 6 * length s + 16 + budget fields
budget ((k, number n) ∷ fields) = 6 * length k + 36 + budget fields

module _ (R : Rapidjson) where
  abbrev pub write_scalar : Scalar → R.Writer → R.Writer
  write_scalar (text s) w = R.string s w
  write_scalar (number n) w = R.int64 (int64_of_size n) w

  -- The calls on the writer between `StartObject` and `EndObject`.
  abbrev pub write_fields : Fields → R.Writer → R.Writer
  write_fields [] w = w
  write_fields ((k, x) ∷ fields) w = write_fields fields (write_scalar x (R.string k w))

  abbrev pub render : Fields → Bytes
  render fields = R.get_output (R.end_object (write_fields fields (R.start_object R.new_writer)))

  -- The value reads back as what was written.
  abbrev pub Holds : R.Value → Scalar → Type 0
  Holds v (text s) = (R.is_null v ≡ false) × (R.is_string v ≡ true) × (R.get_string v ≡ s)
  Holds v (number n) =
      (R.is_null v ≡ false)
      × (R.get_int64 v ≡ some (int64_of_size n))
      × ((k : ℕ) → int64_of_size n ≡ pos k → (R.is_size v ≡ true) × (R.get_size v ≡ k))

  -- What the program relies on.
  pub record IsFaithful : Type 0 where
    -- An error has a code other than "none".
    pub error_has_code :
        (d : R.Document) → R.has_parse_error d ≡ true → R.get_parse_error d ≢ error_none
    -- The writer escapes control characters, so its output has no NUL.
    pub output_clean : (fields : Fields) → IsNulFree (render fields)
    pub output_size : (fields : Fields) → length (render fields) ≤ budget fields
    -- Written objects parse, with the members that were written; a name is given as a C string.
    pub reads_back :
        (fields : Fields)
        → (R.has_parse_error (R.parse (render fields)) ≡ false)
          × ((name : Bytes) (x : Scalar)
              → c_str name ≡ name
              → find_field name fields ≡ some x
              → (v : R.Value) × (R.member (R.parse (render fields)) name ≡ some v) × Holds v x)
