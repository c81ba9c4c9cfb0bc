-- ===== src/Json/Reading.antt =====
-- What `parse` and `value_as` return, and when they throw.
use pocker_backend.Base.{
  sym, ap, ◌∙◌, Option, none, Bool-cases, ◌≢◌, ℕ, ◌≡◌, ◌≢◌, ◌↔◌, refl, inl, inr, ◌∷◌, ◌++◌, true,
  false, none, some, arith, Option-cases, if◌then◌else◌,
}
use pocker_backend.Base.Bytes.{Bytes, codes, c_str}
use pocker_backend.Base.Results.{ok, err, Error, runtime_error, assertion}
use pocker_backend.Rapidjson.{Rapidjson, ParseErrorCode, IsFaithful}
use pocker_backend.Json.{
  Code, value_type, value_empty, of_parse_error, is_error, mes_of, parse_ec, parse, value,
  string_ec, size_ec, value_as_string, value_as_size,
}

of_parse_error-is_error :
    (c : ParseErrorCode) → c ≢ ParseErrorCode.error_none → is_error (of_parse_error c) ≡ true
of_parse_error-is_error ParseErrorCode.error_none h = absurd (h refl)
of_parse_error-is_error _ h = refl

-- What `what()` of the exception says.
abbrev pub thrown : Code → Bytes → Bytes → Error
thrown c label s = runtime_error (mes_of c ++ 10 ∷ (label ++ s))

module _ (R : Rapidjson) (laws : IsFaithful R) where
  pub parse_refused :
      (s : Bytes)
      → R.has_parse_error (R.parse (c_str s)) ≡ true
      → parse R s
        ≡ err (thrown (of_parse_error (R.get_parse_error (R.parse (c_str s)))) (codes "json:") s)
  unfolding parse parse_ec
  parse_refused s e = rw (e, of_parse_error-is_error _ (laws.error_has_code _ e))

module _ (R : Rapidjson) where
  pub parse_accepted :
      (s : Bytes)
      → R.has_parse_error (R.parse (c_str s)) ≡ false
      → parse R s ≡ ok (R.parse (c_str s))
  unfolding parse parse_ec
  parse_accepted s e = rw e

  -- The member `name` is there, and is a string with these bytes.
  abbrev pub HasString : R.Document → Bytes → Bytes → Type 0
  HasString d name s =
      (v : R.Value) × (R.member d (c_str name) ≡ some v)
      × (R.is_null v ≡ false)
      × (R.is_string v ≡ true)
      × (R.get_string v ≡ s)

  abbrev pub HasSize : R.Document → Bytes → ℕ → Type 0
  HasSize d name n =
      (v : R.Value) × (R.member d (c_str name) ≡ some v)
      × (R.is_null v ≡ false)
      × (R.is_size v ≡ true)
      × (R.get_size v ≡ n)

  pub value_as_string_found :
      (d : R.Document) (name s : Bytes) → HasString d name s → value_as_string R d name ≡ ok s
  unfolding value_as_string string_ec value
  value_as_string_found d name s (v, found, full, is, got) = ground arith

  pub value_as_size_found :
      (d : R.Document) (name : Bytes) (n : ℕ) → HasSize d name n → value_as_size R d name ≡ ok n
  unfolding value_as_size size_ec value
  value_as_size_found d name n (v, found, full, is, got) = ground arith

  no_string_absent :
      (d : R.Document) (name : Bytes) (s : Bytes)
      → value_as_string R d name ≡ ok s
      → R.member d (c_str name) ≢ none
  unfolding value_as_string string_ec value
  no_string_absent d name s h gone = elim (Option-cases R.absent) [
    | inl no_null ↦ ground (arith, gone, no_null)
    | inr (v, null) ↦ elim (Bool-cases (R.is_object d)) [
      | inl object ↦ ground (arith, gone, null, object, R.absent_null v null)
      | inr other ↦ ground (arith, gone, null, other)
    ]
  ]

  no_size_absent :
      (d : R.Document) (name : Bytes) (n : ℕ)
      → value_as_size R d name ≡ ok n
      → R.member d (c_str name) ≢ none
  unfolding value_as_size size_ec value
  no_size_absent d name n h gone = elim (Option-cases R.absent) [
    | inl no_null ↦ ground (arith, gone, no_null)
    | inr (v, null) ↦ elim (Bool-cases (R.is_object d)) [
      | inl object ↦ ground (arith, gone, null, object, R.absent_null v null)
      | inr other ↦ ground (arith, gone, null, other)
    ]
  ]

  value_as_string-HasString :
      (d : R.Document) (name s : Bytes) → value_as_string R d name ≡ ok s → HasString d name s
  unfolding value_as_string string_ec value
  value_as_string-HasString d name s h = elim (Option-cases (R.member d (c_str name))) [
    | inl none_there ↦ absurd (no_string_absent d name s h none_there)
    | inr (v, found) ↦ (v, found, ground arith, ground arith, ground arith)
  ]

  value_as_size-HasSize :
      (d : R.Document) (name : Bytes) (n : ℕ) → value_as_size R d name ≡ ok n → HasSize d name n
  unfolding value_as_size size_ec value
  value_as_size-HasSize d name n h = elim (Option-cases (R.member d (c_str name))) [
    | inl none_there ↦ absurd (no_size_absent d name n h none_there)
    | inr (v, found) ↦ (v, found, ground arith, ground arith, ground arith)
  ]

  -- `value_as` returns a string exactly where the member is there, is not null and is a string, and
  -- a number exactly where it is there, is not null and is a `size_t`.
  pub value_as-ok_iff :
      (d : R.Document) (name s : Bytes) (n : ℕ)
      → ((value_as_string R d name ≡ ok s) ↔ HasString d name s)
        × ((value_as_size R d name ≡ ok n) ↔ HasSize d name n)
  value_as-ok_iff d name s n = (
    (value_as_string-HasString d name s, value_as_string_found d name s),
    (value_as_size-HasSize d name n, value_as_size_found d name n),
  )

  -- What a missing member of an object leads to.
  abbrev pub missing_error : Bytes → Option R.Value → Error
  missing_error name none = assertion
  missing_error name (some v) = thrown value_empty (codes "json value name:") name

  absent_value :
      (d : R.Document) (name : Bytes) (a : Option R.Value)
      → R.absent ≡ a
      → R.member d (c_str name) ≡ none
      → R.is_object d ≡ true
      → value_as_string R d name ≡ err (missing_error name a)
  unfolding value_as_string string_ec value
  absent_value d name none is h object = ground (arith, is, h, object)
  absent_value d name (some v) is h object = ground (arith, is, h, object, R.absent_null v is)

  -- A missing member of an object is a failed assertion, or is thrown as a null value is.
  pub value_as_missing :
      (d : R.Document) (name : Bytes)
      → R.member d (c_str name) ≡ none
      → R.is_object d ≡ true
      → value_as_string R d name ≡ err (missing_error name R.absent)
  value_as_missing d name h object = absent_value d name R.absent refl h object

  -- A member of a wrong kind is thrown.
  pub value_as_wrong :
      (d : R.Document) (name : Bytes) (v : R.Value)
      → R.member d (c_str name) ≡ some v
      → R.is_string v ≡ false
      → value_as_string R d name
        ≡ err (
            thrown
              (if R.is_null v then value_empty else value_type)
              (codes "json value name:")
              name)
  unfolding value_as_string string_ec value
  value_as_wrong d name v found other = ground arith

  -- A member that is no string is thrown: as empty if it is null, and else as of the wrong type.
  pub value_as_no_string :
      (d : R.Document) (name : Bytes) (v : R.Value)
      → R.member d (c_str name) ≡ some v
      → ((s : Bytes) → ¬ HasString d name s)
      → value_as_string R d name
        ≡ err (
            thrown
              (if R.is_null v then value_empty else value_type)
              (codes "json value name:")
              name)
  unfolding value_as_string string_ec value
  value_as_no_string d name v found no_text = elim (Bool-cases (R.is_null v)) [
    | inl null ↦ ground (arith, found, null)
    | inr full ↦ elim (Bool-cases (R.is_string v)) [
      | inl is ↦ absurd (no_text (R.get_string v) (v, found, full, is, refl))
      | inr other ↦ ground (arith, found, full, other)
    ]
  ]

  -- What reading a member as a string throws, where it is no string of an object.
  abbrev pub member_error : Bytes → Option R.Value → Error
  member_error name none = missing_error name R.absent
  member_error name (some v) =
      thrown (if R.is_null v then value_empty else value_type) (codes "json value name:") name

  pub value_as_refused :
      (d : R.Document) (name : Bytes)
      → R.is_object d ≡ true
      → ((s : Bytes) → ¬ HasString d name s)
      → value_as_string R d name ≡ err (member_error name (R.member d (c_str name)))
  value_as_refused d name object no_text = elim (Option-cases (R.member d (c_str name))) [
    | inl gone ↦
        value_as_missing d name gone object ∙ ap (λ m. err (member_error name m)) (sym gone)
    | inr (v, found) ↦
        value_as_no_string d name v found no_text ∙ ap (λ m. err (member_error name m)) (sym found)
  ]
