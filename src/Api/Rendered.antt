-- ===== src/Api/Rendered.antt =====
-- What the program writes is an object of its fields, and reads back as such.
use pocker_backend.Base.{ℕ, ◌^◌, ◌%◌, ◌<◌, ◌≡◌, ap, ◌∙◌, some, length, take, take_all, arith}
use pocker_backend.Base.Bytes.{Bytes, c_str, c_str_id}
use pocker_backend.Base.Int.{pos, int64_of_size}
use pocker_backend.Base.Results.{ok}
use pocker_backend.Rapidjson.{Rapidjson, Fields, text, number, find_field, render, IsFaithful}
use pocker_backend.Json
use pocker_backend.Json.Reading.{parse_accepted, value_as_string_found, value_as_size_found}

-- A length that RapidJSON's `SizeType` holds.
abbrev pub IsShort : Bytes → Type 0
IsShort s = length s < 2 ^ 32

pub take_short : (s : Bytes) → IsShort s → take (length s % 2 ^ 32) s ≡ s
take_short s h = take_all (length s % 2 ^ 32) s (omega arith)

pub int64_small : (n : ℕ) → n < 2 ^ 63 → int64_of_size n ≡ pos n
int64_small n h = ground arith

module _ (R : Rapidjson) (laws : IsFaithful R) where
  pub finish_clean : (fields : Fields) → c_str (render R fields) ≡ render R fields
  finish_clean fields = c_str_id _ (laws.output_clean fields)

  pub parse-render :
      (fields : Fields) → Json.parse R (render R fields) ≡ ok (R.parse (render R fields))
  parse-render fields =
      parse_accepted R (render R fields) (rw (finish_clean fields) (laws.reads_back fields).0)
      ∙ ap (λ s. ok (R.parse s)) (finish_clean fields)

  pub string-render :
      (fields : Fields) (name s : Bytes)
      → c_str name ≡ name
      → find_field name fields ≡ some (text s)
      → Json.value_as_string R (R.parse (render R fields)) name ≡ ok s
  string-render fields name s clean found =
      let (v, is_member, holds) = (laws.reads_back fields).1 name (text s) clean found in
      value_as_string_found R _ name s (v, rw clean is_member, holds.0, holds.1, holds.2)

  pub size-render :
      (fields : Fields) (name : Bytes) (n : ℕ)
      → c_str name ≡ name
      → n < 2 ^ 63
      → find_field name fields ≡ some (number n)
      → Json.value_as_size R (R.parse (render R fields)) name ≡ ok n
  size-render fields name n clean small found =
      let (v, is_member, holds) = (laws.reads_back fields).1 name (number n) clean found in
      value_as_size_found R _ name n (
        v,
        rw clean is_member,
        holds.0,
        (holds.2 n (int64_small n small)).0,
        (holds.2 n (int64_small n small)).1,
      )
