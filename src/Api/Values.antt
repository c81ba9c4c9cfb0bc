-- ===== src/Api/Values.antt =====
-- components/api/api.h: `val_t`, a value with the name that it has in JSON, and how it is written.
-- components/property.hpp wraps it in a `property`, which adds no state: `p()` is the value, and
-- an assignment to `p` is one to the value.
use pocker_backend.Base.{ℕ, ◌%◌, ◌^◌, length, take}
use pocker_backend.Base.Bytes.{Bytes, c_str}
use pocker_backend.Base.Int.{int64_of_size}
use pocker_backend.Rapidjson.{Rapidjson}

pub record ValT {ℓ} (A : Type ℓ) : Type ℓ where
  pub name : Bytes
  pub val : A

-- `operator=(const T&)`: the name stays.
abbrev pub set_val {ℓ} : {A : Type ℓ} → ValT A → A → ValT A
set_val v a = record v { val = a }

module _ (R : Rapidjson) where
  -- `write_str`: the length is cast to RapidJSON's 32-bit `SizeType`.
  unfoldable pub write_str : Bytes → R.Writer → R.Writer
  write_str s w = R.string (take (length s % 2 ^ 32) s) w

  -- `write_prop_val` at a string
  unfoldable pub write_string_val : ValT Bytes → R.Writer → R.Writer
  unfolding write_str
  write_string_val v w = write_str v.val (write_str v.name w)

  -- `write_prop_val` at a `size_t`; the codes of the responses are written in the same two calls.
  unfoldable pub write_size_val : ValT ℕ → R.Writer → R.Writer
  unfolding write_str
  write_size_val v w = R.int64 (int64_of_size v.val) (write_str v.name w)

  -- `EndObject`, and the output as a C string
  unfoldable pub finish : R.Writer → Bytes
  unfolding c_str
  finish w = c_str (R.get_output (R.end_object w))

  abbrev pub begin : R.Writer
  begin = R.start_object R.new_writer
