-- ===== src/Message.antt =====
-- include/net/message.hpp: a length-prefixed frame in a buffer of fixed size.
-- The buffer is a list of bytes; a `memcpy` that leaves it is an error.
pub mod Cstdlib
pub mod Frame
pub mod Arrival
use mathlib.Core.List.{flat_map}
use pocker_backend.Base.{
  ℕ, ◌+◌, ◌/◌, ◌%◌, ◌^◌, List, [], ◌∷◌, Bool, true, false, length, take, drop, ltb, if◌then◌else◌,
}
use pocker_backend.Base.Bytes.{Bytes, c_str}
use pocker_backend.Base.Int.{int_of_size, size_of_int}
use pocker_backend.Base.Results.{Result, ok, err, ◌>>=◌}
use Cstdlib.{atoi, sprintf, memcpy}

abbrev pub header_length : ℕ
header_length = 4

abbrev pub max_body_length : ℕ
max_body_length = 2044

pub record Message : Type 0 where
  -- `data_`
  pub buffer : Bytes
  -- `body_length_`
  pub body_length : ℕ

-- `message()`: the buffer holds whatever the memory held.
abbrev pub message : Bytes → Message
message garbage = record { buffer = garbage; body_length = 0 }

pub length_of : Message → ℕ
length_of m = header_length + m.body_length

-- `std::string(body(), body_length())`, also `operator std::string`
unfoldable pub body : Message → Bytes
body m = take m.body_length (drop header_length m.buffer)

pub set_body_length : Message → ℕ → Message
set_body_length m new_length = record m {
  body_length = if ltb max_body_length new_length then max_body_length else new_length;
}

-- `strncat` copies up to four bytes, and stops at a NUL.
unfoldable pub decode_header : Message → Message × Bool
decode_header m =
    let n = size_of_int (atoi (c_str (take header_length m.buffer))) in
    if ltb max_body_length n
    then (record m { body_length = 0 }, false)
    else (record m { body_length = n }, true)

-- `header` has room for four characters and the NUL.
pub encode_header : Message → Result Message
encode_header m = do
  header ← sprintf header_length (int_of_size m.body_length)
  d ← memcpy m.buffer 0 header
  ok (record m { buffer = d })

-- `operator=(const std::string&)`: the length is clamped, the copy is not.
unfoldable pub assign : Message → Bytes → Result Message
assign m str = do
  encoded ← encode_header (set_body_length m (length str))
  d ← memcpy encoded.buffer header_length str
  ok (record encoded { buffer = d })

-- The object representation of a `wchar_t`, four bytes, the lowest first.
abbrev wchar_bytes : ℕ → Bytes
wchar_bytes c = (c % 256) ∷ (c / 256 % 256) ∷ (c / 2 ^ 16 % 256) ∷ (c / 2 ^ 24 % 256) ∷ []

-- `operator=(const std::wstring&)`
pub assign_wide : Message → List ℕ → Result Message
assign_wide m str = assign m (flat_map wchar_bytes str)

-- `message(const std::string&)` and `message(const std::wstring&)`, with what the memory held
abbrev pub of_string : Bytes → Bytes → Result Message
of_string garbage str = assign (message garbage) str

abbrev pub of_wstring : Bytes → List ℕ → Result Message
of_wstring garbage str = assign_wide (message garbage) str

-- `operator std::string`
abbrev pub to_string : Message → Bytes
to_string m = body m

-- What `async_write` is given: `length()` bytes from `data()`.
unfoldable pub wire : Message → Bytes
unfolding length_of
wire m = take (length_of m) m.buffer
