-- ===== src/Api/Responses.antt =====
-- components/api/api.h and api.cpp: `connect_response` and the responses to the three requests.
use pocker_backend.Base.{ℕ, none, some, []}
use pocker_backend.Base.Bytes.{Bytes, codes, c_str}
use pocker_backend.Base.Int.{size_of_int}
use pocker_backend.Base.Results.{Result, ok, err, assertion, ◌>>=◌}
use pocker_backend.Rapidjson.{Rapidjson}
use pocker_backend.Json
use pocker_backend.Api.Values.{ValT, set_val, write_string_val, write_size_val, finish, begin}
use pocker_backend.Api.Codes.{
  RegisterCode, LoginCode, UnregisterCode, register_code, login_code, unregister_code,
  size_of_register, size_of_login, size_of_unregister,
}

pub record ConnectResponse : Type 0 where
  pub code : ValT ℕ

-- The three other responses have the same fields, each with its own `code_enum`.
pub record Response (C : Type 0) : Type 0 where
  pub code : ValT C
  pub message : ValT Bytes

abbrev pub RegisterResponse : Type 0
RegisterResponse = Response RegisterCode

abbrev pub LoginResponse : Type 0
LoginResponse = Response LoginCode

abbrev pub UnregisterResponse : Type 0
UnregisterResponse = Response UnregisterCode

-- The static `type` of each response.
abbrev pub connect_response_type : ValT Bytes
connect_response_type = record { name = codes "type"; val = codes "connect_response" }

abbrev pub register_response_type : ValT Bytes
register_response_type = record { name = codes "type"; val = codes "register_response" }

abbrev pub login_response_type : ValT Bytes
login_response_type = record { name = codes "type"; val = codes "login_response" }

abbrev pub unregister_response_type : ValT Bytes
unregister_response_type = record { name = codes "type"; val = codes "unregister_response" }

abbrev pub connect_response : ConnectResponse
connect_response = record { code = record { name = codes "code"; val = 0 } }

-- A response with its two values assigned.
abbrev pub response_of : {C : Type 0} → C → Bytes → Response C
response_of code message = record {
  code = record { name = codes "code"; val = code };
  message = record { name = codes "message"; val = message };
}

-- A response as it is constructed.
abbrev pub register_response : RegisterResponse
register_response = response_of RegisterCode.ok []

abbrev pub login_response : LoginResponse
login_response = response_of LoginCode.ok []

abbrev pub unregister_response : UnregisterResponse
unregister_response = response_of UnregisterCode.ok []

module _ (R : Rapidjson) where
  -- `connect_response::from_json(const std::string&)` looks at no parse error.
  unfoldable pub connect_from_json : Bytes → ConnectResponse → Result ConnectResponse
  connect_from_json s r = do
    v ← Json.value R (R.parse (c_str s)) r.code.name
    n ← elim (R.get_int64 v) [ none ↦ err assertion | some n ↦ ok n ]
    ok (record r { code = set_val r.code (size_of_int n) })

  unfoldable pub connect_to_json : ConnectResponse → Bytes
  unfolding write_string_val write_size_val finish
  connect_to_json r =
      let w1 = write_string_val R connect_response_type (begin R) in
      finish R (write_size_val R r.code w1)

  -- `register_response::from_json(const json&)`
  unfoldable pub read_register_response : R.Document → RegisterResponse → Result RegisterResponse
  read_register_response j r = do
    message ← Json.value_as_string R j r.message.name
    code ← Json.value_as_size R j r.code.name
    ok (record { message = set_val r.message message; code = set_val r.code (register_code code) })

  -- `login_response::from_json(const json&)`
  unfoldable pub read_login_response : R.Document → LoginResponse → Result LoginResponse
  read_login_response j r = do
    code ← Json.value_as_size R j r.code.name
    message ← Json.value_as_string R j r.message.name
    ok (record { message = set_val r.message message; code = set_val r.code (login_code code) })

  -- `unregister_response::from_json(const json&)`
  unfoldable pub read_unregister_response :
      R.Document → UnregisterResponse → Result UnregisterResponse
  read_unregister_response j r = do
    message ← Json.value_as_string R j r.message.name
    code ← Json.value_as_size R j r.code.name
    ok (record {
      message = set_val r.message message;
      code = set_val r.code (unregister_code code);
    })

  -- The overloads that parse a string first.
  pub register_response_from_json : Bytes → RegisterResponse → Result RegisterResponse
  register_response_from_json s r = do j ← Json.parse R s; read_register_response j r

  pub login_response_from_json : Bytes → LoginResponse → Result LoginResponse
  login_response_from_json s r = do j ← Json.parse R s; read_login_response j r

  pub unregister_response_from_json : Bytes → UnregisterResponse → Result UnregisterResponse
  unregister_response_from_json s r = do j ← Json.parse R s; read_unregister_response j r

  -- The three `to_json` differ in `type` and in the cast of the code.
  abbrev write_response : {C : Type 0} → (C → ℕ) → ValT Bytes → Response C → Bytes
  write_response size_of type r =
      let w1 = write_string_val R type (begin R) in
      let w2 = write_string_val R r.message w1 in
      finish R (write_size_val R (record { name = r.code.name; val = size_of r.code.val }) w2)

  unfoldable pub register_response_to_json : RegisterResponse → Bytes
  unfolding write_string_val write_size_val finish
  register_response_to_json = write_response size_of_register register_response_type

  unfoldable pub login_response_to_json : LoginResponse → Bytes
  unfolding write_string_val write_size_val finish
  login_response_to_json = write_response size_of_login login_response_type

  unfoldable pub unregister_response_to_json : UnregisterResponse → Bytes
  unfolding write_string_val write_size_val finish
  unregister_response_to_json = write_response size_of_unregister unregister_response_type
