-- ===== src/Api/Requests.antt =====
-- components/api/api.h and api.cpp: `register_request`, `login_request`, `unregister_request`.
use pocker_backend.Base.{[]}
use pocker_backend.Base.Bytes.{Bytes, codes}
use pocker_backend.Base.Results.{Result, ok, ◌>>=◌}
use pocker_backend.Rapidjson.{Rapidjson}
use pocker_backend.Json
use pocker_backend.Api.Values.{ValT, set_val, write_string_val, finish, begin}

pub record RegisterRequest : Type 0 where
  pub nickname : ValT Bytes
  pub email : ValT Bytes
  pub pass_hash : ValT Bytes

pub record LoginRequest : Type 0 where
  pub email : ValT Bytes
  pub pass_hash : ValT Bytes

pub record UnregisterRequest : Type 0 where
  pub email : ValT Bytes
  pub pass_hash : ValT Bytes

-- The static `type` of each request.
abbrev pub register_request_type : ValT Bytes
register_request_type = record { name = codes "type"; val = codes "register_request" }

abbrev pub login_request_type : ValT Bytes
login_request_type = record { name = codes "type"; val = codes "login_request" }

abbrev pub unregister_request_type : ValT Bytes
unregister_request_type = record { name = codes "type"; val = codes "unregister_request" }

-- A request as it is constructed.
abbrev pub register_request : RegisterRequest
register_request = record {
  nickname = record { name = codes "nickname"; val = [] };
  email = record { name = codes "email"; val = [] };
  pass_hash = record { name = codes "pass_hash"; val = [] };
}

abbrev pub login_request : LoginRequest
login_request = record {
  email = record { name = codes "email"; val = [] };
  pass_hash = record { name = codes "pass_hash"; val = [] };
}

abbrev pub unregister_request : UnregisterRequest
unregister_request = record {
  email = record { name = codes "email"; val = [] };
  pass_hash = record { name = codes "pass_hash"; val = [] };
}

-- A request whose fields were assigned.
abbrev pub register_of : Bytes → Bytes → Bytes → RegisterRequest
register_of nickname email pass_hash = record {
  nickname = set_val register_request.nickname nickname;
  email = set_val register_request.email email;
  pass_hash = set_val register_request.pass_hash pass_hash;
}

abbrev pub login_of : Bytes → Bytes → LoginRequest
login_of email pass_hash = record {
  email = set_val login_request.email email;
  pass_hash = set_val login_request.pass_hash pass_hash;
}

abbrev pub unregister_of : Bytes → Bytes → UnregisterRequest
unregister_of email pass_hash = record {
  email = set_val unregister_request.email email;
  pass_hash = set_val unregister_request.pass_hash pass_hash;
}

module _ (R : Rapidjson) where
  -- `register_request::from_json(const json&)`
  unfoldable pub read_register : R.Document → RegisterRequest → Result RegisterRequest
  read_register j r = do
    nickname ← Json.value_as_string R j r.nickname.name
    email ← Json.value_as_string R j r.email.name
    pass_hash ← Json.value_as_string R j r.pass_hash.name
    ok (record r {
      nickname = set_val r.nickname nickname;
      email = set_val r.email email;
      pass_hash = set_val r.pass_hash pass_hash;
    })

  -- `login_request::from_json(const json&)`
  unfoldable pub read_login : R.Document → LoginRequest → Result LoginRequest
  read_login j r = do
    email ← Json.value_as_string R j r.email.name
    pass_hash ← Json.value_as_string R j r.pass_hash.name
    ok (record r { email = set_val r.email email; pass_hash = set_val r.pass_hash pass_hash })

  -- `unregister_request::from_json(const json&)`
  unfoldable pub read_unregister : R.Document → UnregisterRequest → Result UnregisterRequest
  read_unregister j r = do
    email ← Json.value_as_string R j r.email.name
    pass_hash ← Json.value_as_string R j r.pass_hash.name
    ok (record r { email = set_val r.email email; pass_hash = set_val r.pass_hash pass_hash })

  -- The overloads that parse a string first.
  unfoldable pub register_from_json : Bytes → RegisterRequest → Result RegisterRequest
  register_from_json s r = do j ← Json.parse R s; read_register j r

  unfoldable pub login_from_json : Bytes → LoginRequest → Result LoginRequest
  login_from_json s r = do j ← Json.parse R s; read_login j r

  unfoldable pub unregister_from_json : Bytes → UnregisterRequest → Result UnregisterRequest
  unregister_from_json s r = do j ← Json.parse R s; read_unregister j r

  -- `to_json`
  unfoldable pub register_to_json : RegisterRequest → Bytes
  unfolding write_string_val finish
  register_to_json r =
      let w1 = write_string_val R register_request_type (begin R) in
      let w2 = write_string_val R r.email w1 in
      let w3 = write_string_val R r.nickname w2 in finish R (write_string_val R r.pass_hash w3)

  unfoldable pub login_to_json : LoginRequest → Bytes
  unfolding write_string_val finish
  login_to_json r =
      let w1 = write_string_val R login_request_type (begin R) in
      let w2 = write_string_val R r.email w1 in finish R (write_string_val R r.pass_hash w2)

  unfoldable pub unregister_to_json : UnregisterRequest → Bytes
  unfolding write_string_val finish
  unregister_to_json r =
      let w1 = write_string_val R unregister_request_type (begin R) in
      let w2 = write_string_val R r.email w1 in finish R (write_string_val R r.pass_hash w2)
