-- ===== src/Handler/Login.antt =====
-- src/net/mes_handler/mes_handler-login.cpp
use pocker_backend.Base.{ℕ, List, [], ◌∷◌, ◌++◌, Option, none, some, if◌then◌else◌}
use pocker_backend.Base.Bytes.{Bytes, codes, beq}
use pocker_backend.Api.Codes.{LoginCode}
use pocker_backend.Api.Requests.{LoginRequest, login_request, read_login}
use pocker_backend.Api.Responses.{LoginResponse, response_of, login_response_to_json}
use pocker_backend.Database.{TabUser}
use pocker_backend.Users.{User, user}
use pocker_backend.Handler.State.{
  Env, hash, Action, pure, lift, ◌>>=◌, ◌>>◌, salt, select_by_email, add_to_server, reply,
}

-- The loop over the rows: the first row with this hash.
unfoldable pub find_pass : Bytes → List TabUser → Option TabUser
find_pass pass [] = none
find_pass pass (row ∷ rows) = if beq row.pass_hash pass then some row else find_pass pass rows

abbrev pub email_unknown : LoginResponse
email_unknown = response_of LoginCode.name_unknown (codes "email is unkown")

abbrev pub pass_incorrect : LoginResponse
pass_incorrect = response_of LoginCode.pass_incorrect (codes "password is incorrect")

abbrev pub logged_in : LoginResponse
logged_in = response_of LoginCode.ok (codes "login success")

-- The `user` of a row, over this connection.
abbrev pub user_of : TabUser → ℕ → User
user_of row sender = record (user row.user_id sender) { email = row.email; nickname = row.nickname }

module _ (E : Env) where
  unfoldable pub check_pass : Bytes → ℕ → List TabUser → Action E LoginResponse
  check_pass req_pass sender [] = pure email_unknown
  check_pass req_pass sender (row ∷ rows) = elim (find_pass req_pass (row ∷ rows)) [
    | none ↦ pure pass_incorrect
    | some found ↦ add_to_server E (user_of found sender) >> pure logged_in
  ]

  -- `handle_login_request_`, once the request was read.
  unfoldable pub log_in : LoginRequest → ℕ → Action E (Unit {0})
  log_in req sender = do
    s ← salt E
    let req_pass = hash E (req.pass_hash.val ++ s)
    rows ← select_by_email E req.email.val
    rsp ← check_pass req_pass sender rows
    reply E (login_response_to_json (E.rapidjson) rsp) sender

  -- `handle_login_request_`
  unfoldable pub handle_login_request : E.rapidjson.Document → ℕ → Action E (Unit {0})
  handle_login_request j sender = do
    req ← lift (read_login (E.rapidjson) j login_request)
    log_in req sender
