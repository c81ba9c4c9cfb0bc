-- ===== src/Handler/Spec.antt =====
-- What the three requests mean: a function on the accounts, with the answer, and on the users who
-- are logged in. It does not mention queries, rows, documents or buffers.
use pocker_backend.Base.{ℕ, none, some, if◌then◌else◌}
use pocker_backend.Base.Bytes.{Bytes, beq}
use pocker_backend.Api.Requests.{register_of, login_of, unregister_of}
use pocker_backend.Api.Responses.{
  RegisterResponse, LoginResponse, UnregisterResponse, register_response_to_json,
  login_response_to_json, unregister_response_to_json,
}
use pocker_backend.Rapidjson.{Rapidjson}
use pocker_backend.Users.{UserCont, add_user}
use pocker_backend.Database.Accounts.{Accounts, put}
use pocker_backend.Handler.State.{Env, Action}
use pocker_backend.Handler.Register.{email_taken, registered, register_user}
use pocker_backend.Handler.Login.{email_unknown, pass_incorrect, logged_in, log_in}
use pocker_backend.Handler.Unregister.{invalid_email, invalid_pass, unregistered, unregister_user}

pub data Request : Type 0 where
  -- nickname, email and password hash
  registers : Bytes → Bytes → Bytes → Request
  -- email and password hash
  logs_in : Bytes → Bytes → Request
  unregisters : Bytes → Bytes → Request

pub data Answer : Type 0 where
  to_register : RegisterResponse → Answer
  to_login : LoginResponse → Answer
  to_unregister : UnregisterResponse → Answer

-- The text of an answer.
abbrev pub text_of : Rapidjson → Answer → Bytes
text_of R (to_register r) = register_response_to_json R r
text_of R (to_login r) = login_response_to_json R r
text_of R (to_unregister r) = unregister_response_to_json R r

-- What the handlers do with a request that was read.
abbrev pub perform : (E : Env) → Request → ℕ → Action E (Unit {0})
perform E (registers nickname email pass) = register_user E (register_of nickname email pass)
perform E (logs_in email pass) = log_in E (login_of email pass)
perform E (unregisters email pass) = unregister_user E (unregister_of email pass)

-- `hashed` is the stored hash of a request's password hash; `id` is the id of a new account.
module _ (hashed : Bytes → Bytes) (id : ℕ) where
  abbrev pub spec : Request → Accounts → Accounts × Answer
  spec (registers nickname email pass) accounts = elim (accounts email) [
    | some _ ↦ (accounts, to_register email_taken)
    | none ↦ (
      put email (some (record { nickname = nickname; user_id = id; pass_hash = hashed pass }))
          accounts,
      to_register registered,
    )
  ]
  spec (logs_in email pass) accounts = elim (accounts email) [
    | none ↦ (accounts, to_login email_unknown)
    | some a ↦
        (accounts, to_login (if beq a.pass_hash (hashed pass) then logged_in else pass_incorrect))
  ]
  spec (unregisters email pass) accounts = elim (accounts email) [
    | none ↦ (accounts, to_unregister invalid_email)
    | some a ↦
        if beq a.pass_hash (hashed pass)
        then (put email none accounts, to_unregister unregistered)
        else (accounts, to_unregister invalid_pass)
  ]

-- A login that succeeds adds the user, over the connection of the request; nothing else does.
abbrev pub spec_users : (Bytes → Bytes) → Accounts → ℕ → Request → UserCont → UserCont
spec_users hashed accounts sender (registers _ _ _) users = users
spec_users hashed accounts sender (unregisters _ _) users = users
spec_users hashed accounts sender (logs_in email pass) users = elim (accounts email) [
  | none ↦ users
  | some a ↦
      if beq a.pass_hash (hashed pass)
      then add_user
          (record { nickname = a.nickname; email = email; id = a.user_id; connection = sender })
          users
      else users
]
