-- ===== src/Handler/Register.antt =====
-- src/net/mes_handler/mes_handler-register.cpp
use pocker_backend.Base.{ℕ, ◌+◌, ◌^◌, List, [], ◌∷◌, ◌++◌, Bool, true, false, ltb, if◌then◌else◌}
use pocker_backend.Base.Bytes.{Bytes, codes, beq}
use pocker_backend.Base.Results.{Result, ok, err, undefined}
use pocker_backend.Api.Codes.{RegisterCode}
use pocker_backend.Api.Requests.{RegisterRequest, register_request, read_register}
use pocker_backend.Api.Responses.{RegisterResponse, response_of, register_response_to_json}
use pocker_backend.Database.{TabUser}
use pocker_backend.Handler.State.{
  Env, hash, Action, pure, lift, ◌>>=◌, ◌>>◌, salt, select_by_email, select_max_id, insert_into,
  reply,
}

-- The loop over the rows: is one of them of this email.
unfoldable pub is_taken : Bytes → List TabUser → Bool
is_taken email [] = false
is_taken email (row ∷ rows) = if beq row.email email then true else is_taken email rows

-- `max_id.front().max + 1`, an `int64_t`
abbrev pub next_id : ℕ → Result ℕ
next_id n = if ltb (n + 1) (2 ^ 63) then ok (n + 1) else err undefined

abbrev pub email_taken : RegisterResponse
email_taken = response_of RegisterCode.name_taken (codes "email is already in use")

abbrev pub registered : RegisterResponse
registered = response_of RegisterCode.ok (codes "registration success")

module _ (E : Env) where
  -- The `if (ok)` of the handler.
  unfoldable pub add_row : RegisterRequest → Action E RegisterResponse
  add_row req = do
    max_id ← select_max_id E
    id_val ← lift (next_id max_id)
    s ← salt E
    let rehashed_pass = hash E (req.pass_hash.val ++ s)
    insert_into E (record {
      nickname = req.nickname.val;
      user_id = id_val;
      email = req.email.val;
      pass_hash = rehashed_pass;
    })
    pure registered

  -- `handle_reg_request_`, once the request was read.
  unfoldable pub register_user : RegisterRequest → ℕ → Action E (Unit {0})
  register_user req sender = do
    rows ← select_by_email E req.email.val
    rsp ← (if is_taken req.email.val rows then pure email_taken else add_row req)
    reply E (register_response_to_json (E.rapidjson) rsp) sender

  -- `handle_reg_request_`
  unfoldable pub handle_reg_request : E.rapidjson.Document → ℕ → Action E (Unit {0})
  handle_reg_request j sender = do
    req ← lift (read_register (E.rapidjson) j register_request)
    register_user req sender
