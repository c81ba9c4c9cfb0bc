-- ===== src/Handler/Unregister.antt =====
-- src/net/mes_handler/mes_handler-unregister.cpp
use pocker_backend.Base.{ℕ, List, [], ◌∷◌, ◌++◌, Option, none, some, if◌then◌else◌}
use pocker_backend.Base.Bytes.{Bytes, codes, beq}
use pocker_backend.Api.Codes.{UnregisterCode}
use pocker_backend.Api.Requests.{UnregisterRequest, unregister_request, read_unregister}
use pocker_backend.Api.Responses.{UnregisterResponse, response_of, unregister_response_to_json}
use pocker_backend.Database.{TabUser}
use pocker_backend.Handler.State.{
  Env, hash, Action, pure, lift, ◌>>=◌, ◌>>◌, salt, select_by_email, remove_from, reply,
}

-- The loop over the rows: both branches for a row of this email end it.
unfoldable pub find_email : Bytes → List TabUser → Option TabUser
find_email email [] = none
find_email email (row ∷ rows) = if beq row.email email then some row else find_email email rows

abbrev pub unregistered : UnregisterResponse
unregistered = response_of UnregisterCode.ok (codes "unregister processed, status:ok")

abbrev pub invalid_pass : UnregisterResponse
invalid_pass = response_of UnregisterCode.no_pass (codes "invalid pass")

abbrev pub invalid_email : UnregisterResponse
invalid_email = response_of UnregisterCode.no_name (codes "invalid email")

module _ (E : Env) where
  unfoldable pub remove_user : Bytes → Bytes → Option TabUser → Action E UnregisterResponse
  remove_user email req_pass none = pure invalid_email
  remove_user email req_pass (some row) =
      if beq row.pass_hash req_pass
      then remove_from E email >> pure unregistered
      else pure invalid_pass

  -- `handle_unreg_request_`, once the request was read.
  unfoldable pub unregister_user : UnregisterRequest → ℕ → Action E (Unit {0})
  unregister_user req sender = do
    s ← salt E
    let req_pass = hash E (req.pass_hash.val ++ s)
    rows ← select_by_email E req.email.val
    rsp ← remove_user req.email.val req_pass (find_email req.email.val rows)
    reply E (unregister_response_to_json (E.rapidjson) rsp) sender

  -- `handle_unreg_request_`
  unfoldable pub handle_unreg_request : E.rapidjson.Document → ℕ → Action E (Unit {0})
  handle_unreg_request j sender = do
    req ← lift (read_unregister (E.rapidjson) j unregister_request)
    unregister_user req sender
