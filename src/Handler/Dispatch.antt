-- ===== src/Handler/Dispatch.antt =====
-- src/net/mes_handler/mes_handler.cpp: `handle`.
use pocker_backend.Base.{ℕ, if◌then◌else◌}
use pocker_backend.Base.Bytes.{Bytes, codes, beq}
use pocker_backend.Message.{Message, body}
use pocker_backend.Json
use pocker_backend.Api.Requests.{register_request_type, login_request_type, unregister_request_type}
use pocker_backend.Handler.State.{Env, Action, pure, lift, ◌>>=◌}
use pocker_backend.Handler.Register.{handle_reg_request}
use pocker_backend.Handler.Login.{handle_login_request}
use pocker_backend.Handler.Unregister.{handle_unreg_request}

module _ (E : Env) where
  -- The chain of tests on the `type` of the document.
  unfoldable pub dispatch : E.rapidjson.Document → Bytes → ℕ → Action E (Unit {0})
  dispatch j val sender =
      if beq val register_request_type.val
      then handle_reg_request E j sender
      else if beq val login_request_type.val
      then handle_login_request E j sender
      else if beq val unregister_request_type.val
      then handle_unreg_request E j sender
      else pure tt

  unfoldable pub handle : Message → ℕ → Action E (Unit {0})
  unfolding dispatch
  handle msg sender = do
    j ← lift (Json.parse (E.rapidjson) (body msg))
    val ← lift (Json.value_as_string (E.rapidjson) j (codes "type"))
    dispatch j val sender
