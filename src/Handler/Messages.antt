-- ===== src/Handler/Messages.antt =====
-- What the handler makes of a message: a written request is performed, a document of another type is
-- ignored, and a text that is no JSON or has no type is thrown.
use pocker_backend.Base.{ℕ, ◌≡◌, ◌≢◌, refl, ◌∙◌, true, arith}
use pocker_backend.Base.Bytes.{Bytes, codes, c_str, beq, beq_ne}
use pocker_backend.Base.Results.{ok, err}
use pocker_backend.Message.{Message, body}
use pocker_backend.Rapidjson.{Rapidjson, IsFaithful}
use pocker_backend.Json
use pocker_backend.Json.{of_parse_error, value_empty, value_type}
use pocker_backend.Json.Reading.{thrown, parse_refused, value_as_refused, member_error, HasString}
use pocker_backend.Api.Requests.{
  register_of, login_of, unregister_of, register_request, login_request, unregister_request,
  register_to_json, login_to_json, unregister_to_json, register_request_type, login_request_type,
  unregister_request_type, read_register, read_login, read_unregister,
}
use pocker_backend.Api.Rendered.{IsShort}
use pocker_backend.Api.RequestTrip.{
  register_request-Arrives, login_request-Arrives, unregister_request-Arrives,
}
use pocker_backend.Handler.State.{Env, Backend}
use pocker_backend.Handler.Register.{register_user, handle_reg_request}
use pocker_backend.Handler.Login.{log_in, handle_login_request}
use pocker_backend.Handler.Unregister.{unregister_user, handle_unreg_request}
use pocker_backend.Handler.Dispatch.{dispatch, handle}
use pocker_backend.Handler.Spec.{Request, registers, logs_in, unregisters, perform}

-- The text that a client sends for a request.
abbrev pub request_text : Rapidjson → Request → Bytes
request_text R (registers nickname email pass) =
    register_to_json R (register_of nickname email pass)
request_text R (logs_in email pass) = login_to_json R (login_of email pass)
request_text R (unregisters email pass) = unregister_to_json R (unregister_of email pass)

abbrev pub IsSmall : Request → Type 0
IsSmall (registers nickname email pass) = IsShort nickname × IsShort email × IsShort pass
IsSmall (logs_in email pass) = IsShort email × IsShort pass
IsSmall (unregisters email pass) = IsShort email × IsShort pass

module _ (E : Env) (msg : Message) (sender : ℕ) (b : Backend E) where
  -- The first two lines of the handler, on a body that parses and has a type.
  handle_typed :
      (s type : Bytes) (d : E.rapidjson.Document)
      → body msg ≡ s
      → Json.parse (E.rapidjson) s ≡ ok d
      → Json.value_as_string (E.rapidjson) d (codes "type") ≡ ok type
      → handle E msg sender b ≡ dispatch E d type sender b
  unfolding handle
  handle_typed s type d is parsed typed = ground (arith, is, parsed, typed)

  reg_read :
      (d : E.rapidjson.Document) (nickname email pass : Bytes)
      → read_register (E.rapidjson) d register_request ≡ ok (register_of nickname email pass)
      → dispatch E d register_request_type.val sender b
        ≡ register_user E (register_of nickname email pass) sender b
  unfolding dispatch handle_reg_request beq
  reg_read d nickname email pass e = ground (arith, e)

  login_read :
      (d : E.rapidjson.Document) (email pass : Bytes)
      → read_login (E.rapidjson) d login_request ≡ ok (login_of email pass)
      → dispatch E d login_request_type.val sender b ≡ log_in E (login_of email pass) sender b
  unfolding dispatch handle_login_request beq
  login_read d email pass e = ground (arith, e)

  unreg_read :
      (d : E.rapidjson.Document) (email pass : Bytes)
      → read_unregister (E.rapidjson) d unregister_request ≡ ok (unregister_of email pass)
      → dispatch E d unregister_request_type.val sender b
        ≡ unregister_user E (unregister_of email pass) sender b
  unfolding dispatch handle_unreg_request beq
  unreg_read d email pass e = ground (arith, e)

  -- A message whose body is the text of a request, as `to_json` writes it, with fields below 2^32
  -- bytes, is handled as that request.
  pub handle-request_text :
      (q : Request)
      → IsFaithful (E.rapidjson)
      → IsSmall q
      → body msg ≡ request_text (E.rapidjson) q
      → handle E msg sender b ≡ perform E q sender b
  handle-request_text (registers nickname email pass) laws (n, e, p) is =
      let (d, parsed, typed, read) =
        register_request-Arrives (E.rapidjson) laws nickname email pass n e p in
      handle_typed _ _ d is parsed typed ∙ reg_read d nickname email pass read
  handle-request_text (logs_in email pass) laws (e, p) is =
      let (d, parsed, typed, read) = login_request-Arrives (E.rapidjson) laws email pass e p in
      handle_typed _ _ d is parsed typed ∙ login_read d email pass read
  handle-request_text (unregisters email pass) laws (e, p) is =
      let (d, parsed, typed, read) = unregister_request-Arrives (E.rapidjson) laws email pass e p in
      handle_typed _ _ d is parsed typed ∙ unreg_read d email pass read

  -- A message whose document has a `type` other than those of the three requests changes nothing.
  pub handle_ignored :
      (d : E.rapidjson.Document) (type : Bytes)
      → Json.parse (E.rapidjson) (body msg) ≡ ok d
      → Json.value_as_string (E.rapidjson) d (codes "type") ≡ ok type
      → type ≢ codes "register_request"
      → type ≢ codes "login_request"
      → type ≢ codes "unregister_request"
      → handle E msg sender b ≡ (ok tt, b)
  handle_ignored d type parsed typed reg login unreg =
      handle_typed _ type d refl parsed typed
      ∙ unfold dispatch in rw (beq_ne type _ reg, beq_ne type _ login, beq_ne type _ unreg) refl

  -- A message whose body is no JSON throws the error of the parser, and leaves the state as it is.
  pub handle_unparsed :
      IsFaithful (E.rapidjson)
      → E.rapidjson.has_parse_error (E.rapidjson.parse (c_str (body msg))) ≡ true
      → handle E msg sender b ≡ (
        err (
            thrown
              (of_parse_error (E.rapidjson.get_parse_error (E.rapidjson.parse (c_str (body msg)))))
              (codes "json:")
              (body msg)),
        b,
      )
  unfolding handle
  handle_unparsed laws bad = rw (parse_refused (E.rapidjson) laws (body msg) bad) refl

  -- A message whose body is an object without a text as its `type` is not handled, and the state is left as
  -- it is: if there is no `type`, that is a failed assertion, or, where assertions are compiled out,
  -- thrown as an empty value; if it is null, it is thrown as empty, and else as of the wrong type.
  pub handle_untyped :
      (d : E.rapidjson.Document)
      → Json.parse (E.rapidjson) (body msg) ≡ ok d
      → E.rapidjson.is_object d ≡ true
      → ((s : Bytes) → ¬ HasString (E.rapidjson) d (codes "type") s)
      → handle E msg sender b ≡ (
        err (
            member_error
              (E.rapidjson)
              (codes "type")
              (E.rapidjson.member d (c_str (codes "type")))),
        b,
      )
  unfolding handle
  handle_untyped d parsed object no_text =
      rw (parsed, value_as_refused (E.rapidjson) d (codes "type") object no_text) refl
