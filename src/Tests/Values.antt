-- ===== src/Tests/Values.antt =====
-- Documents, requests, responses and users at concrete values.
use pocker_backend.Base.{◌≡◌, ◌↔◌, [], ◌∷◌, some, ◌==◌, if◌then◌else◌, arith}
use pocker_backend.Json.{value_type, value_empty}
use pocker_backend.Base.Bytes.{codes}
use pocker_backend.Base.Results.{ok}
use pocker_backend.Base.Int.{pos}
use pocker_backend.Json
use pocker_backend.Json.Reading.{HasString, HasSize, value_as-ok_iff}
use pocker_backend.Api.Codes.{register_code, login_code, unregister_code}
use pocker_backend.Api.Requests.{
  register_of, login_of, unregister_of, register_request, login_request, unregister_request,
  register_request_type, login_request_type, unregister_request_type, read_register, read_login,
  read_unregister, register_to_json, login_to_json, unregister_to_json,
}
use pocker_backend.Api.Responses.{
  response_of, register_response, login_response, unregister_response, register_response_type,
  login_response_type, unregister_response_type, read_register_response, read_login_response,
  read_unregister_response, register_response_to_json, login_response_to_json,
  unregister_response_to_json,
}
use pocker_backend.Api.RequestTrip.{
  Arrives, register_request-Arrives, login_request-Arrives, unregister_request-Arrives,
}
use pocker_backend.Api.ResponseTrip.{
  register_response-Arrives, login_response-Arrives, unregister_response-Arrives,
}
use pocker_backend.Users.{User, UserCont, add_user, get_user}
use pocker_backend.Users.Laws.{get_user-add_user}
use pocker_backend.Tests.ToyJson.{int, chars, toy_json, toy_json-IsFaithful}

abbrev document : toy_json.Document
document = some ((codes "code", int (pos 3)) ∷ (codes "message", chars (codes "done")) ∷ [])

value_as-ok_iff_example :
    ((Json.value_as_string toy_json document (codes "message") ≡ ok (codes "done"))
      ↔ HasString toy_json document (codes "message") (codes "done"))
    × ((Json.value_as_size toy_json document (codes "message") ≡ ok 3)
        ↔ HasSize toy_json document (codes "message") 3)
value_as-ok_iff_example = value_as-ok_iff toy_json document (codes "message") (codes "done") 3

register_request-Arrives_example :
    Arrives toy_json
      (register_to_json toy_json (register_of (codes "bob") (codes "b@b") (codes "pw")))
      register_request_type.val
      (λ d. read_register toy_json d register_request)
      (register_of (codes "bob") (codes "b@b") (codes "pw"))
register_request-Arrives_example =
    register_request-Arrives toy_json toy_json-IsFaithful (codes "bob") (codes "b@b") (codes "pw")
      (omega arith) (omega arith) (omega arith)

login_request-Arrives_example :
    Arrives toy_json
      (login_to_json toy_json (login_of (codes "b@b") (codes "pw")))
      login_request_type.val
      (λ d. read_login toy_json d login_request)
      (login_of (codes "b@b") (codes "pw"))
login_request-Arrives_example =
    login_request-Arrives toy_json toy_json-IsFaithful (codes "b@b") (codes "pw") (omega arith)
      (omega arith)

unregister_request-Arrives_example :
    Arrives toy_json
      (unregister_to_json toy_json (unregister_of (codes "b@b") (codes "pw")))
      unregister_request_type.val
      (λ d. read_unregister toy_json d unregister_request)
      (unregister_of (codes "b@b") (codes "pw"))
unregister_request-Arrives_example =
    unregister_request-Arrives toy_json toy_json-IsFaithful (codes "b@b") (codes "pw") (omega arith)
      (omega arith)

register_response-Arrives_example :
    Arrives toy_json
      (register_response_to_json toy_json (response_of (register_code 7) (codes "done")))
      register_response_type.val
      (λ d. read_register_response toy_json d register_response)
      (response_of (register_code 7) (codes "done"))
register_response-Arrives_example =
    register_response-Arrives toy_json toy_json-IsFaithful 7 (codes "done") (omega arith)
      (omega arith)

login_response-Arrives_example :
    Arrives toy_json
      (login_response_to_json toy_json (response_of (login_code 2) (codes "no")))
      login_response_type.val
      (λ d. read_login_response toy_json d login_response)
      (response_of (login_code 2) (codes "no"))
login_response-Arrives_example =
    login_response-Arrives toy_json toy_json-IsFaithful 2 (codes "no") (omega arith) (omega arith)

unregister_response-Arrives_example :
    Arrives toy_json
      (unregister_response_to_json toy_json (response_of (unregister_code 1) (codes "no")))
      unregister_response_type.val
      (λ d. read_unregister_response toy_json d unregister_response)
      (response_of (unregister_code 1) (codes "no"))
unregister_response-Arrives_example =
    unregister_response-Arrives toy_json toy_json-IsFaithful 1 (codes "no") (omega arith)
      (omega arith)

abbrev ann : User
ann = record { nickname = codes "ann"; email = codes "a@b"; id = 4; connection = 1 }

abbrev ben : User
ben = record { nickname = codes "ben"; email = codes "c@d"; id = 9; connection = 2 }

abbrev users : UserCont
users = (4, ann) ∷ (9, ben) ∷ []

get_user-add_user_example :
    get_user 9 (add_user ann users) ≡ (if ann.id == 9 then some ann else get_user 9 users)
get_user-add_user_example = get_user-add_user ann 9 users
