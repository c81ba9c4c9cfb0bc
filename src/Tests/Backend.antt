-- ===== src/Tests/Backend.antt =====
-- The handlers on a table with one account, over the stand-ins for RapidJSON and the table.
use pocker_backend.Base.{
  ℕ, ap, ◌∙◌, ◌≡◌, ◌≤◌, ◌+◌, refl, [], ◌∷◌, List, length, replicate, true, arith, take_all,
}
use pocker_backend.Base.Bytes.{Bytes, codes, c_str}
use pocker_backend.Base.Results.{ok, err}
use pocker_backend.Message.{Message, body}
use pocker_backend.Json
use pocker_backend.Json.{of_parse_error}
use pocker_backend.Json.Reading.{member_error, thrown}
use pocker_backend.Rapidjson.{render}
use pocker_backend.Api.Rendered.{parse-render}
use pocker_backend.Connection.{Connection, connection}
use pocker_backend.Users.{UserCont}
use pocker_backend.Database.{DbConnectConfig, SqlppConfig, TabUser}
use pocker_backend.Database.Accounts.{IsSound, view, insert-IsSound}
use pocker_backend.Handler.State.{Env, Backend, update}
use pocker_backend.Handler.Spec.{Request, registers, text_of, perform}
use pocker_backend.Handler.Dispatch.{handle}
use pocker_backend.Handler.Reply.{running, Gains}
use pocker_backend.Handler.Landing.{specified, users_after}
use pocker_backend.Handler.Refines.{perform_refines}
use pocker_backend.Handler.Messages.{
  request_text, handle-request_text, handle_unparsed, handle_untyped,
}
use pocker_backend.Tests.ToyJson.{toy_json, toy_json-IsFaithful}
use pocker_backend.Tests.ToyTable.{toy_table, toy_table-IsRelational}

abbrev pub toy_env : Env
toy_env = record {
  rapidjson = toy_json;
  database = toy_table;
  sha512 = λ s. s;
  hex = λ s. s;
  memory = replicate 2048 0;
}

abbrev pub config : DbConnectConfig
config = record {
  db_host = codes "host";
  db_name = codes "name";
  db_user = codes "user";
  db_pass = codes "pass";
  db_pass_salt = codes "salt";
}

abbrev pub sqlpp_config : SqlppConfig
sqlpp_config = record {
  host = codes "host";
  user = codes "user";
  password = codes "pass";
  dbname = codes "name";
}

abbrev pub alice : TabUser
alice = record {
  nickname = codes "alice";
  user_id = 1;
  email = codes "a@b";
  pass_hash = codes "hash";
}

abbrev pub table : List TabUser
table = alice ∷ []

abbrev pub peers : ℕ → Connection
peers i = connection []

abbrev pub users : UserCont
users = []

pub empty-IsSound : IsSound toy_table []
empty-IsSound = record { one_row = λ e. omega arith; own_ids = λ e f a b h. cc }

pub table-IsSound : IsSound toy_table table
table-IsSound =
    insert-IsSound toy_table toy_table-IsRelational [] empty-IsSound alice refl refl refl

abbrev pub bob : Request
bob = registers (codes "bob") (codes "b@b") (codes "pw")

pub memory_full : length (toy_env.memory) ≡ 2048
memory_full = refl

-- Bob registers beside Alice.
perform_refines_example :
    (d : List TabUser) × (c' : Connection) × (perform toy_env bob 7
        (running toy_env config sqlpp_config users (7 ∷ []) peers table)
      ≡ (
        ok tt,
        running toy_env config sqlpp_config
            (users_after toy_env config sqlpp_config users (7 ∷ []) peers table bob 7)
            (7 ∷ [])
            (update toy_env peers 7 c')
            d,
      ))
    × IsSound toy_table d
    × (view toy_table d ≡ (specified toy_env config sqlpp_config users (7 ∷ []) peers table bob).0)
    × (toy_table.max_user_id d ≤ toy_table.max_user_id table + 1)
    × Gains
        (text_of toy_json (specified toy_env config sqlpp_config users (7 ∷ []) peers table bob).1)
        (peers 7)
        c'
perform_refines_example =
    perform_refines toy_env config sqlpp_config users (7 ∷ []) peers table toy_json-IsFaithful
      toy_table-IsRelational table-IsSound (λ q. refl) (omega arith) bob 7 memory_full

abbrev backend : Backend toy_env
backend = running toy_env config sqlpp_config users (7 ∷ []) peers table

-- A message with this body.
abbrev pub holding : Bytes → Message
holding s = record { buffer = 0 ∷ 0 ∷ 0 ∷ 0 ∷ s; body_length = length s }

pub body-holding : (s : Bytes) → body (holding s) ≡ s
unfolding body
body-holding s = take_all (length s) s (omega arith)

handle-request_text_example :
    handle toy_env (holding (request_text toy_json bob)) 7 backend ≡ perform toy_env bob 7 backend
handle-request_text_example =
    handle-request_text toy_env (holding (request_text toy_json bob)) 7 backend bob
      toy_json-IsFaithful (omega arith, omega arith, omega arith)
      (body-holding (request_text toy_json bob))

-- No brace.
oops_refused :
    toy_json.has_parse_error (toy_json.parse (c_str (body (holding (codes "oops"))))) ≡ true
unfolding c_str body
oops_refused = refl

handle_unparsed_example : handle toy_env (holding (codes "oops")) 7 backend ≡ (
  err (
      thrown
        (of_parse_error
          (toy_json.get_parse_error (toy_json.parse (c_str (body (holding (codes "oops")))))))
        (codes "json:")
        (body (holding (codes "oops")))),
  backend,
)
handle_unparsed_example =
    handle_unparsed toy_env (holding (codes "oops")) 7 backend toy_json-IsFaithful oops_refused

-- An object without fields.
abbrev empty_object : toy_json.Document
empty_object = toy_json.parse (render toy_json [])

handle_untyped_example : handle toy_env (holding (render toy_json [])) 7 backend ≡ (
  err (member_error toy_json (codes "type") (toy_json.member empty_object (c_str (codes "type")))),
  backend,
)
handle_untyped_example =
    handle_untyped toy_env (holding (render toy_json [])) 7 backend empty_object
      (ap (Json.parse toy_json) (body-holding (render toy_json []))
        ∙ parse-render toy_json toy_json-IsFaithful [])
      refl (λ s has. absurd (cc (has.1)))
