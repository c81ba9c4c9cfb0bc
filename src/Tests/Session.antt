-- ===== src/Tests/Session.antt =====
-- A new user registers, logs in and unregisters, as in tests/login_test.
use pocker_backend.Base.{ℕ, ◌≡◌, refl, List, [], ◌∷◌, arith}
use pocker_backend.Base.Bytes.{codes}
use pocker_backend.Base.Results.{ok}
use pocker_backend.Message.{Message}
use pocker_backend.Connection.{Connection}
use pocker_backend.Users.{UserCont}
use pocker_backend.Database.{TabUser}
use pocker_backend.Database.Accounts.{IsSound, view}
use pocker_backend.Handler.Spec.{Request, registers, logs_in, unregisters}
use pocker_backend.Handler.Reply.{running}
use pocker_backend.Handler.Branches.{hashed}
use pocker_backend.Handler.Messages.{request_text}
use pocker_backend.Handler.Session.{serve, Follows, serve_refines}
use pocker_backend.Tests.ToyJson.{toy_json, toy_json-IsFaithful}
use pocker_backend.Tests.ToyTable.{toy_table, toy_table-IsRelational}
use pocker_backend.Tests.Backend.{
  toy_env, config, sqlpp_config, table, peers, users, holding, body-holding, table-IsSound,
  memory_full,
}

abbrev requests : List Request
requests =
    registers (codes "bob") (codes "b@b") (codes "pw")
    ∷ logs_in (codes "b@b") (codes "pw")
    ∷ unregisters (codes "b@b") (codes "pw")
    ∷ []

abbrev carried : Request → Message
carried q = holding (request_text toy_json q)

abbrev incoming : List (Message × ℕ)
incoming =
    (carried (registers (codes "bob") (codes "b@b") (codes "pw")), 7)
    ∷ (carried (logs_in (codes "b@b") (codes "pw")), 7)
    ∷ (carried (unregisters (codes "b@b") (codes "pw")), 8)
    ∷ []

serve_refines_example :
    (users' : UserCont) × (conns' : ℕ → Connection) × (db' : List TabUser) × (serve toy_env incoming
        (running toy_env config sqlpp_config users (7 ∷ 8 ∷ []) peers table)
      ≡ (ok tt, running toy_env config sqlpp_config users' (7 ∷ 8 ∷ []) conns' db'))
    × IsSound toy_table db'
    × Follows (hashed toy_env config) (view toy_table table) requests (view toy_table db')
serve_refines_example =
    serve_refines toy_env config sqlpp_config (7 ∷ 8 ∷ []) memory_full toy_json-IsFaithful
      toy_table-IsRelational (λ q d. refl) requests incoming users peers table
      (
        (omega arith, omega arith, omega arith),
        body-holding _,
        (
          (omega arith, omega arith),
          body-holding _,
          ((omega arith, omega arith), body-holding _, refl),
        ),
      )
      table-IsSound (omega arith)
