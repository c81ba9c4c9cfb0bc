-- ===== src/Handler/Kept.antt =====
-- What the handlers leave alone, whatever a message holds: they change the write side of connections,
-- the users and the database, and nothing else.
use pocker_backend.Base.{ℕ, ◌≡◌, refl, ◌∙◌, List, [], ◌∷◌, Option, none, some}
use pocker_backend.Base.Bytes.{Bytes}
use pocker_backend.Base.Results.{Result, ok, err, undefined}
use pocker_backend.Message.{Message}
use pocker_backend.Connection.{Connection, deliver}
use pocker_backend.Connection.Delivery.{HasFlow, deliver_keeps, deliver-HasFlow}
use pocker_backend.Database.{Query, TabUser}
use pocker_backend.Users.{UserCont, User, add_user}
use pocker_backend.Users.Laws.{add_user-IsKeyed}
use pocker_backend.Api.Requests.{RegisterRequest, LoginRequest, UnregisterRequest}
use pocker_backend.Handler.State.{
  Env, Backend, Action, pure, lift, or_throw, ◌>>=◌, ◌>>◌, update, the_worker, salt, ask, set_db,
  select_by_email, select_max_id, insert_into, remove_from, add_to_server, deliver_to, reply,
}
use pocker_backend.Handler.Register.{add_row, register_user, handle_reg_request}
use pocker_backend.Handler.Login.{
  pass_incorrect, logged_in, user_of, check_pass, log_in, handle_login_request, find_pass,
}
use pocker_backend.Handler.Unregister.{remove_user, unregister_user, handle_unreg_request}
use pocker_backend.Handler.Dispatch.{dispatch, handle}
use pocker_backend.Handler.Keeps.{
  Keyed, Served, Keeps, Keeps-bind, Keeps-or_throw, keeps_rules, updated,
}

module _ (E : Env) (ps : List ℕ) (conns : ℕ → Connection) where
  abbrev pub Kept : {A : Type 0} → Action E A → Type 0
  Kept m = Keeps (Served E ps conns) m

  -- The worker is read, and nothing changes.
  the_worker-Kept : Kept (the_worker E)
  unfolding the_worker
  the_worker-Kept = record {
    after = λ b h. (Keeps-or_throw {P = Served E ps conns} b.db_wrkr undefined).after b h;
  }

  salt-Kept : Kept (salt E)
  unfolding salt
  salt-Kept = search (keeps_rules, the_worker-Kept)

  ruleset worker_rules = (keeps_rules, the_worker-Kept, salt-Kept)

  ask-Kept : (q : Query) → Kept (ask E q)
  unfolding ask
  ask-Kept q = search worker_rules

  set_db-Kept : (db : E.database.Db) → Kept (set_db E db)
  unfolding set_db
  set_db-Kept db =
      Keeps-bind (the_worker E)
        (λ w b. (ok tt, record b { db_wrkr = some (record w { db_connection = some db }) }))
        the_worker-Kept
        (λ w. record {
          after =
              λ b h. record { same = h.same; flow = h.flow; joined = h.joined; keyed = h.keyed };
        })

  ruleset query_rules = (worker_rules, ask-Kept, set_db-Kept)

  select_by_email-Kept : (e : Bytes) → Kept (select_by_email E e)
  unfolding select_by_email
  select_by_email-Kept e = search query_rules

  select_max_id-Kept : Kept (select_max_id E)
  unfolding select_max_id
  select_max_id-Kept = search query_rules

  insert_into-Kept : (r : TabUser) → Kept (insert_into E r)
  unfolding insert_into
  insert_into-Kept r = search query_rules

  remove_from-Kept : (e : Bytes) → Kept (remove_from E e)
  unfolding remove_from
  remove_from-Kept e = search query_rules

  -- A user who is added stands under its id.
  with_user :
      (u : User) (o : Option UserCont) (b : Backend E)
      → Keyed o
      → Served E ps conns b
      → Served E ps conns
          ((or_throw o undefined >>= λ users b. (ok tt, record b { srv = some (add_user u users) }))
            b).1
  with_user u none b k h = h
  with_user u (some users) b k h = record {
    same = h.same;
    flow = h.flow;
    joined = h.joined;
    keyed = add_user-IsKeyed u users k;
  }

  add_to_server-Kept : (u : User) → Kept (add_to_server E u)
  unfolding add_to_server
  add_to_server-Kept u = record { after = λ b h. with_user u b.srv b h.keyed h }

  delivered_to :
      (sender : ℕ) (m : Message) (b : Backend E) (r : Result Connection)
      → deliver m (b.connections sender) ≡ r
      → Served E ps conns b
      → Served E ps conns
          ((lift r >>= λ c b. (ok tt, record b { connections = update E b.connections sender c }))
            b).1
  delivered_to sender m b (err e) d h = h
  delivered_to sender m b (ok c) d h =
      let (read, reads, _) =
        deliver_keeps m (b.connections sender) c (b.connections sender).write_msgs d in
      record {
        same =
            updated E (λ j k. (k.read_msg ≡ (conns j).read_msg) × (k.reads ≡ (conns j).reads))
              b.connections sender c (read ∙ (h.same sender).0, reads ∙ (h.same sender).1) h.same;
        flow =
            updated E (λ j k. HasFlow k) b.connections sender c
              (deliver-HasFlow m (b.connections sender) c (b.connections sender).write_msgs
                (h.flow sender) d)
              h.flow;
        joined = h.joined;
        keyed = h.keyed;
      }

  pub deliver_to-Kept : (sender : ℕ) (m : Message) → Kept (deliver_to E sender m)
  unfolding deliver_to
  deliver_to-Kept sender m = record { after = λ b h. delivered_to sender m b _ refl h }

  reply-Kept : (text : Bytes) (sender : ℕ) → Kept (reply E text sender)
  unfolding reply
  reply-Kept text sender = search (keeps_rules, deliver_to-Kept)

  ruleset handler_rules = (
    query_rules, select_by_email-Kept, select_max_id-Kept, insert_into-Kept, remove_from-Kept,
    add_to_server-Kept, reply-Kept,
  )

  add_row-Kept : (req : RegisterRequest) → Kept (add_row E req)
  unfolding add_row
  add_row-Kept req = search handler_rules

  check_pass-Kept :
      (pass : Bytes) (sender : ℕ) (rows : List TabUser) → Kept (check_pass E pass sender rows)
  unfolding check_pass
  check_pass-Kept pass sender [] = search handler_rules
  check_pass-Kept pass sender (row ∷ rows) =
      elim (find_pass pass (row ∷ rows))
        as (λ o. Kept (elim o [
          | none ↦ pure pass_incorrect
          | some found ↦ add_to_server E (user_of found sender) >> pure logged_in
        ])) [ none ↦ search handler_rules | some found ↦ search handler_rules ]

  remove_user-Kept : (e pass : Bytes) (o : Option TabUser) → Kept (remove_user E e pass o)
  unfolding remove_user
  remove_user-Kept e pass none = search handler_rules
  remove_user-Kept e pass (some row) = search handler_rules

  ruleset request_rules = (handler_rules, add_row-Kept, check_pass-Kept, remove_user-Kept)

  register_user-Kept : (req : RegisterRequest) (sender : ℕ) → Kept (register_user E req sender)
  unfolding register_user
  register_user-Kept req sender = search request_rules

  log_in-Kept : (req : LoginRequest) (sender : ℕ) → Kept (log_in E req sender)
  unfolding log_in
  log_in-Kept req sender = search request_rules

  unregister_user-Kept :
      (req : UnregisterRequest) (sender : ℕ) → Kept (unregister_user E req sender)
  unfolding unregister_user
  unregister_user-Kept req sender = search request_rules

  ruleset dispatch_rules = (keeps_rules, register_user-Kept, log_in-Kept, unregister_user-Kept)

  dispatch-Kept :
      (j : E.rapidjson.Document) (val : Bytes) (sender : ℕ) → Kept (dispatch E j val sender)
  unfolding dispatch handle_reg_request handle_login_request handle_unreg_request
  dispatch-Kept j val sender = search dispatch_rules

  -- Whatever the message holds, and whether the handler returns or throws: the participants and the read
  -- side of every connection are as they were, every connection still has the shape of a queue, and the
  -- users still stand under their ids.
  pub handle-Kept : (msg : Message) (sender : ℕ) → Kept (handle E msg sender)
  unfolding handle
  handle-Kept msg sender = search (keeps_rules, dispatch-Kept)
