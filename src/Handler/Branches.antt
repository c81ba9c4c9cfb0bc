-- ===== src/Handler/Branches.antt =====
-- Each branch of the three handlers, on a backend whose database takes the queries: the reply, and
-- the state that it is sent from.
use pocker_backend.Base.{
  ℕ, ◌+◌, ◌^◌, ◌<◌, ◌≡◌, List, [], ◌∷◌, ◌++◌, true, false, arith, lt→ltb, subst,
}
use pocker_backend.Base.Bytes.{Bytes, beq, beq_refl}
use pocker_backend.Base.Results.{ok}
use pocker_backend.Connection.{Connection}
use pocker_backend.Users.{UserCont, add_user}
use pocker_backend.Database.{DbConnectConfig, SqlppConfig, Query, TabUser}
use pocker_backend.Database.Laws.{All, IsRelational}
use pocker_backend.Handler.State.{
  Env, Backend, hash, reply, salt, ask, set_db, select_by_email, select_max_id, insert_into,
  remove_from, add_to_server,
}
use pocker_backend.Handler.Register.{email_taken, registered, is_taken, add_row, register_user}
use pocker_backend.Handler.Login.{
  email_unknown, pass_incorrect, logged_in, user_of, find_pass, check_pass, log_in,
}
use pocker_backend.Handler.Unregister.{
  invalid_email, invalid_pass, unregistered, find_email, remove_user, unregister_user,
}
use pocker_backend.Handler.Spec.{
  registers, logs_in, unregisters, to_register, to_login, to_unregister, text_of, perform,
}
use pocker_backend.Handler.Reply.{running}

-- What is stored of a password hash.
abbrev pub hashed : Env → DbConnectConfig → Bytes → Bytes
hashed E c pass = hash E (pass ++ c.db_pass_salt)

module _ (E : Env) (c : DbConnectConfig) (s : SqlppConfig) (users : UserCont) (ps : List ℕ)
    (conns : ℕ → Connection) (db : E.database.Db) where
  -- The backend at hand, and with another database and other users.
  abbrev pub at : UserCont → E.database.Db → Backend E
  at us d = running E c s us ps conns d

  -- The database takes every query that the handlers make at this state.
  abbrev pub Accepts : Type 0
  Accepts = (q : Query) → E.database.accepts q db ≡ true

  module _ (laws : IsRelational (E.database)) where
    -- A selected row has the email of the query.
    pub own_email :
        (email : Bytes) (r : TabUser) (rows : List TabUser)
        → E.database.select_rows email db ≡ r ∷ rows
        → r.email ≡ email
    own_email email r rows found =
        (subst (All (λ r. r.email ≡ email)) found (laws.selected_email email db)).0

    beq-own_email :
        (email : Bytes) (r : TabUser) (rows : List TabUser)
        → E.database.select_rows email db ≡ r ∷ rows
        → beq r.email email ≡ true
    beq-own_email email r rows found = rw (own_email email r rows found) (beq_refl email)

    module _ (took : Accepts) where
      -- What each step does at this state.
      select_run :
          (email : Bytes)
          → select_by_email E email (at users db)
            ≡ (ok (E.database.select_rows email db), at users db)
      unfolding select_by_email ask
      select_run email = ground (arith, took (Query.select email))

      max_run : select_max_id E (at users db) ≡ (ok (E.database.max_user_id db), at users db)
      unfolding select_max_id ask
      max_run = ground (arith, took Query.max_id)

      insert_run :
          (r : TabUser)
          → insert_into E r (at users db) ≡ (ok tt, at users (E.database.insert_row r db))
      unfolding insert_into ask set_db
      insert_run r = ground (arith, took (Query.insert r))

      remove_run :
          (email : Bytes)
          → remove_from E email (at users db) ≡ (ok tt, at users (E.database.remove_rows email db))
      unfolding remove_from ask set_db
      remove_run email = ground (arith, took (Query.remove email))

      pub register_taken :
          (nickname email pass : Bytes) (sender : ℕ) (r : TabUser) (rows : List TabUser)
          → E.database.select_rows email db ≡ r ∷ rows
          → perform E (registers nickname email pass) sender (at users db)
            ≡ reply E (text_of (E.rapidjson) (to_register email_taken)) sender (at users db)
      unfolding register_user is_taken
      register_taken nickname email pass sender r rows found =
          ground (arith, select_run email, found, beq-own_email email r rows found)

      pub register_new :
          (nickname email pass : Bytes) (sender : ℕ)
          → E.database.select_rows email db ≡ []
          → E.database.max_user_id db + 1 < 2 ^ 63
          → perform E (registers nickname email pass) sender (at users db)
            ≡ reply E (text_of (E.rapidjson) (to_register registered)) sender (
                at users (
                  E.database.insert_row
                    (record {
                      nickname = nickname;
                      user_id = E.database.max_user_id db + 1;
                      email = email;
                      pass_hash = hashed E c pass;
                    })
                    db))
      unfolding register_user add_row salt is_taken
      register_new nickname email pass sender found small = ground (
        arith,
        select_run email,
        found,
        max_run,
        lt→ltb _ _ small,
        insert_run (record {
          nickname = nickname;
          user_id = E.database.max_user_id db + 1;
          email = email;
          pass_hash = hashed E c pass;
        }),
      )

      pub login_unknown :
          (email pass : Bytes) (sender : ℕ)
          → E.database.select_rows email db ≡ []
          → perform E (logs_in email pass) sender (at users db)
            ≡ reply E (text_of (E.rapidjson) (to_login email_unknown)) sender (at users db)
      unfolding log_in check_pass salt
      login_unknown email pass sender found = ground (arith, select_run email, found)

      pub login_right :
          (email pass : Bytes) (sender : ℕ) (r : TabUser) (rows : List TabUser)
          → E.database.select_rows email db ≡ r ∷ rows
          → beq r.pass_hash (hashed E c pass) ≡ true
          → perform E (logs_in email pass) sender (at users db)
            ≡ reply E
                (text_of (E.rapidjson) (to_login logged_in))
                sender
                (at (add_user (user_of r sender) users) db)
      unfolding log_in check_pass find_pass salt add_to_server
      login_right email pass sender r rows found right =
          ground (arith, select_run email, found, right)

      pub login_wrong :
          (email pass : Bytes) (sender : ℕ) (r : TabUser)
          → E.database.select_rows email db ≡ r ∷ []
          → beq r.pass_hash (hashed E c pass) ≡ false
          → perform E (logs_in email pass) sender (at users db)
            ≡ reply E (text_of (E.rapidjson) (to_login pass_incorrect)) sender (at users db)
      unfolding log_in check_pass find_pass salt
      login_wrong email pass sender r found wrong = ground (arith, select_run email, found, wrong)

      pub unregister_unknown :
          (email pass : Bytes) (sender : ℕ)
          → E.database.select_rows email db ≡ []
          → perform E (unregisters email pass) sender (at users db)
            ≡ reply E (text_of (E.rapidjson) (to_unregister invalid_email)) sender (at users db)
      unfolding unregister_user remove_user find_email salt
      unregister_unknown email pass sender found = ground (arith, select_run email, found)

      pub unregister_right :
          (email pass : Bytes) (sender : ℕ) (r : TabUser) (rows : List TabUser)
          → E.database.select_rows email db ≡ r ∷ rows
          → beq r.pass_hash (hashed E c pass) ≡ true
          → perform E (unregisters email pass) sender (at users db)
            ≡ reply E
                (text_of (E.rapidjson) (to_unregister unregistered))
                sender
                (at users (E.database.remove_rows email db))
      unfolding unregister_user remove_user find_email salt
      unregister_right email pass sender r rows found right = ground (
        arith,
        select_run email,
        found,
        beq-own_email email r rows found,
        right,
        remove_run email,
      )

      pub unregister_wrong :
          (email pass : Bytes) (sender : ℕ) (r : TabUser) (rows : List TabUser)
          → E.database.select_rows email db ≡ r ∷ rows
          → beq r.pass_hash (hashed E c pass) ≡ false
          → perform E (unregisters email pass) sender (at users db)
            ≡ reply E (text_of (E.rapidjson) (to_unregister invalid_pass)) sender (at users db)
      unfolding unregister_user remove_user find_email salt
      unregister_wrong email pass sender r rows found wrong =
          ground (arith, select_run email, found, beq-own_email email r rows found, wrong)
