-- ===== src/Handler/Landing.antt =====
-- Each request comes down to a reply, from a state that the specification allows.
use pocker_backend.Base.{
  ℕ, ◌+◌, ◌^◌, ◌<◌, ◌≤◌, ◌≡◌, refl, ◌∙◌, inl, inr, List, [], ◌∷◌, length, arith, Bool-cases, subst,
}
use pocker_backend.Base.Bytes.{Bytes, beq}
use pocker_backend.Rapidjson.{IsFaithful}
use pocker_backend.Connection.{Connection}
use pocker_backend.Users.{UserCont}
use pocker_backend.Database.{DbConnectConfig, SqlppConfig, TabUser}
use pocker_backend.Database.Laws.{IsRelational}
use pocker_backend.Database.Accounts.{
  Accounts, IsSound, view, view-insert, view-remove, insert-IsSound, remove-IsSound,
}
use pocker_backend.Handler.State.{Env, reply}
use pocker_backend.Handler.Register.{email_taken, registered}
use pocker_backend.Handler.Login.{email_unknown, pass_incorrect, logged_in}
use pocker_backend.Handler.Unregister.{invalid_email, invalid_pass, unregistered}
use pocker_backend.Handler.Spec.{
  Request, registers, logs_in, unregisters, Answer, to_register, to_login, to_unregister, text_of,
  perform, spec, spec_users,
}
use pocker_backend.Handler.Reply.{running}
use pocker_backend.Handler.Branches.{
  hashed, Accepts, own_email, register_taken, register_new, login_unknown, login_right, login_wrong,
  unregister_unknown, unregister_right, unregister_wrong,
}
use pocker_backend.Handler.Fits.{
  Fits, email_taken-Fits, registered-Fits, email_unknown-Fits, pass_incorrect-Fits, logged_in-Fits,
  invalid_email-Fits, invalid_pass-Fits, unregistered-Fits,
}

module _ (E : Env) (c : DbConnectConfig) (s : SqlppConfig) (users : UserCont) (ps : List ℕ)
    (conns : ℕ → Connection) (db : E.database.Db) where
  -- What the specification makes of a request at this state.
  abbrev pub specified : Request → Accounts × Answer
  specified q = spec (hashed E c) (E.database.max_user_id db + 1) q (view (E.database) db)

  abbrev pub users_after : Request → ℕ → UserCont
  users_after q sender = spec_users (hashed E c) (view (E.database) db) sender q users

  -- The request comes down to a reply with the specified answer, which fits a message, from a state
  -- with the specified users and a sound database that shows the specified accounts.
  pub record Lands (q : Request) (sender : ℕ) (answer : Answer) (us : UserCont) (d : E.database.Db)
      : Type 0 where
    pub replies :
        perform E q sender (running E c s users ps conns db)
        ≡ reply E (text_of (E.rapidjson) answer) sender (running E c s us ps conns d)
    pub fits : Fits (E.rapidjson) answer
    pub sound : IsSound (E.database) d
    pub shows : view (E.database) d ≡ (specified q).0
    pub answers : answer ≡ (specified q).1
    pub logged : us ≡ users_after q sender
    pub grows : E.database.max_user_id d ≤ E.database.max_user_id db + 1

  abbrev pub LandsSome : Request → ℕ → Type 0
  LandsSome q sender =
      (answer : Answer) × (us : UserCont) × (d : E.database.Db) × Lands q sender answer us d

  module _ (json : IsFaithful (E.rapidjson)) (laws : IsRelational (E.database))
      (sound : IsSound (E.database) db) (took : Accepts E c s users ps conns db)
      (small : E.database.max_user_id db + 1 < 2 ^ 63) where
    insert_grows :
        (r : TabUser)
        → r.user_id ≡ E.database.max_user_id db + 1
        → E.database.max_user_id (E.database.insert_row r db) ≤ E.database.max_user_id db + 1
    insert_grows r next = elim (laws.max_insert r db (took _)) [
      | inl le ↦ omega arith
      | inr le ↦ omega arith
    ]

    register_lands :
        (nickname email pass : Bytes) (sender : ℕ) (rows : List TabUser)
        → E.database.select_rows email db ≡ rows
        → LandsSome (registers nickname email pass) sender
    register_lands nickname email pass sender [] found = (
      to_register registered,
      _,
      _,
      record {
        replies =
            register_new E c s users ps conns db laws took nickname email pass sender found small;
        fits = registered-Fits (E.rapidjson) json;
        sound = insert-IsSound (E.database) laws db sound _ (took _) found refl;
        shows = view-insert (E.database) laws db sound _ (took _) found ∙ ground (arith, found);
        answers = ground (arith, found);
        grows = insert_grows _ refl;
        logged = refl;
      },
    )
    register_lands nickname email pass sender (r ∷ rows) found = (
      to_register email_taken,
      _,
      _,
      record {
        replies =
            register_taken E c s users ps conns db laws took nickname email pass sender r rows
              found;
        fits = email_taken-Fits (E.rapidjson) json;
        sound = sound;
        shows = ground (arith, found);
        answers = ground (arith, found);
        grows = omega arith;
        logged = refl;
      },
    )

    login_known :
        (email pass : Bytes) (sender : ℕ) (r : TabUser)
        → E.database.select_rows email db ≡ r ∷ []
        → LandsSome (logs_in email pass) sender
    login_known email pass sender r found = elim (Bool-cases (beq r.pass_hash (hashed E c pass))) [
      | inl right ↦ (
        to_login logged_in,
        _,
        _,
        record {
          replies =
              login_right E c s users ps conns db laws took email pass sender r [] found right;
          fits = logged_in-Fits (E.rapidjson) json;
          sound = sound;
          shows = ground (arith, found);
          answers = ground (arith, found, right);
          grows = omega arith;
          logged =
              ground (arith, found, right, own_email E c s users ps conns db laws email r [] found);
        },
      )
      | inr wrong ↦ (
        to_login pass_incorrect,
        _,
        _,
        record {
          replies = login_wrong E c s users ps conns db laws took email pass sender r found wrong;
          fits = pass_incorrect-Fits (E.rapidjson) json;
          sound = sound;
          shows = ground (arith, found);
          answers = ground (arith, found, wrong);
          grows = omega arith;
          logged = ground (arith, found, wrong);
        },
      )
    ]

    login_lands :
        (email pass : Bytes) (sender : ℕ) (rows : List TabUser)
        → E.database.select_rows email db ≡ rows
        → LandsSome (logs_in email pass) sender
    login_lands email pass sender [] found = (
      to_login email_unknown,
      _,
      _,
      record {
        replies = login_unknown E c s users ps conns db laws took email pass sender found;
        fits = email_unknown-Fits (E.rapidjson) json;
        sound = sound;
        shows = ground (arith, found);
        answers = ground (arith, found);
        grows = omega arith;
        logged = ground (arith, found);
      },
    )
    login_lands email pass sender (r ∷ []) found = login_known email pass sender r found
    login_lands email pass sender (r ∷ q ∷ rows) found =
        let one : length (r ∷ q ∷ rows) ≤ 1 =
          subst (λ l. length l ≤ 1) found (sound.one_row email) in
        absurd (omega arith)

    unregister_known :
        (email pass : Bytes) (sender : ℕ) (r : TabUser) (rows : List TabUser)
        → E.database.select_rows email db ≡ r ∷ rows
        → LandsSome (unregisters email pass) sender
    unregister_known email pass sender r rows found =
        elim (Bool-cases (beq r.pass_hash (hashed E c pass))) [
          | inl right ↦ (
            to_unregister unregistered,
            _,
            _,
            record {
              replies =
                  unregister_right E c s users ps conns db laws took email pass sender r rows found
                    right;
              fits = unregistered-Fits (E.rapidjson) json;
              sound = remove-IsSound (E.database) laws db sound email (took _);
              shows =
                  view-remove (E.database) laws db sound email (took _)
                  ∙ ground (arith, found, right);
              answers = ground (arith, found, right);
              grows = omega (arith, laws.max_remove email db (took _));
              logged = refl;
            },
          )
          | inr wrong ↦ (
            to_unregister invalid_pass,
            _,
            _,
            record {
              replies =
                  unregister_wrong E c s users ps conns db laws took email pass sender r rows found
                    wrong;
              fits = invalid_pass-Fits (E.rapidjson) json;
              sound = sound;
              shows = ground (arith, found, wrong);
              answers = ground (arith, found, wrong);
              grows = omega arith;
              logged = refl;
            },
          )
        ]

    unregister_lands :
        (email pass : Bytes) (sender : ℕ) (rows : List TabUser)
        → E.database.select_rows email db ≡ rows
        → LandsSome (unregisters email pass) sender
    unregister_lands email pass sender [] found = (
      to_unregister invalid_email,
      _,
      _,
      record {
        replies = unregister_unknown E c s users ps conns db laws took email pass sender found;
        fits = invalid_email-Fits (E.rapidjson) json;
        sound = sound;
        shows = ground (arith, found);
        answers = ground (arith, found);
        grows = omega arith;
        logged = refl;
      },
    )
    unregister_lands email pass sender (r ∷ rows) found =
        unregister_known email pass sender r rows found

    pub lands : (q : Request) (sender : ℕ) → LandsSome q sender
    lands (registers nickname email pass) sender = register_lands nickname email pass sender _ refl
    lands (logs_in email pass) sender = login_lands email pass sender _ refl
    lands (unregisters email pass) sender = unregister_lands email pass sender _ refl
