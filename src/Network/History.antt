-- ===== src/Network/History.antt =====
-- What the requests were answered, by the requests and answers before them alone.
use pocker_backend.Base.{
  ℕ, ◌+◌, ◌^◌, ◌<◌, ◌≡◌, refl, ◌∙◌, ap, List, [], ◌∷◌, Bool, true, false, ◌&&◌, Option, none, some,
  inl, inr, Option-cases, length, arith, if◌then◌else◌,
}
use mathlib.Core.Option
use pocker_backend.Base.Bytes.{Bytes, beq, beq_sound}
use pocker_backend.Base.Results.{ok}
use pocker_backend.Api.Codes.{RegisterCode, UnregisterCode}
use pocker_backend.Rapidjson.{IsFaithful}
use pocker_backend.Connection.{Connection}
use pocker_backend.Users.{UserCont}
use pocker_backend.Database.{Query}
use pocker_backend.Database.Laws.{IsRelational}
use pocker_backend.Database.Accounts.{Accounts, view}
use pocker_backend.Handler.Register.{email_taken, registered}
use pocker_backend.Handler.Login.{email_unknown, pass_incorrect, logged_in}
use pocker_backend.Handler.Unregister.{invalid_email, invalid_pass, unregistered}
use pocker_backend.Handler.Branches.{hashed}
use pocker_backend.Handler.Spec.{
  Request, registers, logs_in, unregisters, Answer, to_register, to_login, to_unregister, spec,
}
use pocker_backend.Client.{IsFifo}
use pocker_backend.Terminal.Words.{IsSplitting}
use pocker_backend.Network.{Kind, run}
use pocker_backend.Network.Phase.{Log, Phase}
use pocker_backend.Network.Holds.{AllJoined, Setup, programs, Net, Follows, nothing, one_more}
use pocker_backend.Network.Linear.{Ready, start_of, Linearized}
use pocker_backend.Network.Schedules.{run_linearizes}

abbrev email_of : Request → Bytes
email_of (registers _ email _) = email
email_of (logs_in email _) = email
email_of (unregisters email _) = email

abbrev registers_it : RegisterCode → Bool
registers_it RegisterCode.ok = true
registers_it _ = false

abbrev unregisters_it : UnregisterCode → Bool
unregisters_it UnregisterCode.ok = true
unregisters_it _ = false

module _ (hash : Bytes → Bytes) where
  -- What a request that was answered makes of the stored hash of an email's password, if it has one.
  abbrev changed : Bytes → Request → Answer → Option Bytes → Option Bytes
  changed e (registers _ email pass) (to_register r) before =
      if beq email e && registers_it r.code.val then some (hash pass) else before
  changed e (unregisters email pass) (to_unregister r) before =
      if beq email e && unregisters_it r.code.val then none else before
  changed e _ _ before = before

  -- The answer, by the hash that is stored for the email of the request.
  abbrev expected : Request → Option Bytes → Answer
  expected (registers _ _ _) none = to_register registered
  expected (registers _ _ _) (some _) = to_register email_taken
  expected (logs_in _ pass) none = to_login email_unknown
  expected (logs_in _ pass) (some stored) =
      to_login (if beq stored (hash pass) then logged_in else pass_incorrect)
  expected (unregisters _ pass) none = to_unregister invalid_email
  expected (unregisters _ pass) (some stored) =
      to_unregister (if beq stored (hash pass) then unregistered else invalid_pass)

  module _ (accounts : Accounts) where
    -- The hash of an email's password: the one of the last registration that was accepted, if no accepted
    -- unregistration came after it.
    abbrev stored : Bytes → Log → Option Bytes
    stored e [] = Option.map (λ a. a.pass_hash) (accounts e)
    stored e ((_, q, answer) ∷ log) = changed e q answer (stored e log)

    -- Each answer is the one that is expected after what was answered before it.
    abbrev pub ByHistory : Log → Type 0
    ByHistory [] = Unit
    ByHistory ((_, q, answer) ∷ log) =
        (answer ≡ expected q (stored (email_of q) log)) × ByHistory log

    -- The state has the stored hashes.
    spec-changed :
        (id : ℕ) (q : Request) (a : Accounts) (e : Bytes)
        → Option.map (λ b. b.pass_hash) ((spec hash id q a).0 e)
          ≡ changed e q ((spec hash id q a).1) (Option.map (λ b. b.pass_hash) (a e))
    spec-changed id (registers nick f pass) a e = elim (Option-cases (a f)) [
      | inl free ↦ ground (arith, free, beq_sound f e)
      | inr (b, taken) ↦ ground (arith, taken)
    ]
    spec-changed id (logs_in f pass) a e = elim (Option-cases (a f)) [
      | inl free ↦ ground (arith, free)
      | inr (b, taken) ↦ ground (arith, taken)
    ]
    spec-changed id (unregisters f pass) a e = elim (Option-cases (a f)) [
      | inl free ↦ ground (arith, free)
      | inr (b, taken) ↦ ground (arith, taken, beq_sound f e)
    ]

    spec-expected :
        (id : ℕ) (q : Request) (a : Accounts)
        → (spec hash id q a).1 ≡ expected q (Option.map (λ b. b.pass_hash) (a (email_of q)))
    spec-expected id (registers nick f pass) a = elim (Option-cases (a f)) [
      | inl free ↦ ground (arith, free)
      | inr (b, taken) ↦ ground (arith, taken)
    ]
    spec-expected id (logs_in f pass) a = elim (Option-cases (a f)) [
      | inl free ↦ ground (arith, free)
      | inr (b, taken) ↦ ground (arith, taken)
    ]
    spec-expected id (unregisters f pass) a = elim (Option-cases (a f)) [
      | inl free ↦ ground (arith, free)
      | inr (b, taken) ↦ ground (arith, taken)
    ]

    -- The accounts that come about by a log have the hashes that its history says.
    Follows-stored :
        {users : UserCont} {log : Log} {a : Accounts} {u : UserCont}
        → Follows hash accounts users log a u
        → (e : Bytes) → Option.map (λ b. b.pass_hash) (a e) ≡ stored e log
    Follows-stored nothing e = refl
    Follows-stored (one_more {log} {a} id i q before fresh) e =
        spec-changed id q a e ∙ ap (changed e q ((spec hash id q a).1)) (Follows-stored before e)

    Follows-ByHistory :
        {users : UserCont} {log : Log} {a : Accounts} {u : UserCont}
        → Follows hash accounts users log a u
        → ByHistory log
    Follows-ByHistory nothing = tt
    Follows-ByHistory (one_more {log} {a} id i q before fresh) = (
      spec-expected id q a ∙ ap (expected q) (Follows-stored before (email_of q)),
      Follows-ByHistory before,
    )

module _ (S : Setup) (fifo : IsFifo (S.queue)) (json : IsFaithful (S.env.rapidjson))
    (laws : IsRelational (S.env.database))
    (took : (q : Query) (d : S.env.database.Db) → S.env.database.accepts q d ≡ true)
    (memory_full : length (S.env.memory) ≡ 2048) (splits : IsSplitting (S.split))
    (room : length (S.garbage) ≡ 2048)
    (blocks : (q : S.queue.Queue) → fifo.items q ≡ [] → S.queue.wait_dequeue q ≡ none) where
  -- As for `run_linearizes`: whatever the schedule, in the order of the requests that were served each
  -- answer is the one that the requests and answers before it say. A registration is accepted exactly if the
  -- email has no password then, which is the one of the last accepted registration, or of the account at
  -- the start, if no accepted unregistration came after it; and a login is accepted exactly if the email has
  -- a password with the same stored hash.
  pub answers-ByHistory :
      (joined : ℕ → Bool) (phases : ℕ → Phase) (requests : ℕ → List Request) (n : Net S)
      (users : UserCont) (conns : ℕ → Connection) (db : S.env.database.Db) (ks : List (Kind × ℕ))
      → Ready S fifo joined phases requests n users conns db
      → AllJoined joined ks
      → S.env.database.max_user_id db + length ks < 2 ^ 63
      → (n' : Net S) × (run (S.env) (programs S) ks n ≡ ok n')
        × (log : Log) × Linearized S (start_of S joined phases requests n users db) log n'
        × ByHistory (hashed (S.env) (S.config)) (view (S.env.database) db) log
  answers-ByHistory joined phases requests n users conns db ks ready all_in small =
      let (n', _, ran, _, log, _, l, _) =
        run_linearizes S fifo json laws took memory_full splits room blocks joined phases requests n
          users conns db ks [] ready all_in tt (omega arith) in
      (n', ran, log, l, Follows-ByHistory _ _ l.follows)
