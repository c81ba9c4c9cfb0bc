-- ===== src/Network/Races.antt =====
-- Clients that race for an email: one registration is accepted, whatever the schedule.
use pocker_backend.Base.{
  sym, ℕ, ◌+◌, ◌^◌, ◌<◌, ◌≡◌, refl, List, [], ◌∷◌, ◌++◌, Bool, true, false, ◌&&◌, Option, none,
  some, inl, inr, Option-cases, Bool-cases, length, arith, if◌then◌else◌, subst, ==_refl, ◌==◌,
}
use pocker_backend.Base.Bytes.{Bytes, beq, beq_sound}
use pocker_backend.Base.Results.{ok}
use pocker_backend.Api.Codes.{RegisterCode}
use pocker_backend.Rapidjson.{IsFaithful}
use pocker_backend.Connection.{Connection}
use pocker_backend.Users.{UserCont}
use pocker_backend.Database.{Query}
use pocker_backend.Database.Laws.{IsRelational}
use pocker_backend.Database.Accounts.{Account, Accounts, view}
use pocker_backend.Handler.Spec.{Request, registers, logs_in, unregisters, Answer, to_register}
use pocker_backend.Client.{IsFifo}
use pocker_backend.Terminal.{Tools}
use pocker_backend.Terminal.Words.{IsSplitting}
use pocker_backend.Terminal.Lines.{Typed, types_register, types_login}
use pocker_backend.Network.{Kind, run}
use pocker_backend.Network.Phase.{Log, Phase, TypedAll, asked_by}
use pocker_backend.Network.Holds.{AllJoined, Setup, programs, Net, Follows, nothing, one_more}
use pocker_backend.Network.Linear.{Ready, start_of, Linearized}
use pocker_backend.Network.Schedules.{run_linearizes}

abbrev is_ok : RegisterCode → Bool
is_ok RegisterCode.ok = true
is_ok _ = false

-- Was this request answered by a registration of the email.
abbrev accepted : Bytes → Request → Answer → Bool
accepted e (registers _ f _) (to_register r) = beq f e && is_ok r.code.val
accepted e _ _ = false

-- How many registrations of an email were accepted.
abbrev pub registrations : Bytes → Log → ℕ
registrations e [] = 0
registrations e ((_, q, answer) ∷ log) =
    (if accepted e q answer then 1 else 0) + registrations e log

abbrev pub there : Option Account → ℕ
there none = 0
there (some a) = 1

-- A request that a line can be typed for.
abbrev pub IsTypable : Request → Type 0
IsTypable (unregisters _ _) = ⊥
IsTypable _ = Unit

abbrev pub AllTypable : Log → Type 0
AllTypable [] = Unit
AllTypable ((_, q, _) ∷ log) = IsTypable q × AllTypable log

module _ (hash : Bytes → Bytes) (a₀ : Accounts) (u₀ : UserCont) (e : Bytes) where
  -- Each registration that is accepted adds one account for the email, and none is taken away.
  pub balance :
      {log : Log} {a : Accounts} {u : UserCont}
      → Follows hash a₀ u₀ log a u
      → AllTypable log
      → there (a₀ e) + registrations e log ≡ there (a e)
  balance nothing typable = omega arith
  balance (one_more {log} {a} {u} id i (registers nick f pass) before fresh) (_, typable) =
      let ih = balance before typable in
      elim (Option-cases (a f)) [
        | inl free ↦ ground (arith, free, beq_sound f e)
        | inr (b, taken) ↦ ground (arith, taken)
      ]
  balance (one_more {log} {a} {u} id i (logs_in f pass) before fresh) (_, typable) =
      let ih = balance before typable in
      elim (Option-cases (a f)) [
        | inl free ↦ ground (arith, free)
        | inr (b, taken) ↦ ground (arith, taken)
      ]
  balance (one_more id i (unregisters f pass) before fresh) (cannot, typable) = absurd cannot

abbrev AllTypables : List Request → Type 0
AllTypables [] = Unit
AllTypables (q ∷ qs) = IsTypable q × AllTypables qs

-- What a line is typed for can be typed.
Typed-IsTypable : {T : Tools} (line : Bytes) (q : Request) → Typed T line q → IsTypable q
Typed-IsTypable _ _ (types_register _ _ _ _ _ _ _ _ _ _ _ _ _) = tt
Typed-IsTypable _ _ (types_login _ _ _ _ _ _ _ _ _ _ _) = tt

typed_typable :
    (T : Tools) (lines : List Bytes) (qs : List Request) → TypedAll T lines qs → AllTypables qs
typed_typable T [] [] typed = tt
typed_typable T [] (q ∷ qs) typed = absurd (cc)
typed_typable T (line ∷ lines) [] typed = absurd typed
typed_typable T (line ∷ lines) (q ∷ qs) (typed, sendable, rest) =
    (Typed-IsTypable line q typed, typed_typable T lines qs rest)

parts_typable : (qs rs : List Request) → AllTypables (qs ++ rs) → AllTypables qs × AllTypables rs
parts_typable [] rs all = (tt, all)
parts_typable (q ∷ qs) rs (first, rest) =
    let (left, right) = parts_typable qs rs rest in ((first, left), right)

-- If each client asks typable requests only, the log has only these.
log_typable : (log : Log) → ((i : ℕ) → AllTypables (asked_by i log)) → AllTypable log
log_typable [] all = tt
log_typable ((j, q, answer) ∷ log) all = (
  (parts_typable (asked_by j log) (q ∷ []) (subst AllTypables (rw (==_refl j) refl) (all j))).1.0,
  log_typable log (λ i. elim (Bool-cases (j == i)) [
    | inl e ↦ (parts_typable (asked_by i log) (q ∷ []) (subst AllTypables (rw e refl) (all i))).0
    | inr e ↦ subst AllTypables (rw e refl) (all i)
  ]),
)

module _ (S : Setup) (fifo : IsFifo (S.queue)) (json : IsFaithful (S.env.rapidjson))
    (laws : IsRelational (S.env.database))
    (took : (q : Query) (d : S.env.database.Db) → S.env.database.accepts q d ≡ true)
    (memory_full : length (S.env.memory) ≡ 2048) (splits : IsSplitting (S.split))
    (room : length (S.garbage) ≡ 2048)
    (blocks : (q : S.queue.Queue) → fifo.items q ≡ [] → S.queue.wait_dequeue q ≡ none) where
  -- As for `run_linearizes`: whatever the schedule, and however many clients register with one email,
  -- in the order of the requests that were served one registration of the email is accepted, or none; and the
  -- email has an account at the end exactly if it had one at the start, in which case none is accepted, or
  -- a registration of it is accepted.
  pub registers_once :
      (joined : ℕ → Bool) (phases : ℕ → Phase) (requests : ℕ → List Request) (n : Net S)
      (users : UserCont) (conns : ℕ → Connection) (db : S.env.database.Db) (ks : List (Kind × ℕ))
      (e : Bytes)
      → Ready S fifo joined phases requests n users conns db
      → AllJoined joined ks
      → S.env.database.max_user_id db + length ks < 2 ^ 63
      → (n' : Net S) × (run (S.env) (programs S) ks n ≡ ok n')
        × (log : Log) × (l : Linearized S (start_of S joined phases requests n users db) log n')
        × (there (view (S.env.database) db e) + registrations e log
            ≡ there (view (S.env.database) l.db e))
  registers_once joined phases requests n users conns db ks e ready all_in small =
      let (n', _, ran, _, log, _, l, _) =
        run_linearizes S fifo json laws took memory_full splits room blocks joined phases requests n
          users conns db ks [] ready all_in tt (omega arith) in
      let asked : (i : ℕ) → AllTypables (asked_by i log) = λ i. elim (Bool-cases (joined i)) [
        | inl is_in ↦
            let (x, _, _, typed) = ready.there i is_in in
            let client = l.clients i is_in in
            (parts_typable (asked_by i log) (client.flight ++ client.todo) (
              subst AllTypables client.asks
                (typed_typable (programs S) x.input (requests i) typed))).0
        | inr out ↦ subst AllTypables (sym (l.others i out)) tt
      ] in
      (n', ran, log, l, balance _ _ users e l.follows (log_typable log asked))
