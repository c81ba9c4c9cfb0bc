-- ===== src/Network/Draining.antt =====
-- Every client gets all its answers.
use pocker_backend.Base.{
  Bool, ℕ, zero, suc, ◌+◌, ◌*◌, ◌^◌, ◌<◌, ◌≤◌, ◌≡◌, refl, sym, ap, ◌∙◌, List, [], ◌∷◌, ◌++◌, true,
  false, none, length, subst, arith, append-nil, if◌then◌else◌,
}
use pocker_backend.Base.Bytes.{Bytes}
use pocker_backend.Base.Results.{ok}
use pocker_backend.Rapidjson.{IsFaithful}
use pocker_backend.Connection.{Connection}
use pocker_backend.Connection.Callbacks.{ok_inj}
use pocker_backend.Users.{UserCont}
use pocker_backend.Database.{Query}
use pocker_backend.Database.Laws.{IsRelational}
use pocker_backend.Handler.Spec.{Request}
use pocker_backend.Client.{IsFifo}
use pocker_backend.Terminal.Words.{IsSplitting}
use pocker_backend.Network.{Kind, run}
use pocker_backend.Network.Phase.{Log, Phase, TypedAll, asked_by, texts_to}
use pocker_backend.Network.Stage.{Stage, idle, stage}
use pocker_backend.Network.Holds.{AllJoined, Setup, programs, Net, Start, Holds}
use pocker_backend.Network.Linear.{Ready, start_of, ServedSoFar, Linearized, Holds-Linearized}
use pocker_backend.Network.Schedules.{run-Holds, Ready-Holds}
use pocker_backend.Network.Rounds.{kinds, at_client, goes, goes_round, taken, at_rest, run_alone}

-- Everything that has to happen for some answers, one after the other.
abbrev pub rounds : ℕ → List Kind
rounds zero = []
rounds (suc k) = kinds ++ rounds k

goes-append :
    (ks more : List Kind) (st : Stage) (lines : List Bytes)
    → goes (ks ++ more) st lines ≡ goes more (goes ks st lines).0 (goes ks st lines).1
goes-append [] more st lines = refl
goes-append (k ∷ ks) more st lines = goes-append ks more _ _

length-rounds : (k : ℕ) → length (rounds k) ≡ 9 * k
length-rounds zero = refl
length-rounds (suc k) = omega (arith, length-rounds k)

-- From rest, one round takes one line.
goes-rounds :
    (k : ℕ) (lines : List Bytes) → length lines ≤ k → goes (rounds k) idle lines ≡ (idle, [])
goes-rounds zero [] few = refl
goes-rounds zero (line ∷ lines) few = absurd (omega arith)
goes-rounds (suc k) [] few = goes-rounds k [] (omega arith)
goes-rounds (suc k) (line ∷ lines) few = goes-rounds k lines (omega arith)

few_taken : (st : Stage) (lines : List Bytes) → length (taken st lines) ≤ length lines
few_taken idle [] = omega arith
few_taken idle (line ∷ lines) = omega arith
few_taken Stage.posted lines = omega arith
few_taken Stage.writing lines = omega arith
few_taken Stage.sent lines = omega arith
few_taken Stage.announced lines = omega arith
few_taken Stage.answered lines = omega arith
few_taken Stage.replied lines = omega arith
few_taken Stage.told lines = omega arith
few_taken Stage.queued lines = omega arith

-- From every stage, one more round than there are lines takes all of them.
goes_through :
    (st : Stage) (lines : List Bytes) → goes (rounds (suc (length lines))) st lines ≡ (idle, [])
goes_through st lines =
    goes-append kinds (rounds (length lines)) st lines
    ∙ ap (λ r. goes (rounds (length lines)) r.0 r.1) (goes_round st lines)
    ∙ goes-rounds (length lines) (taken st lines) (few_taken st lines)

none_left :
    (S : Setup) (lines : List Bytes) (todo : List Request)
    → lines ≡ []
    → TypedAll (programs S) lines todo
    → todo ≡ []
none_left S [] todo e typed = typed
none_left S (line ∷ lines) todo e typed = absurd (cc)

no_items {ℓ} : {A : Type ℓ} (xs : List A) → length xs ≡ 0 → xs ≡ []
no_items [] e = refl
no_items (x ∷ xs) e = absurd (omega arith)

-- A client that does not wait and has no lines has had all its answers.
served_all :
    (S : Setup) (start : Start) (log : Log) (n : Net S) (i : ℕ)
    → ServedSoFar S start log n i
    → n.input i ≡ []
    → (n.consoles i).waits ≡ false
    → (start.requests i ≡ asked_by i log)
      × ((n.consoles i).printed ≡ start.printed i ++ texts_to (S.env.rapidjson) i log)
served_all S start log n i s no_line rests =
    let one : length s.flight + length s.pending ≡ 0 = s.one ∙ ap (λ w. if w then 1 else 0) rests in
    let flight = no_items s.flight (omega arith) in
    let pending = no_items s.pending (omega arith) in
    let todo = none_left S (n.input i) s.todo no_line s.typed in
    (
      s.asks
          ∙ ap (λ qs. asked_by i log ++ (qs ++ s.todo)) flight
          ∙ ap (λ qs. asked_by i log ++ qs) todo
          ∙ append-nil (asked_by i log),
      sym (append-nil (n.consoles i).printed)
          ∙ ap (λ ts. (n.consoles i).printed ++ ts) (sym pending)
          ∙ s.shown,
    )

module _ (S : Setup) (fifo : IsFifo (S.queue)) (json : IsFaithful (S.env.rapidjson))
    (laws : IsRelational (S.env.database))
    (took : (q : Query) (d : S.env.database.Db) → S.env.database.accepts q d ≡ true)
    (memory_full : length (S.env.memory) ≡ 2048) (splits : IsSplitting (S.split))
    (room : length (S.garbage) ≡ 2048)
    (blocks : (q : S.queue.Queue) → fifo.items q ≡ [] → S.queue.wait_dequeue q ≡ none) where
  -- As for `run_linearizes`, whatever schedule has run: when everything that has to happen for an answer then
  -- happens at a client, in order, once more often than it has lines left, no error happens. The
  -- client has then no line left and does not wait; all requests that it was to ask have been served, in an
  -- order of all requests as before; and it has printed, behind what it had at the start, exactly their answers.
  pub answers_all :
      (joined : ℕ → Bool) (phases : ℕ → Phase) (requests : ℕ → List Request) (n n' : Net S)
      (users : UserCont) (conns : ℕ → Connection) (db : S.env.database.Db) (ks : List (Kind × ℕ))
      (i : ℕ)
      → Ready S fifo joined phases requests n users conns db
      → AllJoined joined ks
      → joined i ≡ true
      → S.env.database.max_user_id db + length ks + 9 * suc (length (n'.input i)) < 2 ^ 63
      → run (S.env) (programs S) ks n ≡ ok n'
      → (last : Net S) × (run
            (S.env)
            (programs S)
            (at_client i (rounds (suc (length (n'.input i)))))
            n'
          ≡ ok last)
        × (last.input i ≡ [])
        × ((last.consoles i).waits ≡ false)
        × (order : Log) × Linearized S (start_of S joined phases requests n users db) order last
        × (requests i ≡ asked_by i order)
        × ((last.consoles i).printed
            ≡ (start_of S joined phases requests n users db).printed i
              ++ texts_to (S.env.rapidjson) i order)
  answers_all joined phases requests n n' users conns db ks i ready all_in is_in small ran =
      let start = start_of S joined phases requests n users db in
      let (m, ran_to, now, log, _, _, h) =
        run-Holds S fifo json laws took memory_full splits room blocks ks 0 phases [] n
          (Ready-Holds S fifo json laws took memory_full splits room blocks joined phases requests n
            users conns db ready)
          all_in (omega arith) in
      let same : m ≡ n' = ok_inj (sym ran_to ∙ ran) in
      let h' = subst (Holds S fifo start (0 + length ks) now log) same h in
      let lines = n'.input i in
      let count = length-rounds (suc (length lines)) in
      let (last, went, later, log', g, goal) =
        run_alone S fifo json laws took memory_full splits room blocks start
          (rounds (suc (length lines))) i (0 + length ks) now log n' h' is_in
          (omega (arith, count)) in
      let done = goal ∙ goes_through (stage (now i)) lines in
      let l =
        Holds-Linearized S fifo start (0 + length ks + length (rounds (suc (length lines)))) later
          log' last g in
      let no_line = ap (λ r. r.1) done in
      let rests =
        ap (λ pl. pl.console.waits) (g.seats i is_in).is ∙ at_rest (later i) (ap (λ r. r.0) done) in
      let (asked, shown) = served_all S start log' last i (l.clients i is_in) no_line rests in
      (last, went, no_line, rests, log', l, asked, shown)
