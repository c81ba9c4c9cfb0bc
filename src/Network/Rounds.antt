-- ===== src/Network/Rounds.antt =====
-- No client waits for ever: what has still to happen at a client and its connection can happen.
use pocker_backend.Base.{
  Bool, ℕ, suc, ◌+◌, ◌^◌, ◌<◌, ◌≡◌, refl, sym, ap, ◌∙◌, List, [], ◌∷◌, true, false, ==_refl, none,
  length, drop, subst, arith, if◌then◌else◌,
}
use pocker_backend.Base.Bytes.{Bytes}
use pocker_backend.Base.Results.{ok}
use pocker_backend.Rapidjson.{IsFaithful}
use pocker_backend.Connection.{Connection}
use pocker_backend.Connection.Callbacks.{ok_inj}
use pocker_backend.Users.{UserCont}
use pocker_backend.Database.{Query}
use pocker_backend.Database.Laws.{IsRelational}
use pocker_backend.Handler.Spec.{Request}
use pocker_backend.Client.{IsFifo}
use pocker_backend.Terminal.Words.{IsSplitting}
use pocker_backend.Network.{
  Kind, reads_line, client_posts, client_wrote, server_reads, server_wrote, client_reads, prints,
  run, set,
}
use pocker_backend.Network.Phase.{Log, Phase, waits_of}
use pocker_backend.Network.Stage.{
  Stage, idle, posted, writing, sent, announced, answered, replied, told, queued, stage, advance,
  left,
}
use pocker_backend.Network.Holds.{AllJoined, Setup, programs, Net, Start, Holds}
use pocker_backend.Network.Linear.{Ready, start_of, Linearized, Holds-Linearized}
use pocker_backend.Network.Schedules.{acts, run_step, run-Holds, Ready-Holds}

-- Everything that has to happen for one answer, in order.
abbrev pub kinds : List Kind
kinds =
    reads_line ∷ client_posts ∷ client_wrote ∷ server_reads ∷ server_reads ∷ server_wrote
    ∷ client_reads ∷ client_reads ∷ prints ∷ []

abbrev pub at_client : ℕ → List Kind → List (Kind × ℕ)
at_client i [] = []
at_client i (k ∷ ks) = (k, i) ∷ at_client i ks

-- The stage that a client comes to, and the lines that it leaves.
abbrev pub goes : List Kind → Stage → List Bytes → Stage × List Bytes
goes [] st lines = (st, lines)
goes (k ∷ ks) st lines = goes ks (advance k st lines) (left k st lines)

abbrev pub taken : Stage → List Bytes → List Bytes
taken idle lines = drop 1 lines
taken _ lines = lines

-- From every stage, this ends at rest; from rest, with one line less.
pub goes_round : (st : Stage) (lines : List Bytes) → goes kinds st lines ≡ (idle, taken st lines)
goes_round idle [] = refl
goes_round idle (line ∷ lines) = refl
goes_round posted lines = refl
goes_round writing lines = refl
goes_round sent lines = refl
goes_round announced lines = refl
goes_round answered lines = refl
goes_round replied lines = refl
goes_round told lines = refl
goes_round queued lines = refl

taken_waits :
    (p : Phase) (lines : List Bytes)
    → taken (stage p) lines ≡ (if waits_of p then lines else drop 1 lines)
taken_waits Phase.idle lines = refl
taken_waits (Phase.posted _ _) lines = refl
taken_waits (Phase.writing _ _) lines = refl
taken_waits (Phase.sent _ _) lines = refl
taken_waits (Phase.announced _) lines = refl
taken_waits (Phase.answered _ _) lines = refl
taken_waits (Phase.replied _ _) lines = refl
taken_waits (Phase.told _) lines = refl
taken_waits (Phase.queued _ _) lines = refl

pub at_rest : (p : Phase) → stage p ≡ idle → waits_of p ≡ false
at_rest Phase.idle e = refl
at_rest (Phase.posted _ _) e = absurd (cc)
at_rest (Phase.writing _ _) e = absurd (cc)
at_rest (Phase.sent _ _) e = absurd (cc)
at_rest (Phase.announced _) e = absurd (cc)
at_rest (Phase.answered _ _) e = absurd (cc)
at_rest (Phase.replied _ _) e = absurd (cc)
at_rest (Phase.told _) e = absurd (cc)
at_rest (Phase.queued _ _) e = absurd (cc)

module _ (S : Setup) (fifo : IsFifo (S.queue)) (json : IsFaithful (S.env.rapidjson))
    (laws : IsRelational (S.env.database))
    (took : (q : Query) (d : S.env.database.Db) → S.env.database.accepts q d ≡ true)
    (memory_full : length (S.env.memory) ≡ 2048) (splits : IsSplitting (S.split))
    (room : length (S.garbage) ≡ 2048)
    (blocks : (q : S.queue.Queue) → fifo.items q ≡ [] → S.queue.wait_dequeue q ≡ none) where
  -- What happens at one client only.
  pub run_alone :
      (start : Start) (ks : List Kind) (i : ℕ) (used : ℕ) (phases : ℕ → Phase) (log : Log)
      (n : Net S)
      → Holds S fifo start used phases log n
      → start.joined i ≡ true
      → start.max_id + used + length ks < 2 ^ 63
      → (n' : Net S) × (run (S.env) (programs S) (at_client i ks) n ≡ ok n')
        × (phases' : ℕ → Phase) × (log' : Log) × Holds S fifo start
            (used + length ks)
            phases'
            log'
            n'
        × ((stage (phases' i), n'.input i) ≡ goes ks (stage (phases i)) (n.input i))
  run_alone start [] i used phases log n h is_in small = (
    n,
    unfold run in refl,
    phases,
    log,
    subst (λ k. Holds S fifo start k phases log n) (omega arith) h,
    refl,
  )
  run_alone start (k ∷ ks) i used phases log n h is_in small =
      let (p, a) =
        acts S fifo json laws took memory_full splits room blocks used phases n h k i is_in
          (omega arith) in
      let (n', ran, phases', log', h', went) =
        run_alone start ks i (suc used) (set phases i p) a.log' a.next a.holds is_in
          (omega arith) in
      let here : set phases i p i ≡ p = rw (==_refl i) refl in
      (
        n',
        run_step S k i (at_client i ks) n a.next a.went ∙ ran,
        phases',
        log',
        subst (λ k. Holds S fifo start k phases' log' n') (omega arith) h',
        went
            ∙ ap (λ st. goes ks st (a.next.input i)) (ap stage here ∙ a.advances)
            ∙ ap (goes ks (advance k (stage (phases i)) (n.input i))) a.takes,
      )

  -- As for `run_linearizes`, whatever schedule has run: when what has to happen for one answer then
  -- happens at a client, in order, it does so without an error, and the client does not wait any more. If it did
  -- not wait before, it has taken its next line, if there was one; otherwise its lines are the same. So
  -- it has printed the answers to all requests that it has typed, in an order of all requests as before.
  pub round_answers :
      (joined : ℕ → Bool) (phases : ℕ → Phase) (requests : ℕ → List Request) (n n' : Net S)
      (users : UserCont) (conns : ℕ → Connection) (db : S.env.database.Db) (ks : List (Kind × ℕ))
      (i : ℕ)
      → Ready S fifo joined phases requests n users conns db
      → AllJoined joined ks
      → joined i ≡ true
      → S.env.database.max_user_id db + length ks + 9 < 2 ^ 63
      → run (S.env) (programs S) ks n ≡ ok n'
      → (last : Net S) × (run (S.env) (programs S) (at_client i kinds) n' ≡ ok last)
        × ((last.consoles i).waits ≡ false)
        × (last.input i ≡ (if (n'.consoles i).waits then n'.input i else drop 1 (n'.input i)))
        × (order : Log) × Linearized S (start_of S joined phases requests n users db) order last
  round_answers joined phases requests n n' users conns db ks i ready all_in is_in small ran =
      let start = start_of S joined phases requests n users db in
      let (m, ran_to, now, log, _, _, h) =
        run-Holds S fifo json laws took memory_full splits room blocks ks 0 phases [] n
          (Ready-Holds S fifo json laws took memory_full splits room blocks joined phases requests n
            users conns db ready)
          all_in (omega arith) in
      let same : m ≡ n' = ok_inj (sym ran_to ∙ ran) in
      let h' = subst (Holds S fifo start (0 + length ks) now log) same h in
      let (last, went, later, log', g, goal) =
        run_alone start kinds i (0 + length ks) now log n' h' is_in (omega arith) in
      let done = goal ∙ goes_round (stage (now i)) (n'.input i) in
      (
        last,
        went,
        ap (λ pl. pl.console.waits) (g.seats i is_in).is ∙ at_rest (later i) (ap (λ r. r.0) done),
        ap (λ r. r.1) done
            ∙ taken_waits (now i) (n'.input i)
            ∙ ap (λ w. if w then n'.input i else drop 1 (n'.input i))
                (ap (λ pl. pl.console.waits) (sym (h'.seats i is_in).is)),
        log',
        Holds-Linearized S fifo start (0 + length ks + 9) later log' last g,
      )
