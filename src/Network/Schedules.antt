-- ===== src/Network/Schedules.antt =====
-- Every schedule of the network: nothing throws, and what the clients print are the answers of one
-- order of their requests.
use pocker_backend.Base.{
  Bool, append_assoc, append-nil, ℕ, suc, ◌+◌, ◌^◌, ◌<◌, ◌≡◌, refl, sym, ap, ◌∙◌, List, [], ◌∷◌,
  ◌++◌, true, none, length, subst, arith,
}
use pocker_backend.Base.Results.{ok}
use pocker_backend.Rapidjson.{IsFaithful}
use pocker_backend.Connection.{Connection}
use pocker_backend.Users.{UserCont}
use pocker_backend.Database.{Query}
use pocker_backend.Database.Laws.{IsRelational}
use pocker_backend.Handler.Spec.{Request}
use pocker_backend.Client.{IsFifo}
use pocker_backend.Terminal.Words.{IsSplitting}
use pocker_backend.Network.{
  Kind, reads_line, client_posts, client_wrote, server_reads, server_wrote, client_reads, prints,
  act, run,
}
use pocker_backend.Network.Phase.{Log, Phase, pending_of}
use pocker_backend.Network.Holds.{AllJoined, Setup, programs, Net, Start, Holds, Acts, nothing}
use pocker_backend.Network.ClientSide.{client_posts-Acts, client_wrote-Acts}
use pocker_backend.Network.MainSide.{reads_line-Acts, prints-Acts}
use pocker_backend.Network.ClientReading.{client_reads-Acts}
use pocker_backend.Network.ServerSide.{server_wrote-Acts}
use pocker_backend.Network.Serving.{server_reads-Acts}
use pocker_backend.Network.Linear.{Ready, start_of, Linearized, Holds-Linearized}

pub run_step :
    (S : Setup) (k : Kind) (i : ℕ) (ks : List (Kind × ℕ)) (n n' : Net S)
    → act (S.env) (programs S) k i n ≡ ok n'
    → run (S.env) (programs S) ((k, i) ∷ ks) n ≡ run (S.env) (programs S) ks n'
unfolding run
run_step S k i ks n n' went = rw went refl

module _ (S : Setup) (fifo : IsFifo (S.queue)) (json : IsFaithful (S.env.rapidjson))
    (laws : IsRelational (S.env.database))
    (took : (q : Query) (d : S.env.database.Db) → S.env.database.accepts q d ≡ true)
    (memory_full : length (S.env.memory) ≡ 2048) (splits : IsSplitting (S.split))
    (room : length (S.garbage) ≡ 2048)
    (blocks : (q : S.queue.Queue) → fifo.items q ≡ [] → S.queue.wait_dequeue q ≡ none) where
  module _ {start : Start} where
    pub acts :
        {log : Log} (used : ℕ) (phases : ℕ → Phase) (n : Net S)
        (h : Holds S fifo start used phases log n) (k : Kind) (i : ℕ)
        → start.joined i ≡ true
        → start.max_id + used + 1 < 2 ^ 63
        → (p : Phase) × Acts S fifo start used phases log k i p n
    acts used phases n h reads_line i is_in small =
        reads_line-Acts splits room used phases n h i is_in _ refl
    acts used phases n h client_posts i is_in small =
        client_posts-Acts used phases n h i is_in _ refl
    acts used phases n h client_wrote i is_in small =
        client_wrote-Acts used phases n h i is_in _ refl
    acts used phases n h server_reads i is_in small =
        server_reads-Acts json laws took memory_full used phases n h i is_in _ small refl
    acts used phases n h server_wrote i is_in small =
        server_wrote-Acts used phases n h i is_in _ refl
    acts used phases n h client_reads i is_in small =
        client_reads-Acts used phases n h i is_in _ refl
    acts used phases n h prints i is_in small =
        prints-Acts splits room used phases n h i is_in blocks _ refl

    pub run-Holds :
        (ks : List (Kind × ℕ)) (used : ℕ) (phases : ℕ → Phase) (log : Log) (n : Net S)
        → Holds S fifo start used phases log n
        → AllJoined start.joined ks
        → start.max_id + used + length ks < 2 ^ 63
        → (n' : Net S) × (run (S.env) (programs S) ks n ≡ ok n')
          × (phases' : ℕ → Phase) × (log' : Log) × (new : Log) × (log' ≡ new ++ log)
          × Holds S fifo start (used + length ks) phases' log' n'
    run-Holds [] used phases log n h all_in small = (
      n,
      unfold run in refl,
      phases,
      log,
      [],
      refl,
      subst (λ k. Holds S fifo start k phases log n) (omega arith) h,
    )
    run-Holds ((k, i) ∷ ks) used phases log n h all_in small =
        let (p, a) = acts used phases n h k i all_in.0 (omega arith) in
        let (n', ran, phases', log', new, grows, h') =
          run-Holds ks (suc used) _ a.log' a.next a.holds all_in.1 (omega arith) in
        (
          n',
          run_step S k i ks n a.next a.went ∙ ran,
          phases',
          log',
          new ++ a.new,
          grows ∙ ap (λ l. new ++ l) a.grows ∙ sym (append_assoc new a.new log),
          subst (λ k. Holds S fifo start k phases' log' n') (omega arith) h',
        )

  -- In a network that is ready nothing was served.
  pub Ready-Holds :
      (joined : ℕ → Bool) (phases : ℕ → Phase) (requests : ℕ → List Request) (n : Net S)
      (users : UserCont) (conns : ℕ → Connection) (db : S.env.database.Db)
      → Ready S fifo joined phases requests n users conns db
      → Holds S fifo (start_of S joined phases requests n users db) 0 phases [] n
  Ready-Holds joined phases requests n users conns db ready = record {
    users = users;
    conns = conns;
    db = db;
    runs = ready.runs;
    sound = ready.sound;
    follows = nothing;
    ids = omega arith;
    others = λ i out. refl;
    seats = λ i is_in.
        let (x, is, fit, typed) = ready.there i is_in in
        record {
          extra = x;
          is = is;
          fit = fit;
          todo = requests i;
          typed = typed;
          asks = ap (λ qs. qs ++ requests i) (sym (ready.unasked i is_in));
          shown =
              ap (λ pl. pl.console.printed ++ pending_of (phases i)) (sym is) ∙ sym (append-nil _);
        };
  }

  -- Where the splitting breaks a line at each tab and semicolon, the queue is first in, first out and
  -- makes a reader wait while it is empty, the documents are faithful, the database is relational and
  -- takes every query, and memory comes in 2048 bytes: from a network that is ready, of any set of
  -- clients, in which the ids
  -- above the largest one suffice for as many accounts as there are events, every schedule of what
  -- happens at these clients runs without an error, and so does every schedule from where it has come to. After each,
  -- the server is running over a sound table; there is an order of the requests that were served in
  -- which the specification gives the users and the accounts that are left; and each client has sent its
  -- typed requests in that order, and printed its answers, with one request or answer on its way exactly
  -- where it waits. The order after the second schedule is the one after the first, with the requests
  -- that were served since then behind it: what was answered before a request was typed comes before it.
  pub run_linearizes :
      (joined : ℕ → Bool) (phases : ℕ → Phase) (requests : ℕ → List Request) (n : Net S)
      (users : UserCont) (conns : ℕ → Connection) (db : S.env.database.Db)
      (ks more : List (Kind × ℕ))
      → Ready S fifo joined phases requests n users conns db
      → AllJoined joined ks
      → AllJoined joined more
      → S.env.database.max_user_id db + length ks + length more < 2 ^ 63
      → (n' : Net S) × (last : Net S) × (run (S.env) (programs S) ks n ≡ ok n')
        × (run (S.env) (programs S) more n' ≡ ok last)
        × (log : Log) × (new : Log) × Linearized S
            (start_of S joined phases requests n users db)
            log
            n'
        × Linearized S (start_of S joined phases requests n users db) (new ++ log) last
  run_linearizes joined phases requests n users conns db ks more ready all_in then_in small =
      let start = start_of S joined phases requests n users db in
      let (n', ran, now, log, _, _, h) =
        run-Holds ks 0 phases [] n (Ready-Holds joined phases requests n users conns db ready)
          all_in (omega arith) in
      let (last, went, later, log', new, grows, h') =
        run-Holds more (0 + length ks) now log n' h then_in (omega arith) in
      (
        n',
        last,
        ran,
        went,
        log,
        new,
        Holds-Linearized S fifo start (0 + length ks) now log n' h,
        subst (λ l. Linearized S start l last) grows
            (Holds-Linearized S fifo start (0 + length ks + length more) later log' last h'),
      )
