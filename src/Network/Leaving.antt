-- ===== src/Network/Leaving.antt =====
-- The end of the input at a client: `main` closes the socket, and the read of the server fails.
use pocker_backend.Base.{
  Bool, ℕ, ◌+◌, ◌^◌, ◌<◌, ◌≡◌, ◌≢◌, refl, ap, ◌∙◌, sym, List, [], true, false, none, length, drop,
  ==_refl, arith, subst,
}
use pocker_backend.Base.Results.{ok}
use pocker_backend.Rapidjson.{IsFaithful}
use pocker_backend.Connection.{Connection, Read}
use pocker_backend.Connection.Callbacks.{ok_inj}
use pocker_backend.Users.{UserCont}
use pocker_backend.Database.{Query}
use pocker_backend.Database.Laws.{IsRelational}
use pocker_backend.Handler.State.{erase_participant, update, del_connection, ◌>>◌}
use pocker_backend.Handler.Spec.{Request}
use pocker_backend.Server.Callbacks.{end_read, on_connection, header_callback, drop_connection}
use pocker_backend.Server.Loop.{read_fails}
use pocker_backend.Client.{IsFifo, close, close_now, run_task}
use pocker_backend.Client.Schedule.{step, run_posted}
use pocker_backend.Terminal.{Console, input_ends}
use pocker_backend.Terminal.Words.{IsSplitting}
use pocker_backend.Network.{Kind, run, act, client_step, set, client_posts}
use pocker_backend.Network.Stage.{==_apart}
use pocker_backend.Network.Phase.{
  Phase, Log, idle, posted, writing, sent, announced, answered, replied, told, queued, waits_of,
  placed,
}
use pocker_backend.Network.Holds.{AllJoined, Setup, programs, backend_of, Net, place, Holds}
use pocker_backend.Network.Linear.{Ready, start_of, Linearized, Holds-Linearized}
use pocker_backend.Network.Schedules.{run-Holds, Ready-Holds}

idle_of : (p : Phase) → waits_of p ≡ false → p ≡ idle
idle_of idle e = refl
idle_of (posted q m) e = absurd (cc)
idle_of (writing q m) e = absurd (cc)
idle_of (sent q m) e = absurd (cc)
idle_of (announced q) e = absurd (cc)
idle_of (answered s m) e = absurd (cc)
idle_of (replied s m) e = absurd (cc)
idle_of (told s) e = absurd (cc)
idle_of (queued s m) e = absurd (cc)

-- `main` at a client comes to the end of its input.
abbrev pub quits : (S : Setup) → ℕ → Net S → Net S
quits S i n = record n { consoles = set n.consoles i (input_ends (programs S) (n.consoles i)) }

abbrev pub closed : (S : Setup) → Console (programs S) → Console (programs S)
closed S t = record t { conn = record t.conn { is_closed = true } }

abbrev pub without : Setup → ℕ → Setup
without S i = record S { participants = erase_participant (S.env) i (S.participants) }

module _ (S : Setup) (i : ℕ) where
  -- The posted lambda of `close` runs, where nothing was posted before it.
  quits_closes :
      (n : Net S)
      → (n.consoles i).conn.posted ≡ []
      → act (S.env) (programs S) client_posts i (quits S i n)
        ≡ ok (record n {
          consoles =
              set
                (set n.consoles i (input_ends (programs S) (n.consoles i)))
                i
                (closed S (n.consoles i));
          up = set n.up i (n.up i);
        })
  unfolding act client_step step run_posted run_task close_now input_ends close
  quits_closes n at_rest = rw (==_refl i, at_rest) refl

  -- The read that waits for a header fails.
  read_fails-backend_of :
      (users : UserCont) (conns : ℕ → Connection) (db : S.env.database.Db)
      → (end_read (S.env) i >> read_fails (S.env) Read.header i) (backend_of S users conns db) ≡ (
        ok tt,
        backend_of
            (without S i)
            users
            (update (S.env) conns i (record (conns i) { reads = drop 1 (conns i).reads }))
            db,
      )
  unfolding end_read on_connection read_fails header_callback drop_connection del_connection
  read_fails-backend_of users conns db = refl

module _ (S : Setup) (fifo : IsFifo (S.queue)) (json : IsFaithful (S.env.rapidjson))
    (laws : IsRelational (S.env.database))
    (took : (q : Query) (d : S.env.database.Db) → S.env.database.accepts q d ≡ true)
    (memory_full : length (S.env.memory) ≡ 2048) (splits : IsSplitting (S.split))
    (room : length (S.garbage) ≡ 2048)
    (blocks : (q : S.queue.Queue) → fifo.items q ≡ [] → S.queue.wait_dequeue q ≡ none) where
  -- As for `run_linearizes`, whatever schedule has run: at a client that does not wait, nothing is on its
  -- way in either direction. When its input ends there, the lambda that `close` posts runs without an
  -- error, and leaves the client as it was with its socket closed. When the read of the server then fails,
  -- its callback returns, and leaves the server running over the same accounts and the same users, those
  -- of that connection too; the connection is taken out of the participants, and reads no more. Every
  -- other client is where it was.
  pub leaves :
      (joined : ℕ → Bool) (phases : ℕ → Phase) (requests : ℕ → List Request) (n n' : Net S)
      (users : UserCont) (conns : ℕ → Connection) (db : S.env.database.Db) (ks : List (Kind × ℕ))
      (i : ℕ)
      → Ready S fifo joined phases requests n users conns db
      → AllJoined joined ks
      → joined i ≡ true
      → S.env.database.max_user_id db + length ks < 2 ^ 63
      → run (S.env) (programs S) ks n ≡ ok n'
      → (n'.consoles i).waits ≡ false
      → (log : Log) × (l : Linearized S (start_of S joined phases requests n users db) log n')
        × (n'.up i ≡ [])
        × (n'.down i ≡ [])
        × (c : Net S) × (act (S.env) (programs S) client_posts i (quits S i n') ≡ ok c)
        × (c.consoles i ≡ closed S (n'.consoles i))
        × (conns' : ℕ → Connection) × ((end_read (S.env) i >> read_fails (S.env) Read.header i)
              c.backend
            ≡ (ok tt, backend_of (without S i) l.users conns' l.db))
        × (conns' i ≡ record (l.conns i) { reads = [] })
        × ((j : ℕ)
            → i ≢ j
            → place S (record c { backend = backend_of (without S i) l.users conns' l.db }) j
              ≡ place S n' j)
  leaves joined phases requests n n' users conns db ks i ready all_in is_in small ran rests =
      let start = start_of S joined phases requests n users db in
      let (m, ran_to, now, log, _, _, h₀) =
        run-Holds S fifo json laws took memory_full splits room blocks ks 0 phases [] n
          (Ready-Holds S fifo json laws took memory_full splits room blocks joined phases requests n
            users conns db ready)
          all_in (omega arith) in
      let h = subst (Holds S fifo start (0 + length ks) now log) (ok_inj (sym ran_to ∙ ran)) h₀ in
      let l = Holds-Linearized S fifo start (0 + length ks) now log n' h in
      let seat = h.seats i is_in in
      let is_idle = idle_of (now i) (sym (ap (λ pl. pl.console.waits) seat.is) ∙ rests) in
      let is : place S n' i ≡ placed (programs S) idle seat.extra =
        seat.is ∙ ap (λ p. placed (programs S) p seat.extra) is_idle in
      let conn : l.conns i ≡ (placed (programs S) idle seat.extra).conn =
        sym (ap (λ b. b.connections i) l.runs) ∙ ap (λ pl. pl.conn) is in
      (
        log,
        l,
        ap (λ pl. pl.up) is,
        ap (λ pl. pl.down) is,
        _,
        quits_closes S i n' (ap (λ pl. pl.console.conn.posted) is),
        rw (==_refl i) refl,
        _,
        ap (end_read (S.env) i >> read_fails (S.env) Read.header i) l.runs
            ∙ read_fails-backend_of S i l.users l.conns l.db,
        rw (==_refl i)
            (ap (λ reads. record (l.conns i) { reads = drop 1 reads }) (ap (λ c. c.reads) conn)),
        λ j ne. rw (==_apart i j ne) (
            ap {A = Connection} (λ c. record (place S n' j) { conn = c })
              (sym (ap (λ b. b.connections j) l.runs))),
      )
