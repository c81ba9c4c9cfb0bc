-- ===== src/Network/Serving.antt =====
-- What the server reads from a client takes the client to its next phase; the body of a request is
-- served, and joins the log.
use pocker_backend.Base.{
  ℕ, ◌+◌, ◌^◌, ◌<◌, ◌≡◌, ◌≢◌, refl, sym, ap, ◌∙◌, List, [], ◌∷◌, ◌++◌, true, false, ==_refl, length,
  subst, append-nil, append_assoc, arith,
}
use pocker_backend.Base.Bytes.{Bytes}
use pocker_backend.Base.Results.{ok}
use pocker_backend.Rapidjson.{IsFaithful}
use pocker_backend.Message.{Message, wire}
use pocker_backend.Connection.{Connection, Read}
use pocker_backend.Users.{UserCont}
use pocker_backend.Database.{Query}
use pocker_backend.Database.Laws.{IsRelational}
use pocker_backend.Database.Accounts.{next-IsFresh}
use pocker_backend.Handler.State.{◌>>◌}
use pocker_backend.Handler.Branches.{hashed}
use pocker_backend.Handler.Landing.{users_after}
use pocker_backend.Handler.Spec.{Request, Answer, text_of}
use pocker_backend.Handler.Messages.{request_text}
use pocker_backend.Server.Callbacks.{end_read, body_callback}
use pocker_backend.Client.{IsFifo}
use pocker_backend.Network.{act, set, server_reads}
use pocker_backend.Network.Stage.{==_apart}
use pocker_backend.Network.Phase.{
  Phase, idle, posted, writing, sent, announced, answered, replied, told, queued, placed, Extra,
  Place, Log, asked_by, texts_to,
}
use pocker_backend.Network.Holds.{
  Setup, programs, backend_of, Start, Net, Sits, Holds, Acts, Follows, one_more, place, seat_at,
  seats_set,
}
use pocker_backend.Network.ServerReads.{server_read_lem}
use pocker_backend.Network.ServerSide.{server_waits, header-Acts}
use pocker_backend.Network.Handling.{outcome, Serves, callback-Serves}

-- A connection with these messages and operations outstanding.
connection_eq :
    (c : Connection) (ms : List Message) (rs : List Read) (ws : List Bytes)
    → c.write_msgs ≡ ms
    → c.reads ≡ rs
    → c.writes ≡ ws
    → c ≡ record c { write_msgs = ms; reads = rs; writes = ws }
connection_eq c ms rs ws e₁ e₂ e₃ =
    ap (λ x. record c { write_msgs = x }) e₁
    ∙ ap (λ x. record c { write_msgs = ms; reads = x }) e₂
    ∙ ap (λ x. record c { write_msgs = ms; reads = rs; writes = x }) e₃

module _ (S : Setup) (fifo : IsFifo (S.queue)) (start : Start) where
  -- The log of another client's request says nothing of a client.
  seat_after :
      (log : Log) (i j : ℕ) (q : Request) (answer : Answer) (p : Phase) (pl : Place (programs S))
      → i ≢ j
      → Sits S fifo start log j p pl
      → Sits S fifo start ((i, q, answer) ∷ log) j p pl
  seat_after log i j q answer p pl ne seat = record {
    extra = seat.extra;
    is = seat.is;
    fit = seat.fit;
    todo = seat.todo;
    typed = seat.typed;
    asks = rw (==_apart i j ne) seat.asks;
    shown = rw (==_apart i j ne) seat.shown;
  }

module _ {S : Setup} {fifo : IsFifo (S.queue)} {start : Start} {log : Log} (used : ℕ)
    (phases : ℕ → Phase) (n : Net S) (h : Holds S fifo start used phases log n) (i : ℕ)
    (is_in : start.joined i ≡ true) where
  module _ (q : Request) (is : phases i ≡ announced q)
      (r : Serves S h.users h.conns h.db i q
        (seat_at S fifo start used phases n h i is_in (announced q) is).extra) where
    abbrev answer : Answer
    answer = (outcome S h.users h.conns h.db q).1

    abbrev text : Bytes
    text = text_of (S.env.rapidjson) answer

    abbrev log' : Log
    log' = (i, q, answer) ∷ log

    abbrev users' : UserCont
    users' =
        users_after (S.env) (S.config) (S.sqlpp_config) h.users (S.participants) h.conns h.db q i

    abbrev served : Net S
    served = record n { backend = backend_of S users' r.conns' r.db'; up = set n.up i [] }

    -- The client whose request was served.
    sits : Sits S fifo start log' i (answered text r.has.answer) (place S served i)
    sits =
        let seat = seat_at S fifo start used phases n h i is_in (announced q) is in
        let x' : Extra (programs S) = record seat.extra {
          handler = (r.conns' i).handler;
          server_msg = (r.conns' i).read_msg;
        } in
        let before = asked_by i log in
        let seen = texts_to (S.env.rapidjson) i log in
        record {
          extra = x';
          is = rw (==_refl i) (
              ap {A = Place (programs S)} (λ pl. record pl { up = []; conn = r.conns' i }) seat.is
              ∙ ap {A = Connection}
                  (λ c. record (placed (programs S) (answered text r.has.answer) x') { conn = c })
                  (connection_eq (r.conns' i) (r.has.answer ∷ []) (Read.header ∷ [])
                    (wire r.has.answer ∷ []) r.has.queued r.has.waiting r.has.writing));
          fit = record {
            client_full = seat.fit.client_full;
            server_full = r.has.full;
            holds = seat.fit.holds;
            own = (r.fits, r.has.frame);
          };
          todo = seat.todo;
          typed = seat.typed;
          asks = rw (==_refl i) (seat.asks ∙ sym (append_assoc before (q ∷ []) seat.todo));
          shown = rw (==_refl i) (
              ap (λ ts. ts ++ text ∷ []) (sym (append-nil _) ∙ seat.shown)
              ∙ append_assoc (start.printed i) seen (text ∷ []));
        }

    served_others : (j : ℕ) → i ≢ j → place S served j ≡ place S n j
    served_others j ne = rw (==_apart i j ne) (
        ap {A = Connection} (λ c. record (place S n j) { conn = c })
          (r.elsewhere j ne ∙ ap (λ b. b.connections j) (sym h.runs)))

    served_went : act (S.env) (programs S) server_reads i n ≡ ok served
    unfolding act
    served_went =
        let seat = seat_at S fifo start used phases n h i is_in (announced q) is in
        let body = request_text (S.env.rapidjson) q in
        rw (ap (λ pl. pl.conn.reads) seat.is) (
          server_read_lem S n i (Read.body (length body)) [] body [] _
            (ap (λ pl. pl.up) seat.is ∙ sym (append-nil body)) refl
            (ap (end_read (S.env) i >> body_callback (S.env) i false body) h.runs ∙ r.ran))

    body-Acts :
        IsRelational (S.env.database)
        → Acts S fifo start used phases log server_reads i (answered text r.has.answer) n
    body-Acts laws = record {
      next = served;
      went = served_went;
      advances = rw is refl;
      takes = refl;
      log' = log';
      new = (i, q, answer) ∷ [];
      grows = refl;
      holds = record {
        users = users';
        conns = r.conns';
        db = r.db';
        runs = refl;
        sound = r.sound;
        follows =
            subst
              (λ a. Follows (hashed (S.env) (S.config)) start.accounts start.users log' a users')
              (sym r.shows)
              (one_more (S.env.database.max_user_id h.db + 1) i q h.follows
                (next-IsFresh (S.env.database) laws h.db));
        ids = omega (arith, h.ids, r.grows);
        seats =
            seats_set S fifo start n served i (answered text r.has.answer) phases log' sits
              served_others
              (λ j ne joined.
                seat_after S fifo start log i j q answer (phases j) (place S n j) ne
                  (h.seats j joined));
        others =
            λ j out. rw (==_apart i j (λ same. absurd (cc (same, is_in, out)))) (h.others j out);
      };
    }

module _ {S : Setup} {fifo : IsFifo (S.queue)} {start : Start} {log : Log}
    (json : IsFaithful (S.env.rapidjson)) (laws : IsRelational (S.env.database))
    (took : (q : Query) (d : S.env.database.Db) → S.env.database.accepts q d ≡ true)
    (memory_full : length (S.env.memory) ≡ 2048) (used : ℕ) (phases : ℕ → Phase) (n : Net S)
    (h : Holds S fifo start used phases log n) (i : ℕ) (is_in : start.joined i ≡ true) where
  -- A read of the server: a header, or the body of a request, or nothing is there.
  pub server_reads-Acts :
      (p : Phase)
      → start.max_id + used + 1 < 2 ^ 63
      → phases i ≡ p
      → (p' : Phase) × Acts S fifo start used phases log server_reads i p' n
  server_reads-Acts (sent q m) small is = (_, header-Acts used phases n h i is_in q m is)
  server_reads-Acts (announced q) small is =
      let seat = seat_at S fifo start used phases n h i is_in (announced q) is in
      (
        _,
        body-Acts used phases n h i is_in q is
            (callback-Serves S json laws took memory_full h.users h.conns h.db i q seat.extra
              h.sound (omega (arith, h.ids)) seat.fit.own.0
              (ap (λ b. b.connections i) (sym h.runs) ∙ ap (λ pl. pl.conn) seat.is)
              seat.fit.server_full seat.fit.own.1)
            laws,
      )
  server_reads-Acts idle small is = (_, server_waits used phases n h i is_in idle is refl refl refl)
  server_reads-Acts (posted q m) small is =
      (_, server_waits used phases n h i is_in (posted q m) is refl refl refl)
  server_reads-Acts (writing q m) small is =
      (_, server_waits used phases n h i is_in (writing q m) is refl refl refl)
  server_reads-Acts (answered t m) small is =
      (_, server_waits used phases n h i is_in (answered t m) is refl refl refl)
  server_reads-Acts (replied t m) small is =
      (_, server_waits used phases n h i is_in (replied t m) is refl refl refl)
  server_reads-Acts (told t) small is =
      (_, server_waits used phases n h i is_in (told t) is refl refl refl)
  server_reads-Acts (queued t m) small is =
      (_, server_waits used phases n h i is_in (queued t m) is refl refl refl)
