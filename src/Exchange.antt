-- ===== src/Exchange.antt =====
-- A client and the server: components/client/client.cpp, net/tcp_connection.cpp and the handler, with
-- the bytes carried from each to the other.
use pocker_backend.Base.{
  if◌then◌else◌, ℕ, ◌+◌, ◌^◌, ◌<◌, ◌≤◌, ◌≡◌, refl, sym, ap, ◌∙◌, List, [], ◌∷◌, ◌++◌, false, length,
  some, subst, append-nil, map,
}
use pocker_backend.Base.Bytes.{Bytes}
use pocker_backend.Base.Results.{ok}
use pocker_backend.Rapidjson.{IsFaithful}
use pocker_backend.Message.{Message, message, max_body_length, assign, body, wire}
use pocker_backend.Connection.{is_empty, Connection, Read}
use pocker_backend.Connection.Reading.{IsFull}
use pocker_backend.Connection.Transfer.{message-IsFrame}
use pocker_backend.Users.{UserCont}
use pocker_backend.Database.{DbConnectConfig, SqlppConfig}
use pocker_backend.Database.Laws.{IsRelational}
use pocker_backend.Database.Accounts.{IsSound, view}
use pocker_backend.Handler.State.{Env}
use pocker_backend.Handler.Spec.{Request, text_of}
use pocker_backend.Handler.Reply.{running}
use pocker_backend.Handler.Branches.{Accepts}
use pocker_backend.Handler.Fits.{Fits}
use pocker_backend.Handler.Landing.{specified, users_after, lands}
use pocker_backend.Handler.Messages.{request_text, IsSmall}
use pocker_backend.Client.{
  ReaderWriterQueue, IsFifo, Client, write, run_task, write_done, read_wait,
}
use pocker_backend.Client.Schedule.{Line, writes, runs, completes, run, step, run_posted, end_write}
use pocker_backend.Client.Receiving.{feed, Given, feed-Frames}
use pocker_backend.Server.Callbacks.{message_arrives}
use pocker_backend.Server.Answering.{message_arrives-answers}

-- A client with an open socket that has nothing to send.
abbrev pub idle_client : (W : ReaderWriterQueue) → Message → W.Queue → List Read → Client W
idle_client W read_msg queue reads = record {
  read_msg = read_msg;
  write_msgs = [];
  read_messages = queue;
  is_closed = false;
  posted = [];
  connects = false;
  reads = reads;
  writes = [];
}

front_of :
    (ms : List Message) (text : Bytes)
    → map body ms ≡ text ∷ []
    → (m : Message) × (rest : List Message) × (ms ≡ m ∷ rest) × (body m ≡ text)
front_of [] text e = absurd (cc)
front_of (m ∷ rest) text e = (m, rest, refl, cc)

module _ (W : ReaderWriterQueue) where
  -- A message is written, the posted lambda runs, and the write completes.
  sends_one :
      (cl : Message) (queue : W.Queue) (reads : List Read) (msg : Message)
      → run W
          (writes msg ∷ runs ∷ completes ∷ [])
          (record { conn = idle_client W cl queue reads; sent = [] })
        ≡ ok (record { conn = idle_client W cl queue reads; sent = wire msg })
  unfolding run step run_posted end_write write run_task write_done
  sends_one cl queue reads msg = refl

  -- What is fed to the client is what it reads.
  reads_one :
      (fifo : IsFifo W) (cl cl' : Client W) (text : Bytes)
      → fifo.items cl.read_messages ≡ []
      → Given W fifo (text ∷ []) cl cl'
      → (answer : Message) × (rest : Client W) × (read_wait W cl' ≡ some (answer, rest))
        × (body answer ≡ text)
  unfolding read_wait
  reads_one fifo cl cl' text none given =
      let (m, rest, front, is) = front_of given.messages text given.bodies in
      let queued : fifo.items cl'.read_messages ≡ m ∷ rest = cc (none, given.queued, front) in
      let (q, waited, _) = fifo.wait_dequeue_front m rest cl'.read_messages queued in
      (m, record cl' { read_messages = q }, rw waited refl, is)

-- A connection with a full-size buffer that waits for a header, and has nothing to send.
pub record IsWaiting (c : Connection) : Type 0 where
  pub full : IsFull c
  pub reads : c.reads ≡ Read.header ∷ []
  pub unsent : (c.write_msgs ≡ []) × (c.writes ≡ [])

module _ (E : Env) (c : DbConnectConfig) (s : SqlppConfig) (users : UserCont) (ps : List ℕ)
    (db : E.database.Db) (W : ReaderWriterQueue) where
  -- What the client wrote, what the server made of it, and what the client then reads.
  pub record Exchanged (q : Request) (sender : ℕ) (conns : ℕ → Connection) (msg : Message)
      (cl : Client W) : Type 0 where
    pub line : Line W
    pub sent :
        run W (writes msg ∷ runs ∷ completes ∷ []) (record { conn = cl; sent = [] }) ≡ ok line
    pub db' : E.database.Db
    pub conns' : ℕ → Connection
    pub handled :
        message_arrives E sender line.sent (running E c s users ps conns db)
        ≡ (ok [], running E c s (users_after E c s users ps conns db q sender) ps conns' db')
    pub shows : view (E.database) db' ≡ (specified E c s users ps conns db q).0
    pub reply : Bytes
    pub replies : (conns' sender).writes ≡ reply ∷ []
    pub listens : (conns' sender).reads ≡ Read.header ∷ []
    pub after : Client W
    pub fed : feed W 2 line.conn reply ≡ ok after
    pub waits : after.reads ≡ Read.header ∷ []
    pub answer : Message
    pub last : Client W
    pub reads : read_wait W after ≡ some (answer, last)
    pub says : body answer ≡ text_of (E.rapidjson) (specified E c s users ps conns db q).1

  module _ (json : IsFaithful (E.rapidjson)) (laws : IsRelational (E.database))
      (sound : IsSound (E.database) db) (memory_full : length (E.memory) ≡ 2048)
      (small : E.database.max_user_id db + 1 < 2 ^ 63) (fifo : IsFifo W) where
    -- On a connected backend with a sound table that takes the queries, and whose largest id
    -- is below 2^63 - 1, and with 2048 bytes of memory for a message: a client with an open socket, a full-size
    -- buffer, nothing to send and nothing to read, which waits for a header, writes the message that was made of a request's text,
    -- of at most 2044 bytes with fields below 2^32, and the write completes. The server, at a
    -- connection that waits for a header and has nothing to send, handles those bytes without an error,
    -- and its table shows the specified accounts. When the bytes that it then writes arrive, the client
    -- reads a message whose body is the specified answer. Both wait for the next header again.
    pub exchange :
        (conns : ℕ → Connection) (q : Request) (sender : ℕ) (garbage : Bytes)
        (msg read_msg : Message) (queue : W.Queue)
        → Accepts E c s users ps conns db
        → IsSmall q
        → length (request_text (E.rapidjson) q) ≤ max_body_length
        → length garbage ≡ 2048
        → assign (message garbage) (request_text (E.rapidjson) q) ≡ ok msg
        → IsWaiting (conns sender)
        → length read_msg.buffer ≡ 2048
        → fifo.items queue ≡ []
        → Exchanged q sender conns msg (idle_client W read_msg queue (Read.header ∷ []))
    exchange conns q sender garbage msg read_msg queue took short fits room made waits full empty =
        let text = request_text (E.rapidjson) q in
        let cl = idle_client W read_msg queue (Read.header ∷ []) in
        let (d, conns', handled, _, shows, has, _) =
          message_arrives-answers E c s users ps db json laws sound memory_full small conns q sender
            (wire msg) took short fits (message-IsFrame garbage text msg room fits made) waits.full
            waits.reads in
        let (_, _, _, landed) = lands E c s users ps conns db json laws sound took small q sender in
        let reply = wire has.answer in
        let (after, fed, given) = feed-Frames W fifo (_ ∷ []) cl reply full refl refl (
          reply,
          [],
          sym (append-nil reply),
          subst (Fits (E.rapidjson)) landed.answers landed.fits,
          has.frame,
          refl,
        ) in
        let (answer, last, reads, says) = reads_one W fifo cl after _ empty given in
        record {
          line = record { conn = cl; sent = wire msg };
          sent = sends_one W read_msg queue (Read.header ∷ []) msg;
          db' = d;
          conns' = conns';
          handled = handled;
          shows = shows;
          reply = reply;
          listens = has.waiting;
          waits = given.waiting;
          replies =
              has.writing
              ∙ ap
                  (λ q.
                    if is_empty q
                    then (conns sender).writes ++ reply ∷ []
                    else (conns sender).writes)
                  waits.unsent.0
              ∙ ap (λ ws. ws ++ reply ∷ []) waits.unsent.1;
          after = after;
          fed = fed;
          answer = answer;
          last = last;
          reads = reads;
          says = says;
        }
