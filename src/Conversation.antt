-- ===== src/Conversation.antt =====
-- client/main.cpp with the client, the connection and the handlers: from a typed line to the answer
-- that is printed.
use pocker_backend.Base.{
  ℕ, ◌+◌, ◌^◌, ◌<◌, ◌≤◌, ◌≡◌, refl, ap, List, [], ◌∷◌, ◌++◌, true, false, length, some,
}
use pocker_backend.Base.Bytes.{Bytes}
use pocker_backend.Base.Results.{ok}
use pocker_backend.Rapidjson.{IsFaithful}
use pocker_backend.Message.{Message, max_body_length, body}
use pocker_backend.Connection.{Connection, Read}
use pocker_backend.Users.{UserCont}
use pocker_backend.Database.{DbConnectConfig, SqlppConfig}
use pocker_backend.Database.Laws.{IsRelational}
use pocker_backend.Database.Accounts.{IsSound, view}
use pocker_backend.Handler.State.{Env}
use pocker_backend.Handler.Spec.{Request, text_of}
use pocker_backend.Handler.Reply.{running}
use pocker_backend.Handler.Branches.{Accepts}
use pocker_backend.Handler.Landing.{specified, users_after}
use pocker_backend.Handler.Messages.{request_text, IsSmall}
use pocker_backend.Client.{ReaderWriterQueue, IsFifo, Client}
use pocker_backend.Client.Schedule.{Line, runs, completes, run, step}
use pocker_backend.Client.Receiving.{feed}
use pocker_backend.Server.Callbacks.{message_arrives}
use pocker_backend.Exchange.{idle_client, IsWaiting, exchange}
use pocker_backend.Terminal.{Tools, Console, line_read, answer_read}
use pocker_backend.Terminal.Words.{IsSplitting}
use pocker_backend.Terminal.Lines.{Typed, line_read-Typed}

-- The client program, with the libraries of the server.
abbrev pub tools : Env → ReaderWriterQueue → (Bytes → Bytes → List Bytes) → Bytes → Tools
tools E W split garbage = record {
  rapidjson = E.rapidjson;
  sha512 = E.sha512;
  hex = E.hex;
  split = split;
  queue = W;
  memory = garbage;
}

module _ (E : Env) (c : DbConnectConfig) (s : SqlppConfig) (users : UserCont) (ps : List ℕ)
    (db : E.database.Db) (W : ReaderWriterQueue) (split : Bytes → Bytes → List Bytes)
    (garbage : Bytes) where
  abbrev client : Tools
  client = tools E W split garbage

  -- What the line does to the client, the server and what is printed.
  pub record Conversed (line : Bytes) (q : Request) (sender : ℕ) (conns : ℕ → Connection)
      (t : Console client) : Type 0 where
    pub asked : Console client
    pub reads_line : line_read client line t ≡ ok asked
    pub waits : asked.waits ≡ true
    pub sent : Line W
    pub sends : run W (runs ∷ completes ∷ []) (record { conn = asked.conn; sent = [] }) ≡ ok sent
    pub db' : E.database.Db
    pub conns' : ℕ → Connection
    pub handled :
        message_arrives E sender sent.sent (running E c s users ps conns db)
        ≡ (ok [], running E c s (users_after E c s users ps conns db q sender) ps conns' db')
    pub shows : view (E.database) db' ≡ (specified E c s users ps conns db q).0
    pub reply : Bytes
    pub replies : (conns' sender).writes ≡ reply ∷ []
    pub listens : (conns' sender).reads ≡ Read.header ∷ []
    pub after : Client W
    pub fed : feed W 2 sent.conn reply ≡ ok after
    pub receives : after.reads ≡ Read.header ∷ []
    pub last : Console client
    pub prints : answer_read client (record asked { conn = after }) ≡ some last
    pub goes_on : last.waits ≡ false
    pub printed :
        last.printed
        ≡ t.printed ++ text_of (E.rapidjson) (specified E c s users ps conns db q).1 ∷ []

  module _ (json : IsFaithful (E.rapidjson)) (laws : IsRelational (E.database))
      (sound : IsSound (E.database) db) (memory_full : length (E.memory) ≡ 2048)
      (small : E.database.max_user_id db + 1 < 2 ^ 63) (fifo : IsFifo W)
      (splits : IsSplitting split) (room : length garbage ≡ 2048) where
    -- On a connected backend with a sound table that takes the queries, and whose largest id is below
    -- 2^63 - 1, with 2048 bytes of memory for each message, and with the same libraries on both sides: a
    -- line is typed as a command, of a request with fields below 2^32 bytes and a text of at most 2044,
    -- at a client with an open socket, a full-size buffer, nothing to send and nothing to read, that waits
    -- for a header, as its connection at the server does, which has nothing to send. The line is sent without an
    -- error and the program waits; the server handles the bytes without an error, and its table shows the
    -- specified accounts; and when the bytes that it then writes arrive, the program prints the specified
    -- answer, and goes on to the next line; both sides wait for a header again. A read only completes
    -- if a callback has started it.
    pub conversation :
        (line : Bytes) (q : Request) (sender : ℕ) (conns : ℕ → Connection) (read_msg : Message)
        (queue : W.Queue) (printed : List Bytes)
        → Typed client line q
        → IsSmall q
        → length (request_text (E.rapidjson) q) ≤ max_body_length
        → Accepts E c s users ps conns db
        → IsWaiting (conns sender)
        → length read_msg.buffer ≡ 2048
        → fifo.items queue ≡ []
        → Conversed line q sender conns (record {
          conn = idle_client W read_msg queue (Read.header ∷ []);
          waits = false;
          printed = printed;
        })
    unfolding answer_read run step
    conversation line q sender conns read_msg queue printed typed short fits took waits full empty =
        let t : Console client = record {
          conn = idle_client W read_msg queue (Read.header ∷ []);
          waits = false;
          printed = printed;
        } in
        let (msg, sends, made, _, _) = line_read-Typed client room splits line q t typed fits in
        let e =
          exchange E c s users ps db W json laws sound memory_full small fifo conns q sender garbage
            msg read_msg queue took short fits room made waits full empty in
        record {
          asked = _;
          reads_line = sends;
          waits = refl;
          sent = e.line;
          sends = e.sent;
          db' = e.db';
          conns' = e.conns';
          handled = e.handled;
          shows = e.shows;
          reply = e.reply;
          replies = e.replies;
          listens = e.listens;
          receives = e.waits;
          after = e.after;
          fed = e.fed;
          last = record { conn = e.last; waits = false; printed = printed ++ body e.answer ∷ [] };
          goes_on = refl;
          prints = rw (answer_read, e.reads) refl;
          printed = ap (λ text. printed ++ text ∷ []) e.says;
        }
