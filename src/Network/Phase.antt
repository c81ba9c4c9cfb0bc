-- ===== src/Network/Phase.antt =====
-- Where the request of one client can be, and what its program, its connection and the sockets are
-- then like.
use pocker_backend.Base.{
  ℕ, ◌≤◌, ◌≡◌, List, [], ◌∷◌, ◌++◌, Bool, true, false, length, if◌then◌else◌, ◌==◌,
}
use pocker_backend.Base.Bytes.{Bytes}
use pocker_backend.Message.{Message, max_body_length, body, wire}
use pocker_backend.Message.Frame.{IsFrame}
use pocker_backend.Connection.{Connection, Read}
use pocker_backend.Handler.Spec.{Request, Answer, text_of}
use pocker_backend.Handler.Messages.{request_text, IsSmall}
use pocker_backend.Rapidjson.{Rapidjson}
use pocker_backend.Client.{IsFifo, Task, push}
use pocker_backend.Terminal.{Tools, Console}
use pocker_backend.Terminal.Lines.{Typed}

-- `main` waits for a line; the message of a request was posted; it is being written; it is on its way;
-- its header was read; the message of an answer is being written; it is on its way; its header was
-- read; it is in the queue of the client.
pub data Phase : Type 0 where
  idle : Phase
  posted : Request → Message → Phase
  writing : Request → Message → Phase
  sent : Request → Message → Phase
  announced : Request → Phase
  answered : Bytes → Message → Phase
  replied : Bytes → Message → Phase
  told : Bytes → Phase
  queued : Bytes → Message → Phase

-- The requests that were served, each with the client and the answer, the last one first.
abbrev pub Log : Type 0
Log = List (ℕ × Request × Answer)

-- The requests of a client, and the texts of its answers, in order.
abbrev pub asked_by : ℕ → Log → List Request
asked_by i [] = []
asked_by i ((j, q, _) ∷ log) =
    let before = asked_by i log in if j == i then before ++ q ∷ [] else before

abbrev pub texts_to : Rapidjson → ℕ → Log → List Bytes
texts_to R i [] = []
texts_to R i ((j, _, answer) ∷ log) =
    let before = texts_to R i log in if j == i then before ++ text_of R answer ∷ [] else before

-- A request that is not served, and an answer that is not printed.
abbrev pub flight_of : Phase → List Request
flight_of (posted q _) = q ∷ []
flight_of (writing q _) = q ∷ []
flight_of (sent q _) = q ∷ []
flight_of (announced q) = q ∷ []
flight_of _ = []

abbrev pub pending_of : Phase → List Bytes
pending_of (answered s _) = s ∷ []
pending_of (replied s _) = s ∷ []
pending_of (told s) = s ∷ []
pending_of (queued s _) = s ∷ []
pending_of _ = []

abbrev pub tasks_of : Phase → List Task
tasks_of (posted _ m) = push m ∷ []
tasks_of _ = []

-- The messages that the client is writing, and the bytes.
abbrev pub writing_of : Phase → List Message
writing_of (writing _ m) = m ∷ []
writing_of _ = []

abbrev pub bytes_of : Phase → List Bytes
bytes_of (writing _ m) = wire m ∷ []
bytes_of _ = []

abbrev pub waits_of : Phase → Bool
waits_of idle = false
waits_of _ = true

-- What the client reads next, and what it has read.
abbrev pub reads_of : Phase → List Read
reads_of (told s) = Read.body (length s) ∷ []
reads_of _ = Read.header ∷ []

abbrev pub items_of : Phase → List Message
items_of (queued _ m) = m ∷ []
items_of _ = []

-- The messages that the server is writing, and the bytes.
abbrev pub replies_of : Phase → List Message
replies_of (answered _ m) = m ∷ []
replies_of _ = []

abbrev pub reply_bytes_of : Phase → List Bytes
reply_bytes_of (answered _ m) = wire m ∷ []
reply_bytes_of _ = []

abbrev pub down_of : Phase → Bytes
down_of (replied _ m) = wire m
down_of (told s) = s
down_of _ = []

module _ (T : Tools) where
  -- What the server reads next, and what is on its way.
  abbrev pub server_reads_of : Phase → List Read
  server_reads_of (announced q) = Read.body (length (request_text (T.rapidjson) q)) ∷ []
  server_reads_of _ = Read.header ∷ []

  abbrev pub up_of : Phase → Bytes
  up_of (sent _ m) = wire m
  up_of (announced q) = request_text (T.rapidjson) q
  up_of _ = []

  -- What the network holds of one client.
  pub record Place : Type 0 where
    pub input : List Bytes
    pub console : Console T
    pub up : Bytes
    pub down : Bytes
    pub conn : Connection

  -- What its phase does not say of it.
  pub record Extra : Type 0 where
    pub input : List Bytes
    pub printed : List Bytes
    pub client_msg : Message
    pub queue : T.queue.Queue
    pub connects : Bool
    pub handler : Bool
    pub server_msg : Message

  abbrev pub console_of : Phase → Extra → Console T
  console_of p x = record {
    conn = record {
      read_msg = x.client_msg;
      write_msgs = writing_of p;
      read_messages = x.queue;
      is_closed = false;
      posted = tasks_of p;
      connects = x.connects;
      reads = reads_of p;
      writes = bytes_of p;
    };
    waits = waits_of p;
    printed = x.printed;
  }

  abbrev pub conn_of : Phase → Extra → Connection
  conn_of p x = record {
    handler = x.handler;
    read_msg = x.server_msg;
    write_msgs = replies_of p;
    reads = server_reads_of p;
    writes = reply_bytes_of p;
  }

  abbrev pub placed : Phase → Extra → Place
  placed p x = record {
    input = x.input;
    console = console_of p x;
    up = up_of p;
    down = down_of p;
    conn = conn_of p x;
  }

  -- A request that fits a message.
  pub record IsSendable (q : Request) : Type 0 where
    pub small : IsSmall q
    pub fits : length (request_text (T.rapidjson) q) ≤ max_body_length

  -- The lines are typed as commands, of these requests, which fit.
  abbrev pub TypedAll : List Bytes → List Request → Type 0
  TypedAll [] qs = qs ≡ []
  TypedAll (line ∷ lines) [] = ⊥
  TypedAll (line ∷ lines) (q ∷ qs) = Typed T line q × IsSendable q × TypedAll lines qs

  abbrev pub OwnFit : Phase → Extra → Type 0
  OwnFit idle x = Unit
  OwnFit (posted q m) x = IsSendable q × IsFrame (request_text (T.rapidjson) q) (wire m)
  OwnFit (writing q m) x = IsSendable q × IsFrame (request_text (T.rapidjson) q) (wire m)
  OwnFit (sent q m) x = IsSendable q × IsFrame (request_text (T.rapidjson) q) (wire m)
  OwnFit (announced q) x =
      IsSendable q × (x.server_msg.body_length ≡ length (request_text (T.rapidjson) q))
  OwnFit (answered s m) x = (length s ≤ max_body_length) × IsFrame s (wire m)
  OwnFit (replied s m) x = (length s ≤ max_body_length) × IsFrame s (wire m)
  OwnFit (told s) x = (length s ≤ max_body_length) × (x.client_msg.body_length ≡ length s)
  OwnFit (queued s m) x = body m ≡ s

  module _ (fifo : IsFifo (T.queue)) where
    pub record IsFit (p : Phase) (x : Extra) : Type 0 where
      pub client_full : length x.client_msg.buffer ≡ 2048
      pub server_full : length x.server_msg.buffer ≡ 2048
      pub holds : fifo.items x.queue ≡ items_of p
      pub own : OwnFit p x

    -- A client at this phase, after the requests of the log, where it has these requests in all and had
    -- printed these texts.
    pub record Seat (log : Log) (i : ℕ) (requests : List Request) (before : List Bytes) (p : Phase)
        (pl : Place) : Type 0 where
      pub extra : Extra
      pub is : pl ≡ placed p extra
      pub fit : IsFit p extra
      pub todo : List Request
      pub typed : TypedAll extra.input todo
      pub asks : requests ≡ asked_by i log ++ (flight_of p ++ todo)
      pub shown : extra.printed ++ pending_of p ≡ before ++ texts_to (T.rapidjson) i log
