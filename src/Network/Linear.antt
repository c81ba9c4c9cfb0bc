-- ===== src/Network/Linear.antt =====
-- What is assumed of a network at the start, and what is said of it after a schedule.
use pocker_backend.Base.{
  Bool, true, false, ℕ, ◌+◌, ◌≡◌, refl, sym, ap, ◌∙◌, List, [], ◌++◌, length, subst, if◌then◌else◌,
}
use pocker_backend.Base.Bytes.{Bytes}
use pocker_backend.Connection.{Connection}
use pocker_backend.Users.{UserCont}
use pocker_backend.Database.Accounts.{IsSound, view}
use pocker_backend.Handler.Spec.{Request}
use pocker_backend.Handler.Branches.{hashed}
use pocker_backend.Client.{IsFifo}
use pocker_backend.Network.Phase.{
  Phase, idle, posted, writing, sent, announced, answered, replied, told, queued, Extra, placed,
  IsFit, Log, asked_by, texts_to, flight_of, pending_of, waits_of, TypedAll,
}
use pocker_backend.Network.Holds.{Setup, programs, backend_of, Net, Start, place, Holds, Follows}

-- The server is running over a sound table. Each client that has joined is at a phase with no request on its
-- way: at rest, or with an answer, such as the greeting, that it has not printed. The lines that it will
-- read are typed as commands of these requests. Nothing is said of the other connections of the
-- server, such as the one that an accept waits with.
pub record Ready (S : Setup) (fifo : IsFifo (S.queue)) (joined : ℕ → Bool) (phases : ℕ → Phase)
    (requests : ℕ → List Request) (n : Net S) (users : UserCont) (conns : ℕ → Connection)
    (db : S.env.database.Db) : Type 0 where
  pub runs : n.backend ≡ backend_of S users conns db
  pub sound : IsSound (S.env.database) db
  pub unasked : (i : ℕ) → joined i ≡ true → flight_of (phases i) ≡ []
  pub there :
      (i : ℕ)
      → joined i ≡ true
      → (x : Extra (programs S)) × (place S n i ≡ placed (programs S) (phases i) x)
        × IsFit (programs S) fifo (phases i) x
        × TypedAll (programs S) x.input (requests i)

-- What is taken as the start.
abbrev pub start_of :
    (S : Setup)
    → (ℕ → Bool)
    → (ℕ → Phase)
    → (ℕ → List Request)
    → Net S
    → UserCont
    → S.env.database.Db
    → Start
start_of S joined phases requests n users db = record {
  joined = joined;
  requests = requests;
  printed = λ i. (n.consoles i).printed ++ pending_of (phases i);
  accounts = view (S.env.database) db;
  users = users;
  max_id = S.env.database.max_user_id db;
}

-- A client after some requests: those of its requests that were served are in the log, one may be on
-- its way, or its answer may be, and the others are still to be typed. It has printed the other answers,
-- and it waits exactly where something is on its way.
pub record ServedSoFar (S : Setup) (start : Start) (log : Log) (n : Net S) (i : ℕ) : Type 0 where
  pub flight : List Request
  pub pending : List Bytes
  pub todo : List Request
  pub typed : TypedAll (programs S) (n.input i) todo
  pub asks : start.requests i ≡ asked_by i log ++ (flight ++ todo)
  pub shown :
      (n.consoles i).printed ++ pending ≡ start.printed i ++ texts_to (S.env.rapidjson) i log
  pub one : length flight + length pending ≡ (if (n.consoles i).waits then 1 else 0)

-- In the order of the log the specification gives the logged answers, and
-- leaves the users and the accounts of the table. All requests of it come from clients that have joined.
pub record Linearized (S : Setup) (start : Start) (log : Log) (n : Net S) : Type 0 where
  pub users : UserCont
  pub conns : ℕ → Connection
  pub db : S.env.database.Db
  pub runs : n.backend ≡ backend_of S users conns db
  pub sound : IsSound (S.env.database) db
  pub follows :
      Follows
        (hashed (S.env) (S.config))
        start.accounts
        start.users
        log
        (view (S.env.database) db)
        users
  pub clients : (i : ℕ) → start.joined i ≡ true → ServedSoFar S start log n i
  pub others : (i : ℕ) → start.joined i ≡ false → asked_by i log ≡ []

one_of : (p : Phase) → length (flight_of p) + length (pending_of p) ≡ (if waits_of p then 1 else 0)
one_of idle = refl
one_of (posted q m) = refl
one_of (writing q m) = refl
one_of (sent q m) = refl
one_of (announced q) = refl
one_of (answered s m) = refl
one_of (replied s m) = refl
one_of (told s) = refl
one_of (queued s m) = refl

-- What every schedule keeps says this.
pub Holds-Linearized :
    (S : Setup) (fifo : IsFifo (S.queue)) (start : Start) (used : ℕ) (phases : ℕ → Phase)
    (log : Log) (n : Net S)
    → Holds S fifo start used phases log n
    → Linearized S start log n
Holds-Linearized S fifo start used phases log n h = record {
  users = h.users;
  conns = h.conns;
  db = h.db;
  runs = h.runs;
  sound = h.sound;
  follows = h.follows;
  others = h.others;
  clients = λ i is_in.
      let seat = h.seats i is_in in
      record {
        flight = flight_of (phases i);
        pending = pending_of (phases i);
        todo = seat.todo;
        typed = subst (λ pl. TypedAll (programs S) pl.input seat.todo) (sym seat.is) seat.typed;
        asks = seat.asks;
        shown = ap (λ pl. pl.console.printed ++ pending_of (phases i)) seat.is ∙ seat.shown;
        one = one_of (phases i) ∙ ap (λ pl. if pl.console.waits then 1 else 0) (sym seat.is);
      };
}
