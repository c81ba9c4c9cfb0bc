-- ===== src/Network/Holds.antt =====
-- What every schedule keeps of the network: the clients and the server at their phases, and a log of
-- the requests that were served.
use pocker_backend.Base.{
  Bool, true, false, refl, ap, ◌∙◌, ℕ, suc, ◌+◌, ◌≤◌, ◌≡◌, ◌≢◌, sym, List, [], ◌∷◌, ◌++◌, subst,
  arith, inl, inr, Bool-cases, ==_iff, ◌==◌,
}
use pocker_backend.Base.Bytes.{Bytes}
use pocker_backend.Base.Results.{ok}
use pocker_backend.Connection.{Connection}
use pocker_backend.Users.{UserCont}
use pocker_backend.Database.{DbConnectConfig, SqlppConfig}
use pocker_backend.Database.Accounts.{Accounts, IsFresh, IsSound, view}
use pocker_backend.Handler.State.{Env, Backend}
use pocker_backend.Handler.Spec.{Request, spec, spec_users}
use pocker_backend.Handler.Reply.{running}
use pocker_backend.Handler.Branches.{hashed}
use pocker_backend.Client.{ReaderWriterQueue, IsFifo}
use pocker_backend.Terminal.{Tools}
use pocker_backend.Conversation.{tools}
use pocker_backend.Network.{Network, Kind, act, set}
use pocker_backend.Network.Stage.{stage, advance, left}
use pocker_backend.Network.Phase.{
  Phase, Log, Place, Extra, placed, IsFit, TypedAll, asked_by, flight_of, pending_of, Seat,
}

-- The log is an order of the requests in which the specification gives the logged answers, and leaves
-- these accounts and users; each new account is under an id that none had.
pub data Follows (hash : Bytes → Bytes) (accounts : Accounts) (users : UserCont)
    : Log → Accounts → UserCont → Type 0 where
  nothing : Follows hash accounts users [] accounts users
  one_more :
      {log : Log} {a : Accounts} {u : UserCont} (id i : ℕ) (q : Request)
      → Follows hash accounts users log a u
      → IsFresh id a
      → Follows hash accounts users
          ((i, q, (spec hash id q a).1) ∷ log)
          (spec hash id q a).0
          (spec_users hash a i q u)

-- What happens in a schedule happens at clients of the network.
abbrev pub AllJoined : (ℕ → Bool) → List (Kind × ℕ) → Type 0
AllJoined joined [] = Unit
AllJoined joined ((_, i) ∷ ks) = (joined i ≡ true) × AllJoined joined ks

-- What a network has at the start: which clients are in it, the requests that each will ask, what it has
-- printed, and the accounts, the users and the largest id.
pub record Start : Type 0 where
  pub joined : ℕ → Bool
  pub requests : ℕ → List Request
  pub printed : ℕ → List Bytes
  pub accounts : Accounts
  pub users : UserCont
  pub max_id : ℕ

-- The server, as it is running, and the libraries and fresh memory of the clients.
pub record Setup : Type 1 where
  pub env : Env
  pub config : DbConnectConfig
  pub sqlpp_config : SqlppConfig
  pub participants : List ℕ
  pub queue : ReaderWriterQueue
  pub split : Bytes → Bytes → List Bytes
  pub garbage : Bytes

abbrev pub programs : Setup → Tools
programs S = tools (S.env) (S.queue) (S.split) (S.garbage)

abbrev pub backend_of :
    (S : Setup) → UserCont → (ℕ → Connection) → S.env.database.Db → Backend (S.env)
backend_of S users conns db =
    running (S.env) (S.config) (S.sqlpp_config) users (S.participants) conns db

abbrev pub Net : Setup → Type 0
Net S = Network (S.env) (programs S)

module _ (S : Setup) where
  abbrev pub place : Net S → ℕ → Place (programs S)
  place n i = record {
    input = n.input i;
    console = n.consoles i;
    up = n.up i;
    down = n.down i;
    conn = n.backend.connections i;
  }

  module _ (fifo : IsFifo (S.queue)) (start : Start) where
    abbrev pub Sits : Log → ℕ → Phase → Place (programs S) → Type 0
    Sits log i p pl = Seat (programs S) fifo log i (start.requests i) (start.printed i) p pl

    -- A backend at work, with a sound table, that has come about by the requests of the log; and each
    -- client of the network at its phase. Nothing is said of the other connections of the server, but that
    -- no request has come from them.
    pub record Holds (used : ℕ) (phases : ℕ → Phase) (log : Log) (n : Net S) : Type 0 where
      pub users : UserCont
      pub conns : ℕ → Connection
      pub db : S.env.database.Db
      pub runs : n.backend ≡ backend_of S users conns db
      pub sound : IsSound (S.env.database) db
      pub follows :
          Follows
            (hashed (S.env) (S.config))
            start.accounts
            start.users
            log
            (view (S.env.database) db)
            users
      pub ids : S.env.database.max_user_id db ≤ start.max_id + used
      pub seats : (i : ℕ) → start.joined i ≡ true → Sits log i (phases i) (place n i)
      pub others : (i : ℕ) → start.joined i ≡ false → asked_by i log ≡ []

    -- What happens at a client goes well, and takes it to another phase; requests may join the log.
    pub record Acts (used : ℕ) (phases : ℕ → Phase) (log : Log) (k : Kind) (i : ℕ) (p : Phase)
        (n : Net S) : Type 0 where
      pub next : Net S
      pub went : act (S.env) (programs S) k i n ≡ ok next
      pub log' : Log
      pub new : Log
      pub grows : log' ≡ new ++ log
      pub holds : Holds (suc used) (set phases i p) log' next
      pub advances : stage p ≡ advance k (stage (phases i)) (n.input i)
      pub takes : next.input i ≡ left k (stage (phases i)) (n.input i)

    -- The phases of all clients, after one has changed its own.
    pub seats_set :
        (n n' : Net S) (i : ℕ) (p : Phase) (phases : ℕ → Phase) (log : Log)
        → Sits log i p (place n' i)
        → ((j : ℕ) → i ≢ j → place n' j ≡ place n j)
        → ((j : ℕ) → i ≢ j → start.joined j ≡ true → Sits log j (phases j) (place n j))
        → (j : ℕ) → start.joined j ≡ true
        → Sits log j (set phases i p j) (place n' j)
    seats_set n n' i p phases log here others rest j is_in = elim (Bool-cases (i == j)) [
      | inl e ↦
          let same : i ≡ j = (==_iff i j).0 e in
          rw e (subst (λ k. Sits log k p (place n' k)) same here)
      | inr e ↦
          let differ : i ≢ j = λ same. absurd (ground (arith, same, e)) in
          rw e (subst (Sits log j (phases j)) (sym (others j differ)) (rest j differ is_in))
    ]

    -- What only moves one client.
    pub moves :
        {log : Log} (used : ℕ) (phases : ℕ → Phase) (n n' : Net S) (h : Holds used phases log n)
        (conns : ℕ → Connection) (k : Kind) (i : ℕ) (p : Phase)
        → act (S.env) (programs S) k i n ≡ ok n'
        → stage p ≡ advance k (stage (phases i)) (n.input i)
        → n'.input i ≡ left k (stage (phases i)) (n.input i)
        → n'.backend ≡ backend_of S h.users conns h.db
        → Sits log i p (place n' i)
        → ((j : ℕ) → i ≢ j → place n' j ≡ place n j)
        → Acts used phases log k i p n
    moves {log} used phases n n' h conns k i p went advances takes runs here others = record {
      next = n';
      went = went;
      advances = advances;
      takes = takes;
      log' = log;
      new = [];
      grows = refl;
      holds = record {
        users = h.users;
        conns = conns;
        db = h.db;
        runs = runs;
        sound = h.sound;
        follows = h.follows;
        ids = omega (arith, h.ids);
        seats = seats_set n n' i p phases log here others (λ j _. h.seats j);
        others = h.others;
      };
    }

    module _ {log : Log} (used : ℕ) (phases : ℕ → Phase) (n : Net S) (h : Holds used phases log n)
        (i : ℕ) (is_in : start.joined i ≡ true) where
      -- The client at a phase that it is known to have.
      pub seat_at : (p : Phase) → phases i ≡ p → Sits log i p (place n i)
      seat_at p is = subst (λ q. Sits log i q (place n i)) is (h.seats i is_in)

      -- What leaves every client as it is.
      pub stays :
          (n' : Net S) (k : Kind) (p : Phase)
          → act (S.env) (programs S) k i n ≡ ok n'
          → phases i ≡ p
          → stage p ≡ advance k (stage p) (n.input i)
          → n.input i ≡ left k (stage p) (n.input i)
          → n'.backend ≡ n.backend
          → ((j : ℕ) → place n' j ≡ place n j)
          → Acts used phases log k i p n
      stays n' k p went is advances takes runs same =
          moves used phases n n' h h.conns k i p went
            (subst (λ q. stage p ≡ advance k (stage q) (n.input i)) (sym is) advances)
            (ap (λ pl. pl.input) (same i)
              ∙ subst (λ q. n.input i ≡ left k (stage q) (n.input i)) (sym is) takes)
            (runs ∙ h.runs) (subst (Sits log i p) (sym (same i)) (seat_at p is)) (λ j _. same j)

      -- What takes the client from one phase to another with the same request, or the same answer.
      pub passes :
          (n' : Net S) (k : Kind) (conns : ℕ → Connection) (p p' : Phase)
          (f : Place (programs S) → Place (programs S)) (x' : Extra (programs S))
          → (is : phases i ≡ p) → act (S.env) (programs S) k i n ≡ ok n'
          → stage p' ≡ advance k (stage p) (n.input i)
          → n.input i ≡ left k (stage p) (n.input i)
          → n'.backend ≡ backend_of S h.users conns h.db
          → place n' i ≡ f (place n i)
          → f (placed (programs S) p (seat_at p is).extra) ≡ placed (programs S) p' x'
          → IsFit (programs S) fifo p' x'
          → (x'.input ≡ (seat_at p is).extra.input) × (x'.printed ≡ (seat_at p is).extra.printed)
          → (n'.input i ≡ n.input i) × (flight_of p' ≡ flight_of p) × (pending_of p' ≡ pending_of p)
          → ((j : ℕ) → i ≢ j → place n' j ≡ place n j)
          → Acts used phases log k i p' n
      passes n' k conns p p' f x' is went advances takes runs here lands fit (input, printed)
            (lines, flight, pending) others =
          let seat = seat_at p is in
          moves used phases n n' h conns k i p' went
            (subst (λ q. stage p' ≡ advance k (stage q) (n.input i)) (sym is) advances)
            (lines ∙ subst (λ q. n.input i ≡ left k (stage q) (n.input i)) (sym is) takes) runs
            (record {
              extra = x';
              is = here ∙ ap f seat.is ∙ lands;
              fit = fit;
              todo = seat.todo;
              typed = subst (λ lines. TypedAll (programs S) lines seat.todo) (sym input) seat.typed;
              asks = seat.asks ∙ ap (λ qs. asked_by i log ++ (qs ++ seat.todo)) (sym flight);
              shown = rw (printed, pending) seat.shown;
            })
            others
