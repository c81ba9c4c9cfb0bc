-- ===== src/Terminal.antt =====
-- client/main.cpp: the program that sends a request for each line that is typed. The lines that
-- `std::getline` reads are given one by one; the thread of the `io_context` runs between them.
pub mod Words
pub mod Lines
use pocker_backend.Base.{
  ℕ, zero, suc, List, [], ◌∷◌, ◌++◌, Option, none, some, Bool, true, false, ◌&&◌, ◌||◌, ◌==◌,
  if◌then◌else◌,
}
use pocker_backend.Base.Bytes.{Bytes, codes}
use pocker_backend.Base.Results.{Result, ok, err, Error, library_error, ◌>>=◌}
use pocker_backend.Rapidjson.{Rapidjson}
use pocker_backend.Message.{of_string, Message, message, assign, body}
use pocker_backend.Api.Requests.{register_of, login_of, register_to_json, login_to_json}
use pocker_backend.Client.{ReaderWriterQueue, Client, client, write, close, read_wait}
use pocker_backend.Logger.{Spdlog}
use pocker_backend.Program.{check_verbose}

-- What is not part of the repository: RapidJSON, OpenSSL's SHA512, Boost's `hex` and `split` at any of
-- some separators, the queue of the client, and what fresh memory holds.
pub record Tools : Type 1 where
  pub rapidjson : Rapidjson
  pub sha512 : Bytes → Bytes
  pub hex : Bytes → Bytes
  pub split : Bytes → Bytes → List Bytes
  pub queue : ReaderWriterQueue
  pub memory : Bytes

-- The options of `vm`, each if it was given.
pub record Options : Type 0 where
  pub help : Bool
  pub ip : Option Bytes
  pub port : Option Bytes
  pub verbose : Option ℕ

abbrev starts_with : Bytes → Bytes → Bool
starts_with [] s = true
starts_with (x ∷ p) [] = false
starts_with (x ∷ p) (y ∷ s) = (x == y) && starts_with p s

-- `s.find(p) != std::string::npos`
abbrev pub contains : Bytes → Bytes → Bool
contains p [] = starts_with p []
contains p (x ∷ s) = starts_with p (x ∷ s) || contains p s

-- `words.at`
abbrev pub at : List Bytes → ℕ → Result Bytes
at [] i = err library_error
at (w ∷ words) zero = ok w
at (w ∷ words) (suc i) = at words i

abbrev pub separators : Bytes
separators = 9 ∷ b';' ∷ []

module _ (T : Tools) where
  unfoldable pub hash : Bytes → Bytes
  hash orig = T.hex (T.sha512 orig)

  unfoldable pub send_reg_request : Bytes → Client (T.queue) → Result (Client (T.queue))
  send_reg_request line c = do
    let words = T.split separators line
    nickname ← at words 1
    email ← at words 2
    pass ← at words 3
    msg ←
        of_string (T.memory)
          (register_to_json (T.rapidjson) (register_of nickname email (hash pass)))
    ok (write (T.queue) msg c)

  unfoldable pub send_login_request : Bytes → Client (T.queue) → Result (Client (T.queue))
  send_login_request line c = do
    let words = T.split separators line
    email ← at words 1
    pass ← at words 2
    msg ← of_string (T.memory) (login_to_json (T.rapidjson) (login_of email (hash pass)))
    ok (write (T.queue) msg c)

  -- The client, whether `main` waits for an answer, and what it has printed.
  pub record Console : Type 0 where
    pub conn : Client (T.queue)
    pub waits : Bool
    pub printed : List Bytes

  -- The body of the loop, up to `read_wait` where it calls that.
  unfoldable pub line_read : Bytes → Console → Result Console
  line_read line s =
      if contains (codes "/r") line
      then (send_reg_request line s.conn >>= λ c. ok (record s { conn = c; waits = true }))
      else if contains (codes "/l") line
      then (send_login_request line s.conn >>= λ c. ok (record s { conn = c; waits = true }))
      else (of_string (T.memory) line >>= λ msg.
          ok (record s { conn = write (T.queue) msg s.conn }))

  -- `read_wait` and the printing behind it, once there is a message.
  unfoldable pub answer_read : Console → Option Console
  answer_read s = elim (read_wait (T.queue) s.conn) [
    | none ↦ none
    | some (msg, c) ↦
        some (record { conn = c; waits = false; printed = s.printed ++ body msg ∷ [] })
  ]

  -- The end of the input.
  unfoldable pub input_ends : Console → Console
  input_ends s = record s { conn = close (T.queue) s.conn }

  -- How `main` goes on after the options: it returns, aborts or throws, or it connects to this address
  -- and port, and waits for the greeting.
  pub data Launch : Type 0 where
    exits aborts : Launch
    throws : Error → Launch
    connects : Bytes → Bytes → Console → Launch

  unfoldable pub main : Spdlog → Options → Launch
  main S vm = if vm.help then exits else elim (check_verbose S vm.verbose) [
    | err e ↦ throws e
    | ok level ↦ elim vm.port [
      | none ↦ aborts
      | some port ↦ elim vm.ip [
        | none ↦ aborts
        | some ip ↦
            connects ip port
              (record { conn = client (T.queue) (T.memory); waits = true; printed = [] })
      ]
    ]
  ]
