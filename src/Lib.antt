-- ===== src/Lib.antt =====
-- The backend of a poker game: a TCP server that reads framed JSON requests, registers, logs in and
-- unregisters users in a PostgreSQL table, and answers over the same connection.
--
-- The parts, and the files that model them:
--   Message, Message/Cstdlib: include/net/message.hpp. A message is a buffer of 2048 bytes and a
--     length; `assign` is `operator=`, `decode_header` and `encode_header` have their names, and
--     `atoi`, `sprintf("%4d")` and `memcpy` are the C functions that they call. A copy that leaves
--     the buffer is the result `err undefined`.
--   Rapidjson, Json: include/json_obj.h. `Json.parse` and `value_as_string`, `value_as_size` are the
--     throwing members, `parse_ec`, `string_ec` and `size_ec` those with an error code.
--   Api: components/api/api.h and components/api/api.cpp. `read_login` is
--     `login_request::from_json(const json&)`, `login_from_json` the overload that parses a string,
--     `login_to_json` is `to_json`, and so for the other requests and the responses.
--   Database: src/db/database_worker.cpp, include/db/database_worker.h, include/db/table_user.hpp.
--   Users: src/user.cpp, src/server.cpp and their headers.
--   Connection: src/net/tcp_connection.cpp. A started read or write is put on a list of the
--     connection; the callbacks are `header_done`, `body_arrived` and `write_done`.
--   Handler: src/net/mes_handler. State has the members of `mes_handler` and the steps that its
--     functions are made of, Register, Login and Unregister have the request handlers, Dispatch has
--     `handle`. Spec says what the requests mean on a map from emails to accounts, and Session
--     runs `handle` on a sequence of messages.
--   Server: src/net/tcp_server.cpp, and main.cpp from the configuration on (`start_up`). The next
--     address that the allocator gives is an argument of `start_accept`. Callbacks has the callbacks
--     of src/net/tcp_connection.cpp with the handler that they call, `message_arrives` completes
--     two reads with the bytes of a message, each only if it was started. Loop is the event loop as a step relation: an accept, a completed read
--     or write, or one that failed, of any connection.
--   Logger: components/log.hpp. A `logger` has the address of a logger of spdlog, and a level.
--   Program: main.cpp from the options of the command line on (`main`).
--   Client: components/client. `write` and `close` put a `Task` on the list of what was posted, and
--     `run_task` is the posted lambda; `connect_done`, `write_done`, `header_done`, `body_done` and
--     `read_failed` are the callbacks. Schedule runs the events of the write side in any order, and
--     `feed` of Receiving completes the started reads with a stream of bytes.
--   Terminal: client/main.cpp. `line_read` is the body of the loop up to `read_wait`, `answer_read`
--     what follows when a message is there.
--   Exchange, Conversation: a client and the server, with the bytes carried from each to the other.
--   Network: a set of clients that have joined and the server, with the bytes on their way between them. `act` is
--     what can happen at a client or its connection: the loop of `main` takes a line or prints, a posted
--     lambda runs, a read or a write of either side completes; `run` does so for a schedule. Phase says
--     where the request of a client is, Holds is what every schedule keeps, Linear what is said of it,
--     Rounds that no client is stuck, Draining that it gets all its answers, Races what becomes of
--     clients that want the same email, History how an answer depends on what was answered before it,
--     Joining how a client comes to be in the network, Growing how a network comes about so,
--     Leaving how it leaves, and Crashing what a line does that is no command.
--   Property: components/property.hpp and include/player.h.
--   Tests: runs at concrete inputs, over stand-ins for what is outside the repository.
--
-- How they interact: a connection hands each body that it read to `handle`, which parses it, reads
-- its type and calls a request handler; that queries the database, may add a user to the server, and
-- delivers the JSON text of a response, as a message, to the connection that the request came from. The
-- client program makes a line into a request, passes its text to `write`, and prints the body of the
-- message that the callbacks of the client have put into the queue for it.
--
-- Outside the repository, and parameters of the model: RapidJSON (`Rapidjson`, with `IsFaithful` for
-- what its documentation says of text that its writer wrote), sqlpp11 and PostgreSQL (`Database`, with
-- `IsRelational` for what queries see of inserted and removed rows), SHA512, Boost's `hex` and what
-- fresh memory holds (`Env`), Boost's `split` (`Tools`, with `IsSplitting`), the queue between the two
-- threads of a client (`ReaderWriterQueue`, with `IsFifo`, and in Network that a reader of an empty queue
-- waits), spdlog and fmt (`Spdlog`, with `IsLeveled`).
-- RapidJSON's `absent` says whether assertions are compiled in. A file system is a function from paths to
-- contents, and `binds` says which ports the acceptor can listen on.
--
-- Bounds: numbers of 32 and 64 bits are reduced where the code casts them, and the new id of a
-- registration is checked against 2^63. `digits` takes ten as its fuel, as an `int` has ten digits at
-- most. `read_stream` and `feed` are given the number of reads that
-- complete, two for each frame, and complete only reads that a callback has started.
--
-- Not modelled: which of the callbacks that are ready the event loop runs next (any of them may be), the
-- signal and terminate handlers, the parsing of the command line by Boost, the resolver, the printing of
-- the logger's messages inside the other parts, `operator->` of components/property.hpp, the profiler's
-- macros, and the programs under tests, which talk to a running server. In a schedule of
-- Network a socket loses and reorders nothing, and neither fails nor is closed; one that is closed is in
-- Network/Leaving, and failures are in Server/Loop and Client/Schedule.
pub mod Base
pub mod Message
pub mod Network
pub mod Rapidjson
pub mod Json
pub mod Api
pub mod Database
pub mod Users
pub mod Connection
pub mod Handler
pub mod Logger
pub mod Program
pub mod Property
pub mod Terminal
pub mod Conversation
pub mod Client
pub mod Server
pub mod Exchange
pub mod Tests
