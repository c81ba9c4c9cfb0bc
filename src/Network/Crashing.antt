-- ===== src/Network/Crashing.antt =====
-- A line that is no command goes to the server as it is typed, and may end it.
use pocker_backend.Base.{
  ℕ, ◌≤◌, ◌≡◌, refl, sym, ap, ◌∙◌, List, [], ◌∷◌, ◌++◌, take, true, false, none, ==_refl, length,
  subst,
}
use pocker_backend.Base.Bytes.{Bytes, codes, c_str}
use pocker_backend.Base.Results.{ok, err, Error}
use pocker_backend.Rapidjson.{IsFaithful}
use pocker_backend.Json.{of_parse_error}
use pocker_backend.Json.Reading.{thrown}
use pocker_backend.Message.{Message, header_length, decode_header, max_body_length, body, wire}
use pocker_backend.Connection.{Connection, Read, do_read_header, body_arrived}
use pocker_backend.Connection.Callbacks.{read_ended}
use pocker_backend.Handler.State.{Env, Backend, Action, ◌>>=◌, ◌>>◌, update}
use pocker_backend.Handler.Dispatch.{handle}
use pocker_backend.Handler.Messages.{handle_unparsed}
use pocker_backend.Server.Callbacks.{on_connection, read_message, end_read, body_callback}
use pocker_backend.Server.Arriving.{at, followed, update_self, body_read, read_ends, rest_of_body}
use pocker_backend.Client.{IsFifo, push, write, run_task, write_done}
use pocker_backend.Client.Schedule.{step, run_posted, end_write}
use pocker_backend.Terminal.{Console}
use pocker_backend.Terminal.Lines.{needed, line_read-as_typed}
use pocker_backend.Network.{
  Kind, act, run, server_read, set, take_line, client_step, reads_line, client_posts, client_wrote,
  server_reads,
}
use pocker_backend.Network.Phase.{idle, Extra, placed, console_of, conn_of, IsFit}
use pocker_backend.Network.Holds.{Setup, programs, Net, place}
use pocker_backend.Network.ServerReads.{header_ran, server_read_lem, server_read_throws}
use pocker_backend.Network.Schedules.{run_step}

-- What the parser throws on a text.
abbrev pub refusal : Env → Bytes → Error
refusal E text =
    thrown (of_parse_error (E.rapidjson.get_parse_error (E.rapidjson.parse (c_str text))))
      (codes "json:") text

module _ (E : Env) (json : IsFaithful (E.rapidjson)) where
  threw_on :
      {A B : Type 0} (m : Action E A) (k : A → Action E B) (b b' : Backend E) (e : Error)
      → m b ≡ (err e, b')
      → (m >>= k) b ≡ (err e, b')
  threw_on m k b b' e threw =
      ap (λ x. elim x.0 [ ok a ↦ k a x.1 | err thrown ↦ (err thrown, x.1) ]) threw

  -- A body that is no JSON.
  body_throws :
      (i : ℕ) (b : Backend E) (c : Connection) (text : Bytes)
      → b.connections i ≡ c
      → c.reads ≡ Read.body (length text) ∷ []
      → length c.read_msg.buffer ≡ 2048
      → c.read_msg.body_length ≡ length text
      → length text ≤ max_body_length
      → E.rapidjson.has_parse_error (E.rapidjson.parse (c_str text)) ≡ true
      → (b' : Backend E) × ((end_read E i >> body_callback E i false text) b
          ≡ (err (refusal E text), b'))
  unfolding body_callback read_message
  body_throws i b c text conn reads full size fits bad =
      let c₁ : Connection = record c { reads = [] } in
      let f₁ : ℕ → Connection = update E b.connections i c₁ in
      let (buffer, arrived, is, _) =
        body_read E i (at E b f₁) text c₁ (update_self E b.connections i c₁) full size fits in
      let c₂ : Connection = record c₁ { read_msg = record c₁.read_msg { buffer = buffer } } in
      let b₂ : Backend E = at E b (update E f₁ i c₂) in
      let msg : Message = (b₂.connections i).read_msg in
      let text_is : body msg ≡ text = ap (λ c. body c.read_msg) (update_self E f₁ i c₂) ∙ is in
      let threw : handle E msg i b₂ ≡ (err (refusal E text), b₂) =
        handle_unparsed E msg i b₂ json (
          subst (λ s. E.rapidjson.has_parse_error (E.rapidjson.parse (c_str s)) ≡ true)
            (sym text_is) bad)
        ∙ ap (λ s. (err (refusal E s), b₂)) text_is in
      (
        b₂,
        followed E (end_read E i) (λ _. body_callback E i false text) b (at E b f₁) tt
              (read_ends E i b c (Read.body (length text)) conn reads)
            ∙ followed E (on_connection E i (body_arrived text)) (λ _. rest_of_body E i) (at E b f₁)
                b₂ tt arrived
            ∙ threw_on (handle E msg i) (λ _. on_connection E i (λ c. ok (do_read_header c))) b₂ b₂
                (refusal E text) threw,
      )

-- What has to happen for a line to be read by the server.
abbrev pub to_server : ℕ → List (Kind × ℕ)
to_server i =
    (reads_line, i)
    ∷ (client_posts, i)
    ∷ (client_wrote, i)
    ∷ (server_reads, i)
    ∷ (server_reads, i)
    ∷ []

module _ (S : Setup) (n : Net S) (i : ℕ) where
  -- The posted message of a client is written.
  posts_it :
      (t : Console (programs S)) (m : Message)
      → n.consoles i
        ≡ record t { conn = record t.conn { posted = push m ∷ []; write_msgs = []; writes = [] } }
      → n.up i ≡ []
      → act (S.env) (programs S) client_posts i n
        ≡ ok (record n {
          consoles = set n.consoles i (record t {
            conn = record t.conn { posted = []; write_msgs = m ∷ []; writes = wire m ∷ [] };
          });
          up = set n.up i [];
        })
  unfolding act client_step step run_posted run_task
  posts_it t m e none_sent = rw (e, none_sent) refl

  wrote_it :
      (t : Console (programs S)) (m : Message)
      → n.consoles i ≡ record t {
        conn = record t.conn { posted = []; write_msgs = m ∷ []; writes = wire m ∷ [] };
      }
      → n.up i ≡ []
      → act (S.env) (programs S) client_wrote i n
        ≡ ok (record n {
          consoles =
              set n.consoles i
                (record t { conn = record t.conn { posted = []; write_msgs = []; writes = [] } });
          up = set n.up i (wire m);
        })
  unfolding act client_step step end_write write_done
  wrote_it t m e none_sent = rw (e, none_sent) refl

  run_throws :
      (k : Kind) (ks : List (Kind × ℕ)) (e : Error)
      → act (S.env) (programs S) k i n ≡ err e
      → run (S.env) (programs S) ((k, i) ∷ ks) n ≡ err e
  unfolding run
  run_throws k ks e threw = rw threw refl

-- The two callbacks of a connection, on a frame that is no JSON.
server_refuses :
    (S : Setup) (n : Net S) (i : ℕ) (json : IsFaithful (S.env.rapidjson)) (c : Connection)
    (line header : Bytes)
    → n.backend.connections i ≡ c
    → c.reads ≡ Read.header ∷ []
    → length c.read_msg.buffer ≡ 2048
    → n.up i ≡ header ++ line
    → length header ≡ header_length
    → ((m : Message)
        → take header_length m.buffer ≡ header
        → decode_header m ≡ (record m { body_length = length line }, true))
    → length line ≤ max_body_length
    → S.env.rapidjson.has_parse_error (S.env.rapidjson.parse (c_str line)) ≡ true
    → run (S.env) (programs S) ((server_reads, i) ∷ (server_reads, i) ∷ []) n
      ≡ err (refusal (S.env) line)
unfolding act
server_refuses S n i json c line header conn reads full glued len decodes fits bad =
    let E = S.env in
    let T = programs S in
    let (buffer, ran, full') = header_ran E i n.backend c line header conn reads full len decodes in
    let c' : Connection = record c {
      read_msg = record { buffer = buffer; body_length = length line };
      reads = Read.body (length line) ∷ [];
    } in
    let f : ℕ → Connection = update E n.backend.connections i (read_ended c) in
    let b : Backend E = at E n.backend (update E f i c') in
    let n' : Net S = record n { backend = b; up = set n.up i line } in
    let here = update_self E f i c' in
    let (b', threw) = body_throws E json i b c' line here refl full' refl fits bad in
    run_step S server_reads i ((server_reads, i) ∷ []) n n' (
      ap (λ rs. server_read E T rs i n) (ap (λ c. c.reads) conn ∙ reads)
      ∙ server_read_lem S n i Read.header [] header line b glued len ran)
    ∙ run_throws S n' i server_reads [] (refusal E line) (
        ap (λ c. server_read E T c.reads i n') here
        ∙ server_read_throws S n' i (Read.body (length line)) [] line (refusal E line) b'
            (rw (==_refl i) refl) refl threw)

module _ (S : Setup) (fifo : IsFifo (S.queue)) (n : Net S) (i : ℕ)
    (json : IsFaithful (S.env.rapidjson)) (room : length (S.garbage) ≡ 2048) where
  -- A client at rest, whose connection is at rest too, types a line that is read for no request, has at
  -- most 2044 bytes, and is refused by the parser. With 2048 bytes of memory for a message, and
  -- faithful documents: whatever the rest of the server is like, once the line has been sent and read,
  -- the server has thrown what the parser says of it.
  pub crashes :
      (x : Extra (programs S)) (line : Bytes) (lines : List Bytes)
      → place S n i ≡ placed (programs S) idle x
      → IsFit (programs S) fifo idle x
      → x.input ≡ line ∷ lines
      → needed line ≡ none
      → length line ≤ max_body_length
      → S.env.rapidjson.has_parse_error (S.env.rapidjson.parse (c_str line)) ≡ true
      → run (S.env) (programs S) (to_server i) n ≡ err (refusal (S.env) line)
  unfolding act write take_line
  crashes x line lines is fit input needs fits bad =
      let t = console_of (programs S) idle x in
      let (m, sends, (header, glued, len, decodes)) =
        line_read-as_typed (programs S) line t room needs fits in
      let t₁ = record t { conn = write (S.queue) m t.conn } in
      let n₁ : Net S = record n { input = set n.input i lines; consoles = set n.consoles i t₁ } in
      let t₂ = record t { conn = record t.conn { write_msgs = m ∷ []; writes = wire m ∷ [] } } in
      let n₂ : Net S = record n₁ { consoles = set n₁.consoles i t₂; up = set n₁.up i [] } in
      let n₃ : Net S = record n₂ { consoles = set n₂.consoles i t; up = set n₂.up i (wire m) } in
      let typed : n.input i ≡ line ∷ lines = ap (λ pl. pl.input) is ∙ input in
      let conn : n.backend.connections i ≡ conn_of (programs S) idle x = ap (λ pl. pl.conn) is in
      run_step S reads_line i _ n n₁ (rw (typed, ap (λ pl. pl.console) is, sends) refl)
      ∙ run_step S client_posts i _ n₁ n₂
          (posts_it S n₁ i t m (rw (==_refl i) refl) (ap (λ pl. pl.up) is))
      ∙ run_step S client_wrote i _ n₂ n₃
          (wrote_it S n₂ i t m (rw (==_refl i) refl) (rw (==_refl i) refl))
      ∙ server_refuses S n₃ i json (conn_of (programs S) idle x) line header conn refl
          fit.server_full (rw (==_refl i) glued) len decodes fits bad
