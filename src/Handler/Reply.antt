-- ===== src/Handler/Reply.antt =====
-- A reply is made into a message and delivered to the connection of the request, and to no other.
use pocker_backend.Base.{ℕ, ◌≤◌, ◌≡◌, refl, List, [], ◌∷◌, ◌++◌, length, some}
use pocker_backend.Base.Bytes.{Bytes}
use pocker_backend.Base.Results.{ok}
use pocker_backend.Message.{Message, message, body, max_body_length, wire}
use pocker_backend.Message.Frame.{IsFrame, assign-IsFrame}
use pocker_backend.Connection.{Connection, deliver}
use pocker_backend.Users.{UserCont}
use pocker_backend.Database.{DbConnectConfig, SqlppConfig}
use pocker_backend.Handler.State.{Env, Backend, update, deliver_to, reply}

-- A backend as `main` sets it up: worker and server are there, and the worker is connected.
abbrev pub running :
    (E : Env)
    → DbConnectConfig
    → SqlppConfig
    → UserCont
    → List ℕ
    → (ℕ → Connection)
    → E.database.Db
    → Backend E
running E c s users ps conns db = record {
  participants = ps;
  db_wrkr = some (record { config = c; sqlpp_config = s; db_connection = some db });
  srv = some users;
  connections = conns;
}

-- `c'` is `c` with one more message queued, whose body is the text.
abbrev pub Gains : Bytes → Connection → Connection → Type 0
Gains text c c' =
    (m : Message) × (deliver m c ≡ ok c')
    × (c'.write_msgs ≡ c.write_msgs ++ m ∷ [])
    × (body m ≡ text)
    × IsFrame text (wire m)

deliver_total :
    (m : Message) (queue : List Message) (c : Connection)
    → (c' : Connection) × (deliver m (record c { write_msgs = queue }) ≡ ok c')
      × (c'.write_msgs ≡ queue ++ m ∷ [])
unfolding deliver
deliver_total m [] c = (_, refl, refl)
deliver_total m (x ∷ queue) c = (_, refl, refl)

module _ (E : Env) (full : length (E.memory) ≡ 2048) where
  -- A text of at most 2044 bytes is delivered.
  pub reply_lem :
      (text : Bytes) (sender : ℕ) (b : Backend E)
      → length text ≤ max_body_length
      → (c' : Connection) × Gains text (b.connections sender) c'
        × (reply E text sender b
            ≡ (ok tt, record b { connections = update E b.connections sender c' }))
  unfolding reply
  reply_lem text sender b fits =
      let (m, made, _, is_text, frame) = assign-IsFrame (message (E.memory)) text full fits in
      let c = b.connections sender in
      let (c', delivered, queued) = deliver_total m c.write_msgs c in
      (c', (m, delivered, queued, is_text, frame), rw (made, deliver_to, delivered))
