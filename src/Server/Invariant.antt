-- ===== src/Server/Invariant.antt =====
-- What holds in every state of the event loop.
use pocker_backend.Base.{
  Bool, ℕ, ◌≡◌, ◌≢◌, refl, sym, ap, ◌∙◌, subst, inl, inr, List, [], ◌∷◌, ◌++◌, false, length, arith,
}
use pocker_backend.Base.Bytes.{Bytes}
use pocker_backend.Base.Results.{ok, err, Result-cases}
use pocker_backend.Connection.{Connection, Read, connection}
use pocker_backend.Connection.Callbacks.{IsGood, announced, ok_inj}
use pocker_backend.Handler.State.{Env, Backend}
use pocker_backend.Server.{TcpServer, start_accept}
use pocker_backend.Server.Callbacks.{header_callback, body_callback, end_read}
use pocker_backend.Server.Arriving.{update_self}
use pocker_backend.Server.Inversion.{returned}
use pocker_backend.Server.Loop.{
  starts, then_steps, Step, accepts, reads_header, reads_body, fails_read, ends_write, Reaches,
  read_fails,
}
use pocker_backend.Server.Sane.{IsSane, set_connection, Moves}
use pocker_backend.Server.Steps.{read_taken, header_step, body_step, fail_step, write_step}
use pocker_backend.Server.Greeting.{greet_step, accept_inv}
use pocker_backend.Server.{blank}
use pocker_backend.Server.Starting.{start_up, listen}
use pocker_backend.Database.{read_cfg, connect, database_worker}
use pocker_backend.Handler.State.{set_server, connect_db_worker}

-- One accept waits, with a connection that nothing is read from.
pub record Invariant {E : Env} (s : TcpServer E) : Type 0 where
  pub sane : IsSane s.backend
  pub next : ℕ
  pub waits : s.accepts ≡ next ∷ []
  pub unread : (s.backend.connections next).reads ≡ []

-- Where a read is outstanding, it is not the waiting connection.
pub not_waiting :
    (f : ℕ → Connection) (i next : ℕ) (r : Read) (rest : List Read)
    → (f i).reads ≡ r ∷ rest
    → (f next).reads ≡ []
    → i ≢ next
not_waiting f i next r rest e none same =
    let there : (f next).reads ≡ r ∷ rest = subst (λ j. (f j).reads ≡ r ∷ rest) same e in
    cc (there, none)

module _ {E : Env} where
  -- The connection that the next accept waits with is new.
  waits_anew :
      (fresh : ℕ) (s : TcpServer E)
      → length (E.memory) ≡ 2048
      → IsSane s.backend
      → s.accepts ≡ []
      → Invariant (start_accept E fresh s)
  unfolding start_accept
  waits_anew fresh s full sane none = record {
    sane =
        set_connection fresh (connection (E.memory)) s.backend
          (record { full = full; small = omega arith; flow = inl refl; reading = inl refl }) sane;
    next = fresh;
    waits = ap (λ a. a ++ fresh ∷ []) none;
    unread = ap (λ k. k.reads) (update_self E s.backend.connections fresh (connection (E.memory)));
  }

  moved :
      {s : TcpServer E} (h : Invariant s) (b : Backend E)
      → Moves h.next s.backend b
      → Invariant (record s { backend = b })
  moved h b (sane, reads) = record {
    sane = sane;
    next = h.next;
    waits = h.waits;
    unread = reads ∙ h.unread;
  }

  -- The invariant is kept by every step.
  pub Step-Invariant :
      (s s' : TcpServer E) → length (E.memory) ≡ 2048 → Invariant s → Step E s s' → Invariant s'
  Step-Invariant s s' memory h (accepts i fresh error rest waits e) =
      let same : h.next ≡ i = cc (waits, h.waits) in
      let none : rest ≡ [] = cc (waits, h.waits) in
      let unread : (s.backend.connections i).reads ≡ [] =
        subst (λ j. (s.backend.connections j).reads ≡ []) same h.unread in
      let (b, greeted, is) = accept_inv i fresh error (record s { accepts = rest }) s' e in
      let sane = greet_step i error s.backend b h.sane unread greeted in
      subst Invariant is
        (waits_anew fresh (record { backend = b; accepts = rest }) memory sane none)
  Step-Invariant s s' memory h (reads_header {b = b} i rest arrived waits len e) =
      let ne = not_waiting s.backend.connections i h.next _ rest waits h.unread in
      let (_, b₁, e₁, f₁) =
        returned (end_read E i) (λ _. header_callback E i false arrived) s.backend b tt e in
      let ((sane₁, reads₁), none, _) = read_taken i h.next _ rest s.backend b₁ h.sane ne waits e₁ in
      let (sane₂, reads₂) = header_step i h.next arrived b₁ b sane₁ ne none len f₁ in
      moved h b (sane₂, reads₂ ∙ reads₁)
  Step-Invariant s s' memory h (reads_body {b = b} i n rest arrived waits len e) =
      let ne = not_waiting s.backend.connections i h.next _ rest waits h.unread in
      let (_, b₁, e₁, f₁) =
        returned (end_read E i) (λ _. body_callback E i false arrived) s.backend b tt e in
      let ((sane₁, reads₁), none, read) =
        read_taken i h.next _ rest s.backend b₁ h.sane ne waits e₁ in
      let size : length arrived ≡ (b₁.connections i).read_msg.body_length =
        len
        ∙ announced (s.backend.connections i) n rest (h.sane.good i).reading waits
        ∙ ap (λ m. m.body_length) (sym read) in
      let (sane₂, reads₂) = body_step i h.next arrived b₁ b sane₁ ne none size f₁ in
      moved h b (sane₂, reads₂ ∙ reads₁)
  Step-Invariant s s' memory h (fails_read {b = b} i r rest waits e) =
      let ne = not_waiting s.backend.connections i h.next r rest waits h.unread in
      let (_, b₁, e₁, f₁) = returned (end_read E i) (λ _. read_fails E r i) s.backend b tt e in
      let ((sane₁, reads₁), _, _) = read_taken i h.next r rest s.backend b₁ h.sane ne waits e₁ in
      let (sane₂, reads₂) = fail_step i h.next r b₁ b sane₁ f₁ in moved h b (sane₂, reads₂ ∙ reads₁)
  Step-Invariant s s' memory h (ends_write {b = b} i error w rest writing e) =
      moved h b (write_step i h.next error w rest s.backend b h.sane writing e)

  reaches :
      (s s' : TcpServer E) → length (E.memory) ≡ 2048 → Invariant s → Reaches E s s' → Invariant s'
  reaches s _ memory h starts = h
  reaches s _ memory h (then_steps {s = middle} reached step) =
      Step-Invariant middle _ memory (reaches s middle memory h reached) step

  -- The server starts with the invariant.
  start_up-Invariant :
      (binds : ℕ → Bool) (content : Bytes) (port fresh : ℕ) (s : TcpServer E)
      → length (E.memory) ≡ 2048
      → start_up E binds content port fresh ≡ ok s
      → Invariant s
  unfolding start_up set_server connect_db_worker
  start_up-Invariant binds content port fresh s memory e =
      elim (Result-cases (read_cfg (E.rapidjson) content)) [
        | inl (thrown, threw) ↦
            let failed : start_up E binds content port fresh ≡ err thrown = rw threw refl in
            absurd (cc (e, failed))
        | inr (config, read) ↦
            elim (Result-cases (connect (E.database) (database_worker (E.database) config))) [
              | inl (thrown, threw) ↦
                  let failed : start_up E binds content port fresh ≡ err thrown =
                    rw (read, threw) refl in
                  absurd (cc (e, failed))
              | inr (wrkr, connected) ↦ elim (Result-cases (listen binds port)) [
                | inl (thrown, threw) ↦
                    let failed : start_up E binds content port fresh ≡ err thrown =
                      rw (read, connected, threw) refl in
                    absurd (cc (e, failed))
                | inr (acceptor, bound) ↦
                    let fine = connection (E.memory) in
                    let good : IsGood fine = record {
                      full = memory;
                      small = omega arith;
                      flow = inl refl;
                      reading = inl refl;
                    } in
                    let first : Invariant (start_accept E fresh (blank E)) =
                      waits_anew fresh (blank E) memory
                        (record { good = λ i. good; distinct = tt; keyed = tt }) refl in
                    let server = start_accept E fresh (blank E) in
                    let made : TcpServer E = record server {
                      backend = set_server E [] (connect_db_worker E wrkr server.backend);
                    } in
                    let done : start_up E binds content port fresh ≡ ok made =
                      rw (read, connected, bound) refl in
                    subst Invariant (ok_inj (sym done ∙ e)) (record {
                      sane = record {
                        good = first.sane.good;
                        distinct = first.sane.distinct;
                        keyed = tt;
                      };
                      next = first.next;
                      waits = first.waits;
                      unread = first.unread;
                    })
              ]
            ]
      ]

  -- In every state that the event loop reaches from the one that the server starts in, with 2048 bytes of
  -- memory for a message: one accept waits, with a connection that nothing is read from; the buffer that
  -- each connection reads into has its full size, and the announced length is at most 2044; no read is
  -- outstanding, or one of a header, or one of as many bytes as were announced; of the queued messages
  -- the front is being written, and only that, or no write is outstanding; the participants are a set;
  -- and the users stand under their ids.
  pub Reaches-Invariant :
      (binds : ℕ → Bool) (content : Bytes) (port fresh : ℕ) (s s' : TcpServer E)
      → length (E.memory) ≡ 2048
      → start_up E binds content port fresh ≡ ok s
      → Reaches E s s'
      → Invariant s'
  Reaches-Invariant binds content port fresh s s' memory started reached =
      reaches s s' memory (start_up-Invariant binds content port fresh s memory started) reached
