-- ===== src/Network/ClientSide.antt =====
-- The thread of the `io_context` of a client, on its write side: what happens takes the client to its
-- next phase, or leaves it.
use pocker_backend.Base.{
  true, ℕ, ◌≡◌, refl, ap, ◌∙◌, [], ==_refl, ◌==◌, inl, inr, Bool-cases, ==_iff,
}
use pocker_backend.Message.{wire}
use pocker_backend.Client.{IsFifo, run_task, write_done}
use pocker_backend.Client.Schedule.{step, run_posted, end_write}
use pocker_backend.Network.{act, client_step, set, client_posts, client_wrote}
use pocker_backend.Network.Stage.{stage, advance, ==_apart}
use pocker_backend.Network.Phase.{
  Log, Phase, idle, posted, writing, sent, announced, answered, replied, told, queued, tasks_of,
  bytes_of, console_of,
}
use pocker_backend.Network.Holds.{
  Setup, programs, Start, Net, Holds, Acts, place, seat_at, stays, passes,
}

-- A family that is set to what it is.
pub set_same {ℓ} : {A : Type ℓ} (f : ℕ → A) (i j : ℕ) → set f i (f i) j ≡ f j
set_same f i j = elim (Bool-cases (i == j)) [
  | inl e ↦ let same : i ≡ j = (==_iff i j).0 e in rw e (ap f same)
  | inr e ↦ rw e refl
]

module _ {S : Setup} {fifo : IsFifo (S.queue)} {start : Start} {log : Log} (used : ℕ)
    (phases : ℕ → Phase) (n : Net S) (h : Holds S fifo start used phases log n) (i : ℕ)
    (is_in : start.joined i ≡ true) where
  -- The network after a step of the client that changes nothing.
  abbrev unchanged : Net S
  unchanged = record n { consoles = set n.consoles i (n.consoles i); up = set n.up i (n.up i) }

  place-unchanged : (j : ℕ) → place S unchanged j ≡ place S n j
  place-unchanged j = rw (set_same n.consoles i j, set_same n.up i j) refl

  posts_stays :
      (p : Phase)
      → phases i ≡ p
      → tasks_of p ≡ []
      → stage p ≡ advance client_posts (stage p) (n.input i)
      → Acts S fifo start used phases log client_posts i p n
  unfolding act client_step step run_posted
  posts_stays p is none at_rest =
      let seat = seat_at S fifo start used phases n h i is_in p is in
      let tasks : (n.consoles i).conn.posted ≡ [] =
        ap (λ pl. pl.console.conn.posted) seat.is ∙ none in
      stays S fifo start used phases n h i is_in unchanged client_posts p (rw tasks refl) is at_rest
        refl refl place-unchanged

  -- A posted lambda runs: the message is written.
  pub client_posts-Acts :
      (p : Phase)
      → phases i ≡ p
      → (p' : Phase) × Acts S fifo start used phases log client_posts i p' n
  unfolding act client_step step run_posted run_task
  client_posts-Acts (posted q m) is =
      let seat = seat_at S fifo start used phases n h i is_in (posted q m) is in
      let after = console_of (programs S) (writing q m) seat.extra in
      let n' : Net S = record n { consoles = set n.consoles i after; up = set n.up i ([]) } in
      (
        writing q m,
        passes S fifo start used phases n h i is_in n' client_posts h.conns (posted q m)
            (writing q m) (λ pl. record pl { console = after; up = [] }) seat.extra is
            (rw (ap (λ pl. pl.console) seat.is, ap (λ pl. pl.up) seat.is) refl) refl refl h.runs
            (rw (==_refl i) refl) refl
            (record {
              client_full = seat.fit.client_full;
              server_full = seat.fit.server_full;
              holds = seat.fit.holds;
              own = seat.fit.own;
            })
            (refl, refl) (refl, refl, refl) (λ j ne. rw (==_apart i j ne) refl),
      )
  client_posts-Acts idle is = (_, posts_stays idle is refl refl)
  client_posts-Acts (writing q m) is = (_, posts_stays (writing q m) is refl refl)
  client_posts-Acts (sent q m) is = (_, posts_stays (sent q m) is refl refl)
  client_posts-Acts (announced q) is = (_, posts_stays (announced q) is refl refl)
  client_posts-Acts (answered t m) is = (_, posts_stays (answered t m) is refl refl)
  client_posts-Acts (replied t m) is = (_, posts_stays (replied t m) is refl refl)
  client_posts-Acts (told t) is = (_, posts_stays (told t) is refl refl)
  client_posts-Acts (queued t m) is = (_, posts_stays (queued t m) is refl refl)

  wrote_stays :
      (p : Phase)
      → phases i ≡ p
      → bytes_of p ≡ []
      → stage p ≡ advance client_wrote (stage p) (n.input i)
      → Acts S fifo start used phases log client_wrote i p n
  unfolding act client_step step end_write
  wrote_stays p is none at_rest =
      let seat = seat_at S fifo start used phases n h i is_in p is in
      let written : (n.consoles i).conn.writes ≡ [] =
        ap (λ pl. pl.console.conn.writes) seat.is ∙ none in
      stays S fifo start used phases n h i is_in unchanged client_wrote p (rw written refl) is
        at_rest refl refl place-unchanged

  -- A write completes: its bytes are on their way.
  pub client_wrote-Acts :
      (p : Phase)
      → phases i ≡ p
      → (p' : Phase) × Acts S fifo start used phases log client_wrote i p' n
  unfolding act client_step step end_write write_done
  client_wrote-Acts (writing q m) is =
      let seat = seat_at S fifo start used phases n h i is_in (writing q m) is in
      let after = console_of (programs S) (sent q m) seat.extra in
      let n' : Net S = record n { consoles = set n.consoles i after; up = set n.up i (wire m) } in
      (
        sent q m,
        passes S fifo start used phases n h i is_in n' client_wrote h.conns (writing q m) (sent q m)
            (λ pl. record pl { console = after; up = wire m }) seat.extra is
            (rw (ap (λ pl. pl.console) seat.is, ap (λ pl. pl.up) seat.is) refl) refl refl h.runs
            (rw (==_refl i) refl) refl
            (record {
              client_full = seat.fit.client_full;
              server_full = seat.fit.server_full;
              holds = seat.fit.holds;
              own = seat.fit.own;
            })
            (refl, refl) (refl, refl, refl) (λ j ne. rw (==_apart i j ne) refl),
      )
  client_wrote-Acts idle is = (_, wrote_stays idle is refl refl)
  client_wrote-Acts (posted q m) is = (_, wrote_stays (posted q m) is refl refl)
  client_wrote-Acts (sent q m) is = (_, wrote_stays (sent q m) is refl refl)
  client_wrote-Acts (announced q) is = (_, wrote_stays (announced q) is refl refl)
  client_wrote-Acts (answered t m) is = (_, wrote_stays (answered t m) is refl refl)
  client_wrote-Acts (replied t m) is = (_, wrote_stays (replied t m) is refl refl)
  client_wrote-Acts (told t) is = (_, wrote_stays (told t) is refl refl)
  client_wrote-Acts (queued t m) is = (_, wrote_stays (queued t m) is refl refl)
