-- ===== src/Server/Sane.antt =====
-- What every callback keeps of the backend, and how one connection changes.
use pocker_backend.Base.{ℕ, ◌≡◌, ◌≢◌, refl, sym, ap, subst}
use pocker_backend.Base.Results.{Result, ok}
use pocker_backend.Connection.{Connection}
use pocker_backend.Connection.Callbacks.{IsGood}
use pocker_backend.Connection.WriteCallback.{read_side}
use pocker_backend.Handler.State.{Env, Backend, update}
use pocker_backend.Handler.Participants.{IsDistinct}
use pocker_backend.Handler.Keeps.{Keyed, Served, updated}
use pocker_backend.Server.Callbacks.{on_connection}
use pocker_backend.Server.Arriving.{at, update_self, update_other}
use pocker_backend.Server.Inversion.{on_connection_inv}

-- Every connection is good, the participants are a set, and the users stand under their ids.
pub record IsSane {E : Env} (b : Backend E) : Type 0 where
  pub good : (i : ℕ) → IsGood (b.connections i)
  pub distinct : IsDistinct b.participants
  pub keyed : Keyed b.srv

module _ {E : Env} where
  -- Another connection at an address.
  pub set_connection :
      (i : ℕ) (c : Connection) (b : Backend E)
      → IsGood c
      → IsSane b
      → IsSane (at E b (update E b.connections i c))
  set_connection i c b good sane = record {
    good = updated E (λ j k. IsGood k) b.connections i c good sane.good;
    distinct = sane.distinct;
    keyed = sane.keyed;
  }

  -- What was served is as sane as before.
  pub Served-IsSane :
      (b b' : Backend E) → IsSane b → Served E b.participants b.connections b' → IsSane b'
  Served-IsSane b b' sane h = record {
    good = λ i.
        let (read, reads) = h.same i in
        read_side (b.connections i) (b'.connections i) (sane.good i) (h.flow i, read, reads);
    distinct = subst IsDistinct (sym h.joined) sane.distinct;
    keyed = h.keyed;
  }

  pub as_it_is : (b : Backend E) → IsSane b → Served E b.participants b.connections b
  as_it_is b sane = record {
    same = λ i. (refl, refl);
    flow = λ i. (sane.good i).flow;
    joined = refl;
    keyed = sane.keyed;
  }

  -- What a step leaves: another connection is read as before.
  abbrev pub Moves : ℕ → Backend E → Backend E → Type 0
  Moves next b b' = IsSane b' × ((b'.connections next).reads ≡ (b.connections next).reads)

  pub on_step :
      (i next : ℕ) (f : Connection → Result Connection) (b b' : Backend E)
      → IsSane b
      → i ≢ next
      → ((c : Connection) → f (b.connections i) ≡ ok c → IsGood c)
      → on_connection E i f b ≡ (ok tt, b')
      → (c : Connection) × (f (b.connections i) ≡ ok c) × (b'.connections i ≡ c) × Moves next b b'
  on_step i next f b b' sane ne goes e =
      let (c, w, is) = on_connection_inv i f b b' e in
      (
        c,
        w,
        subst (λ k. k.connections i ≡ c) is (update_self E b.connections i c),
        subst (λ k. Moves next b k) is
            (
              set_connection i c b (goes c w) sane,
              ap (λ k. k.reads) (update_other E b.connections i next c ne),
            ),
      )

  -- A step that reads nothing.
  pub on_write :
      (i next : ℕ) (f : Connection → Result Connection) (b b' : Backend E)
      → IsSane b
      → ((c : Connection)
          → f (b.connections i) ≡ ok c
          → IsGood c × (c.reads ≡ (b.connections i).reads))
      → on_connection E i f b ≡ (ok tt, b')
      → (c : Connection) × (f (b.connections i) ≡ ok c) × (b'.connections i ≡ c) × Moves next b b'
  on_write i next f b b' sane goes e =
      let (c, w, is) = on_connection_inv i f b b' e in
      let (good, reads) = goes c w in
      (
        c,
        w,
        subst (λ k. k.connections i ≡ c) is (update_self E b.connections i c),
        subst (λ k. Moves next b k) is
            (
              set_connection i c b good sane,
              updated E (λ j k. k.reads ≡ (b.connections j).reads) b.connections i c reads
                  (λ j. refl) next,
            ),
      )
