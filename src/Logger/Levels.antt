-- ===== src/Logger/Levels.antt =====
-- The level of a logger: what setting it through one logger means for the others.
use pocker_backend.Base.{
  ℕ, ◌≡◌, ◌≢◌, refl, ap, ◌∙◌, Option, none, some, arith, List, [], ◌∷◌, Bool, false, ◌==◌, inl, inr,
  Option-cases, if◌then◌else◌,
}
use pocker_backend.Base.Bytes.{Bytes, codes}
use pocker_backend.Base.Int.{ℤ, pos}
use pocker_backend.Base.Results.{Result, ok, ◌>>=◌}
use pocker_backend.Logger.{
  Spdlog, IsLeveled, Logger, Logs, put, call, set_level, get_level, clone, log, info, debug,
  get_logger, initialization_logger,
}

module _ (S : Spdlog) where
  call_lem :
      {A : Type 0} (address : Option ℕ) (i : ℕ) (f : ℕ → A)
      → address ≡ some i
      → call S address f ≡ ok (f i)
  call_lem address i f e = rw e refl

  -- What is called through loggers: a level is set, or `log` writes a message.
  pub data Call : Type 0 where
    sets : ℤ → Logger → Call
    writes : Bytes → Logger → Call

  abbrev pub run_calls : List Call → Logs S → Result (Logs S)
  run_calls [] st = ok st
  run_calls (sets l lg ∷ cs) st = set_level S l lg st >>= λ r. run_calls cs r.1
  run_calls (writes mes lg ∷ cs) st = log S mes lg st >>= λ st₁. run_calls cs st₁

  -- Every logger that is called has a spdlog logger.
  abbrev pub AllBacked : List Call → Type 0
  AllBacked [] = Unit
  AllBacked (sets l lg ∷ cs) = (lg.logger ≢ none) × AllBacked cs
  AllBacked (writes mes lg ∷ cs) = (lg.logger ≢ none) × AllBacked cs

  abbrev shares : ℕ → Option ℕ → Bool
  shares i none = false
  shares i (some k) = k == i

  -- The level of an object after the calls: the last one that was set through any logger of it, or the one
  -- that it had.
  abbrev pub last_set : ℕ → List Call → ℤ → ℤ
  last_set i [] before = before
  last_set i (sets l lg ∷ cs) before = last_set i cs (if shares i lg.logger then l else before)
  last_set i (writes mes lg ∷ cs) before = last_set i cs before

  levels :
      (cs : List Call) (st : Logs S)
      → IsLeveled S
      → AllBacked cs
      → (st' : Logs S) × (run_calls cs st ≡ ok st')
        × ((i : ℕ) → S.level (st'.objects i) ≡ last_set i cs (S.level (st.objects i)))
  unfolding set_level log
  levels [] st laws backed = (st, refl, λ i. refl)
  levels (sets l lg ∷ cs) st laws (backed, more) = elim (Option-cases lg.logger) [
    | inl none_there ↦ absurd (backed none_there)
    | inr (k, is) ↦
        let st₁ : Logs S = put S k (S.set_level l (st.objects k)) st in
        let (st', ran, last) = levels cs st₁ laws more in
        (
          st',
          ap (λ r. r >>= λ x. run_calls cs x.1) (call_lem lg.logger k _ is) ∙ ran,
          λ i.
              last i
              ∙ ap (last_set i cs) (ground (arith, is, laws.level-set_level l (st.objects k))),
        )
  ]
  levels (writes mes lg ∷ cs) st laws (backed, more) = elim (Option-cases lg.logger) [
    | inl none_there ↦ absurd (backed none_there)
    | inr (k, is) ↦
        let st₁ : Logs S = put S k (S.log lg.lvl mes (st.objects k)) st in
        let (st', ran, last) = levels cs st₁ laws more in
        (
          st',
          ap (λ r. r >>= λ x. run_calls cs x) (call_lem lg.logger k _ is) ∙ ran,
          λ i.
              last i
              ∙ ap (last_set i cs) (ground (arith, laws.level-log lg.lvl mes (st.objects k))),
        )
  ]

  -- Any calls that set levels and write messages, through any loggers that have a spdlog logger, return;
  -- after them, every logger of an object, and its clone, reads the level that was set last through any logger
  -- of that object, or the one that the object had. But a clone does not keep a level, so that
  -- `log` of a clone writes at `info`.
  pub get_level-run_calls :
      (cs : List Call) (st : Logs S)
      → IsLeveled S
      → AllBacked cs
      → (st' : Logs S) × (run_calls cs st ≡ ok st')
        × ((lg : Logger) (i : ℕ) (mes : Bytes)
            → lg.logger ≡ some i
            → (get_level S lg st' ≡ ok (last_set i cs (S.level (st.objects i))))
              × (get_level S (clone S lg) st' ≡ ok (last_set i cs (S.level (st.objects i))))
              × (log S mes (clone S lg) st' ≡ info S mes lg st'))
  unfolding get_level clone log info
  get_level-run_calls cs st laws backed =
      let (st', ran, last) = levels cs st laws backed in
      (
        st',
        ran,
        λ lg i mes is. (
          call_lem lg.logger i _ is ∙ ap ok (last i),
          call_lem lg.logger i _ is ∙ ap ok (last i),
          refl,
        ),
      )

  -- The logger that `initialization_logger` made is what `get_logger` finds, and messages through
  -- it leave the level that was set.
  pub get_logger-initialization_logger :
      (prefix pid mes : Bytes) (fresh : ℕ) (l : ℤ) (st : Logs S)
      → IsLeveled S
      → (st₁ st₂ : Logs S) × (set_level S l
            (initialization_logger S prefix pid fresh st).0
            (initialization_logger S prefix pid fresh st).1
          ≡ ok (record { logger = some fresh; lvl = l }, st₁))
        × (debug S mes (get_logger S st₁) st₁ ≡ ok st₂)
        × (get_level S (get_logger S st₂) st₂ ≡ ok l)
  unfolding set_level get_level debug get_logger initialization_logger
  get_logger-initialization_logger prefix pid mes fresh l st laws =
      let made : Logs S = (initialization_logger S prefix pid fresh st).1 in
      let o₁ = S.set_level l (made.objects fresh) in
      let st₁ : Logs S = put S fresh o₁ made in
      let o₂ = S.log (pos S.debug) mes (st₁.objects fresh) in
      let found = laws.get-set_default_logger (codes "default") fresh st.registry in
      let read : S.level ((put S fresh o₂ st₁).objects fresh) ≡ l = ground (
        arith,
        laws.level-log (pos S.debug) mes (st₁.objects fresh),
        laws.level-set_level l (made.objects fresh),
      ) in
      (
        st₁,
        put S fresh o₂ st₁,
        refl,
        call_lem _ fresh _ found,
        call_lem _ fresh _ found ∙ ap ok read,
      )
