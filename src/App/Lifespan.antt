-- ===== src/App/Lifespan.antt =====
-- `lifespan` and `_stats_cache_invalidation` of src/app/main.py, as the steps that are taken and
-- which of them raise. A step of the trace was started; the parameter `raises` says whether it
-- failed. The prefetch, which logs its failures, and the flush may raise as well here.
use template_fastapi.Base.{
  Bool, true, false, Bool-cases, inl, inr, ◌⊎◌, ◌≢◌, ◌||◌, ◌&&◌, not, List, [], ◌∷◌, ◌++◌,
  if◌then◌else◌, ◌≡◌, refl, sym, ap, ◌∙◌, arith,
}
use template_fastapi.Settings.{Settings, Mode, mock}
use mathlib.Core.List.{append_assoc, append-nil}

pub data Step : Type 0 where
  run_migrations : Step
  prefetch_jwks : Step
  create_task : Step
  freeze : Step
  serve : Step
  cancel_task : Step
  close_cache : Step
  close_health_checks : Step
  analytics_shutdown : Step
  dispose_engine : Step

-- The shared cache of the statistics: none, in the process, or in Redis.
pub data StatsCache : Type 0 where
  absent : StatsCache
  in_memory : StatsCache
  in_redis : StatsCache

-- A block's steps, and whether it ended in an exception.
abbrev pub Run : Type 0
Run = List Step × Bool

-- One block, then the next unless the first raised.
abbrev pub then_run : Run → Run → Run
then_run (steps, true) next = (steps, true)
then_run (steps, false) next = (steps ++ next.0, next.1)

-- `try: block finally: last`
abbrev pub finally_run : Run → Run → Run
finally_run (steps, failed) last = (steps ++ last.0, failed || last.1)

abbrev pub nothing : Run
nothing = ([], false)

then_run_raised : (r next : Run) → r.1 ≡ true → then_run r next ≡ r
then_run_raised (steps, true) next h = refl
then_run_raised (steps, false) next h = absurd (ground arith)

then_run_fine : (r next : Run) → r.1 ≡ false → (then_run r next).0 ≡ r.0 ++ next.0
then_run_fine (steps, true) next h = absurd (ground arith)
then_run_fine (steps, false) next h = refl

started_steps :
    (s : Step) (failed : Bool) (block ended : Run)
    → (then_run (s ∷ [], failed) (finally_run block ended)).0
      ≡ s ∷ (if not failed then block.0 ++ ended.0 else [])
started_steps s true block ended = refl
started_steps s false block ended = refl

cancelled_steps :
    (s t : Step) (failed failed' : Bool)
    → (then_run (s ∷ [], failed) (t ∷ [], failed')).0 ≡ (if failed then s ∷ [] else s ∷ t ∷ [])
cancelled_steps s t true failed' = refl
cancelled_steps s t false failed' = refl

cancelled_step : (s : Step) (failed : Bool) → (then_run (s ∷ [], failed) nothing).0 ≡ s ∷ []
cancelled_step s true = refl
cancelled_step s false = refl

module _ (raises : Step → Bool) where
  abbrev pub step : Step → Run
  step s = (s ∷ [], raises s)

  abbrev pub close_in_redis : StatsCache → Run
  close_in_redis in_redis = step close_cache
  close_in_redis _ = nothing

  -- The cache's context around a block: the task runs meanwhile, and is cancelled and awaited.
  abbrev pub invalidating : StatsCache → Run → Run
  invalidating absent block = block
  invalidating cache block =
      then_run (step create_task)
        (finally_run block (then_run (step cancel_task) (close_in_redis cache)))

  abbrev pub body : Settings → Run
  body s = then_run (if s.gc_freeze then step freeze else nothing) (step serve)

  abbrev pub closing : Run
  closing =
      finally_run (step close_health_checks)
        (finally_run (step analytics_shutdown) (step dispose_engine))

  abbrev pub is_mock : Mode → Bool
  is_mock mock = true
  is_mock _ = false

  abbrev pub migrates : Settings → Bool
  migrates s = s.run_migrations_on_startup && not (is_mock s.mode)

  abbrev pub starting : Settings → Run
  starting s = then_run (if migrates s then step run_migrations else nothing) (step prefetch_jwks)

  unfoldable pub lifespan : Settings → StatsCache → Run
  lifespan s cache = then_run (starting s) (finally_run (invalidating cache (body s)) closing)

  -- The last steps, in this order.
  abbrev pub all_closed : List Step
  all_closed = close_health_checks ∷ analytics_shutdown ∷ dispose_engine ∷ []

  -- The cache's task, if there is one, is cancelled after the app has served, and Redis is closed
  -- unless the task's end raised.
  abbrev pub cache_ended : StatsCache → List Step
  cache_ended absent = []
  cache_ended in_memory = cancel_task ∷ []
  cache_ended in_redis =
      if raises cancel_task then cancel_task ∷ [] else cancel_task ∷ close_cache ∷ []

  abbrev pub cache_started : StatsCache → List Step
  cache_started absent = []
  cache_started _ = create_task ∷ []

  abbrev pub has_started : StatsCache → Bool
  has_started absent = true
  has_started _ = not (raises create_task)

  ended_steps :
      (cache : StatsCache) (block : Run)
      → (invalidating cache block).0
        ≡ cache_started cache ++ (if has_started cache then block.0 ++ cache_ended cache else [])
  ended_steps absent block = sym (append-nil block.0)
  ended_steps in_memory block =
      let ended = then_run (step cancel_task) nothing in
      started_steps create_task (raises create_task) block ended
      ∙ ap (λ t. create_task ∷ (if not (raises create_task) then block.0 ++ t else []))
          (cancelled_step cancel_task (raises cancel_task))
  ended_steps in_redis block =
      let ended = then_run (step cancel_task) (step close_cache) in
      started_steps create_task (raises create_task) block ended
      ∙ ap (λ t. create_task ∷ (if not (raises create_task) then block.0 ++ t else []))
          (cancelled_steps cancel_task close_cache (raises cancel_task) (raises close_cache))

  -- The first steps: the migrations, if they are asked for and this is not MODE=mock, and then,
  -- unless they raise, the prefetch.
  abbrev pub IsStarted : Settings → Run → Type 0
  IsStarted s r =
      ((s.run_migrations_on_startup ≡ true)
        × (s.mode ≢ mock)
        × (((raises run_migrations ≡ true) × (r ≡ (run_migrations ∷ [], true)))
            ⊎ ((raises run_migrations ≡ false)
                × (r ≡ (run_migrations ∷ prefetch_jwks ∷ [], raises prefetch_jwks)))))
      ⊎ (((s.run_migrations_on_startup ≡ false) ⊎ (s.mode ≡ mock))
          × (r ≡ (prefetch_jwks ∷ [], raises prefetch_jwks)))

  -- The steps of serving: the freezing, if it is asked for, and then, unless it raises, the app.
  abbrev pub IsServing : Settings → List Step → Type 0
  IsServing s steps =
      ((s.gc_freeze ≡ false) × (steps ≡ serve ∷ []))
      ⊎ ((s.gc_freeze ≡ true)
          × (((raises freeze ≡ false) × (steps ≡ freeze ∷ serve ∷ []))
              ⊎ ((raises freeze ≡ true) × (steps ≡ freeze ∷ []))))

  mock_or_real : (m : Mode) → ((is_mock m ≡ true) × (m ≡ mock)) ⊎ ((is_mock m ≡ false) × (m ≢ mock))
  mock_or_real mock = inl (refl, refl)
  mock_or_real _ = inr (refl, λ e. cc)

  starting-IsStarted : (s : Settings) → IsStarted s (starting s)
  starting-IsStarted s = elim (Bool-cases s.run_migrations_on_startup) [
    | inr e ↦ inr (inl e, rw e refl)
    | inl e ↦ elim (mock_or_real s.mode) [
      | inl (f, m) ↦ inr (inr m, rw (e, f) refl)
      | inr (f, m) ↦ inl (
        e,
        m,
        elim (Bool-cases (raises run_migrations)) [
          | inl g ↦ inl (g, rw (e, f, g) refl)
          | inr g ↦ inr (g, rw (e, f, g) refl)
        ],
      )
    ]
  ]

  body-IsServing : (s : Settings) → IsServing s (body s).0
  body-IsServing s = elim (Bool-cases s.gc_freeze) [
    | inr e ↦ inl (e, rw e refl)
    | inl e ↦ inr (
      e,
      elim (Bool-cases (raises freeze)) [
        | inl g ↦ inr (g, rw (e, g) refl)
        | inr g ↦ inl (g, rw (e, g) refl)
      ],
    )
  ]

  -- Whatever raises: the migrations run first, if they are asked for and this is not MODE=mock, and
  -- then the prefetch, unless they raised. After a failed start nothing more runs. After another,
  -- the cache's task is started; unless that raised, the garbage collector is frozen, if that is
  -- asked for, the app is served unless the freezing raised, and the task is cancelled; and the
  -- health checks, the analytics and the engine are closed last and in this order.
  pub lifespan-closes :
      (s : Settings) (cache : StatsCache)
      → (first : Run) × IsStarted s first
        × (((first.1 ≡ true) × (lifespan s cache ≡ first))
            ⊎ ((first.1 ≡ false)
                × ((serving : List Step) × IsServing s serving
                    × ((lifespan s cache).0
                        ≡ first.0
                          ++ (cache_started cache
                              ++ ((if has_started cache then serving ++ cache_ended cache else [])
                                  ++ (close_health_checks ∷ analytics_shutdown ∷ dispose_engine
                                      ∷ [])))))))
  unfolding lifespan
  lifespan-closes s cache =
      let r = starting s in
      let block = invalidating cache (body s) in
      (
        r,
        starting-IsStarted s,
        elim (Bool-cases r.1) [
          | inl h ↦ inl (h, then_run_raised r (finally_run block closing) h)
          | inr h ↦ inr (
            h,
            (
              (body s).0,
              body-IsServing s,
              then_run_fine r (finally_run block closing) h
                  ∙ ap (λ t. r.0 ++ t)
                      (ap (λ t. t ++ all_closed) (ended_steps cache (body s))
                        ∙ append_assoc (cache_started cache) _ all_closed),
            ),
          )
        ],
      )
