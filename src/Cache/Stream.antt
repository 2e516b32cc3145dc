-- ===== src/Cache/Stream.antt =====
-- `run_invalidation` of src/app/cache.py, over any cache that has the laws of one, with the
-- writes of request handlers between its steps. Waiting changes nothing, so `retry_seconds` and
-- the order of the waits are left out.
use template_fastapi.Base.{
  ◌∙◌, List, [], ◌∷◌, ◌++◌, Bool, true, false, String, ◌≡◌, Option, none, refl, ◌==◌, list_eq,
  nat_eq, if◌then◌else◌, arith, all, not,
}
use template_fastapi.Cache.{Text}

-- What the task and the routes use of a cache, and what it does.
pub record StatsCache : Type 1 where
  pub Cache : Type 0
  pub get : Cache → Text → Text → Option String
  pub set : Cache → Text → Text → String → Cache
  pub invalidate : Cache → Text → Cache
  pub get-set :
      (c : Cache) (r r' k k' : Text) (v : String)
      → (r == r') ≡ false
      → get (set c r k v) r' k' ≡ get c r' k'
  pub get-invalidate_self : (c : Cache) (r k : Text) → get (invalidate c r) r k ≡ none
  pub get-invalidate :
      (c : Cache) (r r' k : Text) → get c r' k ≡ none → get (invalidate c r) r' k ≡ none

-- One thing that happens: the subscription opens, an event of the resource arrives, the
-- subscription or the stream fails or ends, or a request handler stores a response.
pub data Happening : Type 0 where
  subscribed event failed : Happening
  response : Text → Text → String → Happening

module _ (S : StatsCache) (resource : Text) where
  open S use {Cache}

  pub record Task : Type 0 where
    pub streaming : Bool
    pub cache : Cache

  -- Events arrive only on an open stream; a failure closes it, and the task subscribes again.
  unfoldable pub step : Task → Happening → Task
  step t subscribed = record { streaming = true; cache = S.invalidate t.cache resource }
  step t event = if t.streaming then record t { cache = S.invalidate t.cache resource } else t
  step t failed = record t { streaming = false }
  step t (response r k v) = record t { cache = S.set t.cache r k v }

  unfoldable pub run_invalidation : Task → List Happening → Task
  run_invalidation t [] = t
  run_invalidation t (h ∷ hs) = run_invalidation (step t h) hs

  -- A response of another resource, or no response.
  abbrev pub spares : Happening → Bool
  spares (response r k v) = not (r == resource)
  spares _ = true

  abbrev HoldsNone : Task → Type 0
  HoldsNone t = (k : Text) → S.get t.cache resource k ≡ none

  step-HoldsNone : (t : Task) (h : Happening) → spares h ≡ true → HoldsNone t → HoldsNone (step t h)
  unfolding step
  step-HoldsNone t subscribed e n k = S.get-invalidate_self t.cache resource k
  step-HoldsNone t event e n k = ground (arith, n k, S.get-invalidate_self t.cache resource k)
  step-HoldsNone t failed e n k = n k
  step-HoldsNone t (response r j v) e n k = S.get-set t.cache r resource j k v (ground arith) ∙ n k

  run-HoldsNone :
      (t : Task) (hs : List Happening)
      → all spares hs ≡ true
      → HoldsNone t
      → HoldsNone (run_invalidation t hs)
  unfolding run_invalidation
  run-HoldsNone t [] e n = n
  run-HoldsNone t (h ∷ hs) e n =
      run-HoldsNone (step t h) hs (ground arith) (step-HoldsNone t h (ground arith) n)

  run-append :
      (t : Task) (hs later : List Happening)
      → run_invalidation t (hs ++ later) ≡ run_invalidation (run_invalidation t hs) later
  unfolding run_invalidation
  run-append t [] later = refl
  run-append t (h ∷ hs) later = run-append (step t h) hs later

  event-HoldsNone : (t : Task) → t.streaming ≡ true → HoldsNone (step t event)
  unfolding step
  event-HoldsNone t opened k = rw opened (S.get-invalidate_self t.cache resource k)

  subscribed-HoldsNone : (t : Task) → HoldsNone (step t subscribed)
  unfolding step
  subscribed-HoldsNone t k = S.get-invalidate_self t.cache resource k

  -- For a cache that forgets what is invalidated and keeps the rest: after an event on the open
  -- stream, or after the task has subscribed, the cache holds nothing of the resource until a
  -- handler stores a response of it again, whatever came before and whatever else comes after,
  -- failures included.
  pub run_invalidation-forgets :
      (t : Task) (before later : List Happening) (k : Text)
      → all spares later ≡ true
      → ((run_invalidation t before).streaming ≡ true
          → S.get (run_invalidation t (before ++ (event ∷ later))).cache resource k ≡ none)
        × (S.get (run_invalidation t (before ++ (subscribed ∷ later))).cache resource k ≡ none)
  run_invalidation-forgets t before later k spared = (
    λ opened.
        rw run-append
          (unfold run_invalidation in run-HoldsNone _ later spared (event-HoldsNone _ opened) k),
    rw run-append
        (unfold run_invalidation in run-HoldsNone _ later spared (subscribed-HoldsNone _) k),
  )
