-- ===== src/Cache/Tests.antt =====
-- A Redis server kept in a dict, the memory cache as a client's cache, and the theorems at
-- concrete data.
use template_fastapi.Base.{
  ℕ, List, [], ◌∷◌, ◌++◌, Bool, true, false, String, ◌≡◌, none, some, refl, ◌==◌, list_eq, list_beq,
  list_beq_iff, nat_eq, if◌then◌else◌, arith, is_nil, ◌&&◌, ◌||◌, codes, contains,
}
use template_fastapi.Base.Dict
use template_fastapi.Base.Dict.{Dict, lookup-insert, lookup-erase}
use template_fastapi.Cache.{Text, is_special, glob_escape, redis_key, pattern_of}
use template_fastapi.Cache.Glob.{IsGlob}
use template_fastapi.Cache.Redis as Client
use template_fastapi.Cache.Redis.{Redis, IsRedis, RedisStatsCache}
use template_fastapi.Cache.Clearing.{HasSucceeded, get-invalidate}
use template_fastapi.Cache.Memory
use template_fastapi.Cache.Memory.{
  InMemoryStatsCache, Call, stored, dropped, after, promised, empty_cache, get-after,
}
use template_fastapi.Cache.Stream.{
  StatsCache, Happening, subscribed, event, failed, response, Task, run_invalidation,
  run_invalidation-forgets,
}

-- A matcher for stars, escapes and plain characters.
abbrev any_suffix : (Text → Bool) → Text → Bool
any_suffix f [] = f []
any_suffix f (c ∷ s) = f (c ∷ s) || any_suffix f s

abbrev one : ℕ → (Text → Bool) → Text → Bool
one c f [] = false
one c f (d ∷ s) = c == d && f s

glob : Text → Text → Bool
glob [] s = is_nil s
glob (c ∷ []) s = if c == b'*' then true else one c is_nil s
glob (c ∷ d ∷ p) s =
    let star = any_suffix (glob (d ∷ p)) s in
    let escape = one d (glob p) s in
    let plain = one c (glob (d ∷ p)) s in
    if c == b'*' then star else if c == b'\\' then escape else plain

any_suffix-append : (f : Text → Bool) (t s : Text) → f s ≡ true → any_suffix f (t ++ s) ≡ true
any_suffix-append f [] [] h = h
any_suffix-append f [] (c ∷ s) h = rw h
any_suffix-append f (c ∷ t) s h = ground (arith, any_suffix-append f t s h)

ordinary : (c : ℕ) → is_special c ≡ false → ((c == b'*') ≡ false) × ((c == b'\\') ≡ false)
ordinary c h = ground arith

same_char : (c : ℕ) → (c == c) ≡ true
same_char c = ground arith

glob_plain : (c : ℕ) (p s : Text) → is_special c ≡ false → glob (c ∷ p) (c ∷ s) ≡ glob p s
unfolding glob
glob_plain c [] s h = rw ((ordinary c h).0, same_char c)
glob_plain c (d ∷ p) s h = rw ((ordinary c h).0, (ordinary c h).1, same_char c)

glob_escaped : (c : ℕ) (p s : Text) → glob (b'\\' ∷ (c ∷ p)) (c ∷ s) ≡ glob p s
unfolding glob
glob_escaped c p s = rw (same_char c)

glob_star : (p t s : Text) → glob p s ≡ true → glob (b'*' ∷ p) (t ++ s) ≡ true
unfolding glob
glob_star [] t s h = refl
glob_star (d ∷ p) t s h = any_suffix-append (glob (d ∷ p)) t s h

glob-IsGlob : IsGlob glob
unfolding glob
glob-IsGlob = record { empty = refl; plain = glob_plain; escaped = glob_escaped; star = glob_star }

abbrev matching : Text → Dict Text String → List Text
matching pattern [] = []
matching pattern ((k, v) ∷ d) =
    let rest = matching pattern d in if glob pattern k then k ∷ rest else rest

abbrev erase_all : Dict Text String → List Text → Dict Text String
erase_all d [] = d
erase_all d (k ∷ ks) = erase_all (Dict.erase k d) ks

abbrev dict_redis : Redis
dict_redis = record {
  Server = Dict Text String;
  get = λ d k. some (Dict.lookup k d);
  set = λ d k v ttl. some (Dict.insert k v d);
  scan = λ d pattern. some (matching pattern d);
  unlink = λ d ks. some (erase_all d ks);
}

lookup-erase_all :
    (d : Dict Text String) (ks : List Text) (j : Text)
    → Dict.lookup j (erase_all d ks) ≡ (if contains ks j then none else Dict.lookup j d)
lookup-erase_all d [] j = refl
lookup-erase_all d (k ∷ ks) j = ground (
  arith,
  lookup-erase_all (Dict.erase k d) ks j,
  lookup-erase j k d,
  list_beq_iff j k,
  list_beq_iff k j,
)

contains-matching :
    (d : Dict Text String) (pattern k : Text) (v : String)
    → Dict.lookup k d ≡ some v
    → glob pattern k ≡ true
    → contains (matching pattern d) k ≡ true
unfolding Dict.lookup
contains-matching [] pattern k v h g = cc
contains-matching ((j, w) ∷ d) pattern k v h g =
    ground (arith, contains-matching d pattern k v, list_beq_iff j k, list_beq_iff k j)

dict_redis-IsRedis : IsRedis dict_redis
dict_redis-IsRedis = record {
  matches = glob;
  globs = glob-IsGlob;
  get-set = λ s s' k j v ttl h. ground (arith, lookup-insert j k v s);
  get-unlink = λ s s' ks j h. ground (arith, lookup-erase_all s ks j);
  scan_complete = λ s pattern k v ks e h g. ground (arith, contains-matching s pattern k v);
}

abbrev remote : RedisStatsCache dict_redis
remote = record {
  ttl_seconds = 60;
  version = codes "1.2";
  server = (redis_key (codes "1.1") (codes "hero") (codes "k"), "old") ∷ [];
  warnings = 0;
}

cleared : HasSucceeded dict_redis remote (Client.invalidate dict_redis remote (codes "hero"))
unfolding Client.invalidate pattern_of redis_key glob_escape glob list_beq
cleared = refl

get-invalidate_example :
    (Client.get dict_redis
      (record (Client.invalidate dict_redis remote (codes "hero")) { version = codes "1.1" })
      (codes "hero")
      (codes "k")).0
    ≡ none
get-invalidate_example =
    get-invalidate dict_redis dict_redis-IsRedis remote (codes "hero") (codes "1.1") (codes "k")
      cleared

abbrev calls : List Call
calls = dropped (codes "hero") ∷ stored 5 (codes "hero") (codes "k") "body" ∷ []

get-after_example :
    Memory.get (after (empty_cache 60 (codes "1.2")) calls) 6 (codes "hero") (codes "k")
    ≡ promised 60 6 (codes "hero") (codes "k") calls
get-after_example = get-after 60 6 (codes "1.2") (codes "hero") (codes "k") calls

-- The memory cache at one time, as the invalidation task sees it.
memory_set :
    (c : InMemoryStatsCache) (now : ℕ) (r r' k k' : Text) (v : String)
    → (r == r') ≡ false
    → Memory.get (Memory.set c now r k v) now r' k' ≡ Memory.get c now r' k'
memory_set c now r r' k k' v h = ground (arith, Memory.get-set c now now r r' k k' v)

memory_drop :
    (c : InMemoryStatsCache) (now : ℕ) (r k : Text)
    → Memory.get (Memory.invalidate c r) now r k ≡ none
memory_drop c now r k = ground (arith, Memory.get-erased c now r r k, list_beq_iff r r)

memory_keeps_none :
    (c : InMemoryStatsCache) (now : ℕ) (r r' k : Text)
    → Memory.get c now r' k ≡ none
    → Memory.get (Memory.invalidate c r) now r' k ≡ none
memory_keeps_none c now r r' k h = ground (arith, Memory.get-erased c now r r' k)

abbrev memory_at : ℕ → StatsCache
memory_at now = record {
  Cache = InMemoryStatsCache;
  get = λ c. Memory.get c now;
  set = λ c. Memory.set c now;
  invalidate = Memory.invalidate;
  get-set = λ c r r' k k' v h. memory_set c now r r' k k' v h;
  get-invalidate_self = λ c r k. memory_drop c now r k;
  get-invalidate = λ c r r' k h. memory_keeps_none c now r r' k h;
}

abbrev started : Task (memory_at 5) (codes "hero")
started = record { streaming = false; cache = empty_cache 60 (codes "1.2") }

abbrev earlier : List Happening
earlier = subscribed ∷ response (codes "hero") (codes "k") "body" ∷ []

run_invalidation-forgets_example :
    ((run_invalidation (memory_at 5) (codes "hero") started earlier).streaming ≡ true
      → Memory.get
          (run_invalidation
            (memory_at 5)
            (codes "hero")
            started
            (earlier ++ (event ∷ failed ∷ []))).cache
          5
          (codes "hero")
          (codes "k")
        ≡ none)
    × (Memory.get
          (run_invalidation
            (memory_at 5)
            (codes "hero")
            started
            (earlier ++ (subscribed ∷ failed ∷ []))).cache
          5
          (codes "hero")
          (codes "k")
        ≡ none)
run_invalidation-forgets_example =
    run_invalidation-forgets (memory_at 5) (codes "hero") started earlier (failed ∷ []) (codes "k")
      refl
