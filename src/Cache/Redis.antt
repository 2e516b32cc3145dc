-- ===== src/Cache/Redis.antt =====
-- `RedisStatsCache` of src/app/cache.py, over a Redis server. `none` is a `RedisError`, which
-- each method catches and logs.
use template_fastapi.Base.{
  ℕ, ◌+◌, List, [], ◌∷◌, ◌++◌, Bool, true, false, String, ◌≡◌, Option, none, some, contains, length,
  leb, is_nil, list_eq, nat_eq, ◌==◌, if◌then◌else◌,
}
use template_fastapi.Cache.{Text, redis_key, pattern_of}
use template_fastapi.Cache.Glob.{IsGlob}

-- The commands that the cache sends. `scan` lists the keys that match a pattern.
pub record Redis : Type 1 where
  pub Server : Type 0
  pub get : Server → Text → Option (Option String)
  pub set : Server → Text → String → ℕ → Option Server
  pub scan : Server → Text → Option (List Text)
  pub unlink : Server → List Text → Option Server

-- What they do when they succeed.
pub record IsRedis (R : Redis) : Type 0 where
  pub matches : Text → Text → Bool
  pub globs : IsGlob matches
  pub get-set :
      (s s' : R.Server) (k j : Text) (v : String) (ttl : ℕ)
      → R.set s k v ttl ≡ some s'
      → R.get s' j ≡ (if k == j then some (some v) else R.get s j)
  pub get-unlink :
      (s s' : R.Server) (ks : List Text) (j : Text)
      → R.unlink s ks ≡ some s'
      → R.get s' j ≡ (if contains ks j then some none else R.get s j)
  pub scan_complete :
      (s : R.Server) (pattern k : Text) (v : String) (ks : List Text)
      → R.scan s pattern ≡ some ks
      → R.get s k ≡ some (some v)
      → matches pattern k ≡ true
      → contains ks k ≡ true

abbrev scan_count : ℕ
scan_count = 500

module _ (R : Redis) where
  pub record RedisStatsCache : Type 0 where
    pub ttl_seconds : ℕ
    pub version : Text
    pub server : R.Server
    pub warnings : ℕ

  abbrev pub warn : RedisStatsCache → RedisStatsCache
  warn c = record c { warnings = c.warnings + 1 }

  abbrev pub got : RedisStatsCache → Option (Option String) → Option String × RedisStatsCache
  got c none = (none, warn c)
  got c (some value) = (value, c)

  unfoldable pub get : RedisStatsCache → Text → Text → Option String × RedisStatsCache
  get c resource key = got c (R.get c.server (redis_key c.version resource key))

  abbrev pub stored : RedisStatsCache → Option R.Server → RedisStatsCache
  stored c none = warn c
  stored c (some s) = record c { server = s }

  unfoldable pub set : RedisStatsCache → Text → Text → String → RedisStatsCache
  set c resource key value =
      stored c (R.set c.server (redis_key c.version resource key) value c.ttl_seconds)

  -- Unlinks a batch, then goes on with `rest`; the flag says that no command failed.
  abbrev pub then_unlink :
      Option R.Server → R.Server → (R.Server → Bool × R.Server) → Bool × R.Server
  then_unlink none s rest = (false, s)
  then_unlink (some s') s rest = rest s'

  -- The loop of `invalidate` over the scanned keys, with the batch so far.
  unfoldable pub drain : List Text → List Text → R.Server → Bool × R.Server
  drain batch [] s =
      if is_nil batch then (true, s) else then_unlink (R.unlink s batch) s (λ s'. (true, s'))
  drain batch (k ∷ ks) s =
      let full = then_unlink (R.unlink s (batch ++ (k ∷ []))) s (drain [] ks) in
      let more = drain (batch ++ (k ∷ [])) ks s in
      if leb scan_count (length (batch ++ (k ∷ []))) then full else more

  abbrev pub drained : RedisStatsCache → Bool × R.Server → RedisStatsCache
  drained c (true, s) = record c { server = s }
  drained c (false, s) = warn (record c { server = s })

  abbrev pub scanned : RedisStatsCache → Option (List Text) → RedisStatsCache
  scanned c none = warn c
  scanned c (some ks) = drained c (drain [] ks c.server)

  unfoldable pub invalidate : RedisStatsCache → Text → RedisStatsCache
  unfolding drain
  invalidate c resource = scanned c (R.scan c.server (pattern_of resource))
