-- ===== src/Cache/Build.antt =====
-- `app_version` and `build_stats_cache` of src/app/cache.py: the cache that the settings ask for.
-- Connecting to Redis, which is lazy, and the installed distributions are parameters.
use template_fastapi.Base.{
  ℕ, String, Bool, true, false, Option, none, some, [], codes, is_empty, if◌then◌else◌,
}
use template_fastapi.Base.Int.{ℤ, pos, negsuc}
use template_fastapi.Settings.{Settings, Mode, mock}
use template_fastapi.Cache.{Text}
use template_fastapi.Cache.Redis.{Redis, RedisStatsCache}
use template_fastapi.Cache.Memory.{InMemoryStatsCache}

-- `none` for a distribution that is not installed.
abbrev pub or_unknown : Option String → String
or_unknown none = "unknown"
or_unknown (some v) = v

-- From APP_VERSION and the installed version.
unfoldable pub app_version : Option String → Option String → String
app_version none installed = or_unknown installed
app_version (some v) installed = if is_empty v then or_unknown installed else v

-- The validators make the seconds positive.
abbrev pub seconds : ℤ → ℕ
seconds (pos n) = n
seconds (negsuc n) = 0

module _ (R : Redis) (connect : String → R.Server) where
  pub data StatsCache : Type 0 where
    in_memory : InMemoryStatsCache → StatsCache
    in_redis : RedisStatsCache R → StatsCache

  -- `RedisStatsCache.from_url`
  abbrev pub from_url : String → ℕ → Text → RedisStatsCache R
  from_url url ttl version = record {
    ttl_seconds = ttl;
    version = version;
    server = connect url;
    warnings = 0;
  }

  abbrev pub is_mock : Mode → Bool
  is_mock mock = true
  is_mock _ = false

  unfoldable pub build_stats_cache : Settings → String → Option StatsCache
  build_stats_cache s version = elim s.stats_cache_ttl_seconds [
    | none ↦ none
    | some ttl ↦
        if is_mock s.mode
        then some (
            in_memory (record { ttl_seconds = seconds ttl; version = codes version; entries = [] }))
        else some (in_redis (from_url s.redis_url (seconds ttl) (codes version)))
  ]
