-- ===== src/Cache/Clearing.antt =====
-- `RedisStatsCache.invalidate` of src/app/cache.py clears a resource, for every version.
use template_fastapi.Base.{
  inl, inr, Option-cases, List, [], ◌∷◌, ◌++◌, Bool, true, false, String, ◌≡◌, ◌≢◌, Option, none,
  some, contains, length, leb, list_eq, nat_eq, if◌then◌else◌, ◌||◌, arith, Bool-cases, refl,
}
use template_fastapi.Cache.{Text, redis_key, pattern_of}
use template_fastapi.Cache.Glob.{pattern_of-redis_key}
use template_fastapi.Cache.Redis.{
  Redis, IsRedis, RedisStatsCache, get, invalidate, drain, scanned, drained, got,
}

contains-append :
    (xs ys : List Text) (k : Text) → contains (xs ++ ys) k ≡ (contains xs k || contains ys k)
contains-append [] ys k = refl
contains-append (x ∷ xs) ys k = ground (arith, contains-append xs ys k)

-- An invalidation in which no command failed.
abbrev pub HasSucceeded : (R : Redis) → RedisStatsCache R → RedisStatsCache R → Type 0
HasSucceeded R before after = after.warnings ≡ before.warnings

module _ (R : Redis) (L : IsRedis R) where
  -- After a run of the loop without a failure, the keys of the batch and the scanned ones are
  -- gone and every other key is as it was.
  get-drain :
      (batch ks : List Text) (s : R.Server) (j : Text)
      → (drain R batch ks s).0 ≡ true
      → R.get (drain R batch ks s).1 j
        ≡ (if contains batch j || contains ks j then some none else R.get s j)
  unfolding drain
  get-drain [] [] s j h = refl
  get-drain (b ∷ batch) [] s j h = elim (Option-cases (R.unlink s (b ∷ batch))) [
    | inl e ↦ absurd (ground arith)
    | inr (s', e) ↦ rw e (ground (arith, L.get-unlink s s' (b ∷ batch) j e))
  ]
  get-drain batch (k ∷ ks) s j h = elim (Bool-cases (leb 500 (length (batch ++ (k ∷ []))))) [
    | inl full ↦ elim (Option-cases (R.unlink s (batch ++ (k ∷ [])))) [
      | inl e ↦ absurd (ground arith)
      | inr (s', e) ↦ ground (
        arith,
        L.get-unlink s s' (batch ++ (k ∷ [])) j e,
        get-drain [] ks s' j,
        contains-append batch (k ∷ []) j,
      )
    ]
    | inr more ↦
        ground (arith, get-drain (batch ++ (k ∷ [])) ks s j, contains-append batch (k ∷ []) j)
  ]

  missing :
      (c : RedisStatsCache R) (o : Option (Option String))
      → ((v : String) → o ≢ some (some v))
      → (got R c o).0 ≡ none
  missing c none h = refl
  missing c (some none) h = refl
  missing c (some (some v)) h = absurd (h v refl)

  absent-drain :
      (s : R.Server) (resource version key : Text) (ks : List Text)
      → R.scan s (pattern_of resource) ≡ some ks
      → (drain R [] ks s).0 ≡ true
      → (v : String) → R.get (drain R [] ks s).1 (redis_key version resource key) ≢ some (some v)
  absent-drain s resource version key ks e d v there =
      let k = redis_key version resource key in
      let after = get-drain [] ks s k d in
      elim (Bool-cases (contains ks k)) [
        | inl listed ↦ cc (rw (after, listed) at there)
        | inr away ↦ cc (
            L.scan_complete s (pattern_of resource) k v ks e (rw (after, away) at there)
              (pattern_of-redis_key L.globs version resource key))
      ]

  drained-ok :
      (c : RedisStatsCache R) (r : Bool × R.Server)
      → (drained R c r).warnings ≡ c.warnings
      → (r.0 ≡ true) × ((drained R c r).server ≡ r.1)
  drained-ok c (true, s) h = (refl, refl)
  drained-ok c (false, s) h = absurd (omega arith)

  missing-scanned :
      (c : RedisStatsCache R) (resource version key : Text) (o : Option (List Text))
      → R.scan c.server (pattern_of resource) ≡ o
      → (scanned R c o).warnings ≡ c.warnings
      → (v : String) → R.get (scanned R c o).server (redis_key version resource key) ≢ some (some v)
  missing-scanned c resource version key none e h v there = absurd (omega arith)
  missing-scanned c resource version key (some ks) e h v there =
      let (d, same) = drained-ok c (drain R [] ks c.server) h in
      absent-drain c.server resource version key ks e d v (rw same at there)

  -- If Redis keeps the laws of its commands, then an invalidation in which no command failed
  -- leaves no entry of the resource to read, neither by this version of the app nor by any other,
  -- whatever their keys.
  pub get-invalidate :
      (c : RedisStatsCache R) (resource version key : Text)
      → HasSucceeded R c (invalidate R c resource)
      → (get R (record (invalidate R c resource) { version = version }) resource key).0 ≡ none
  unfolding invalidate get
  get-invalidate c resource version key h =
      missing _ _ (missing-scanned c resource version key _ refl h)
