-- ===== src/Cache/Memory.antt =====
-- `InMemoryStatsCache` of src/app/cache.py, the cache of MODE=mock, against a log of its calls.
use template_fastapi.Base.{
  ℕ, ◌+◌, List, [], ◌∷◌, ◌++◌, String, ◌≡◌, Option, none, some, leb, list_eq, list_beq,
  list_beq_iff, nat_eq, ◌==◌, if◌then◌else◌, ◌&&◌, arith, refl, ◌∙◌,
}
use template_fastapi.Base.Dict
use template_fastapi.Base.Dict.{lookup-nil, Dict, lookup-insert, lookup-erase}
use template_fastapi.Cache.{Text}

pub record InMemoryStatsCache : Type 0 where
  pub ttl_seconds : ℕ
  pub version : Text
  pub entries : Dict Text (Dict Text (ℕ × String))

abbrev versioned : InMemoryStatsCache → Text → Text
versioned c key = c.version ++ (b':' ∷ key)

-- `entries.get(resource, {})`
abbrev of_resource : Option (Dict Text (ℕ × String)) → Dict Text (ℕ × String)
of_resource none = []
of_resource (some d) = d

abbrev live : ℕ → Option (ℕ × String) → Option String
live now none = none
live now (some (expiry, body)) = if leb expiry now then none else some body

unfoldable pub get : InMemoryStatsCache → ℕ → Text → Text → Option String
get c now resource key =
    live now (Dict.lookup (versioned c key) (of_resource (Dict.lookup resource c.entries)))

unfoldable pub set : InMemoryStatsCache → ℕ → Text → Text → String → InMemoryStatsCache
set c now resource key value =
    let inner = of_resource (Dict.lookup resource c.entries) in
    record c {
      entries =
          Dict.insert resource (Dict.insert (versioned c key) (now + c.ttl_seconds, value) inner)
            c.entries;
    }

unfoldable pub invalidate : InMemoryStatsCache → Text → InMemoryStatsCache
invalidate c resource = record c { entries = Dict.erase resource c.entries }

list_beq-append : (v xs ys : Text) → list_beq (v ++ xs) (v ++ ys) ≡ list_beq xs ys
unfolding list_beq
list_beq-append [] xs ys = refl
list_beq-append (c ∷ v) xs ys = ground (arith, list_beq-append v xs ys)

versioned-eq : (c : InMemoryStatsCache) (k j : Text) → (versioned c k == versioned c j) ≡ (k == j)
versioned-eq c k j =
    list_beq-append c.version (b':' ∷ k) (b':' ∷ j) ∙ list_beq-append (b':' ∷ []) k j

pub get-set :
    (c : InMemoryStatsCache) (t now : ℕ) (r r' k k' : Text) (v : String)
    → get (set c t r k v) now r' k' ≡ (
        if r == r' && k == k'
        then (if leb (t + c.ttl_seconds) now then none else some v)
        else get c now r' k')
unfolding get set
get-set c t now r r' k k' v =
    let inner = of_resource (Dict.lookup r c.entries) in
    let entry : ℕ × String = (t + c.ttl_seconds, v) in
    ground (
      arith,
      lookup-insert r' r (Dict.insert (versioned c k) entry inner) c.entries,
      lookup-insert (versioned c k') (versioned c k) entry inner,
      versioned-eq c k k',
      list_beq_iff r r',
    )

pub get-erased :
    (c : InMemoryStatsCache) (now : ℕ) (r r' k : Text)
    → get (invalidate c r) now r' k ≡ (if r == r' then none else get c now r' k)
unfolding get invalidate
get-erased c now r r' k =
    ground (arith, lookup-erase r' r c.entries, lookup-nil {V = ℕ × String} (versioned c k))

-- The calls that change the cache, the latest first.
pub data Call : Type 0 where
  stored : ℕ → Text → Text → String → Call
  dropped : Text → Call

unfoldable pub after : InMemoryStatsCache → List Call → InMemoryStatsCache
after c [] = c
after c (stored t r k v ∷ calls) = set (after c calls) t r k v
after c (dropped r ∷ calls) = invalidate (after c calls) r

-- What a reader is promised: the latest write to the same resource and key, unless the
-- resource was dropped since or the write's time to live is over.
unfoldable pub promised : ℕ → ℕ → Text → Text → List Call → Option String
promised ttl now r k [] = none
promised ttl now r k (stored t r' k' v ∷ calls) =
    let older = promised ttl now r k calls in
    if r' == r && k' == k then (if leb (t + ttl) now then none else some v) else older
promised ttl now r k (dropped r' ∷ calls) =
    let older = promised ttl now r k calls in if r' == r then none else older

abbrev pub empty_cache : ℕ → Text → InMemoryStatsCache
empty_cache ttl version = record { ttl_seconds = ttl; version = version; entries = [] }

ttl_seconds-after :
    (c : InMemoryStatsCache) (calls : List Call) → (after c calls).ttl_seconds ≡ c.ttl_seconds
unfolding after set invalidate
ttl_seconds-after c [] = refl
ttl_seconds-after c (stored t r k v ∷ calls) = ttl_seconds-after c calls
ttl_seconds-after c (dropped r ∷ calls) = ttl_seconds-after c calls

-- After any calls on an empty cache, a read at any time returns what is promised.
pub get-after :
    (ttl now : ℕ) (version r k : Text) (calls : List Call)
    → get (after (empty_cache ttl version) calls) now r k ≡ promised ttl now r k calls
unfolding after promised
get-after ttl now version r k [] =
    unfold get in
    ground (
      arith,
      lookup-nil {V = Dict Text (ℕ × String)} r,
      lookup-nil {V = ℕ × String} (versioned (empty_cache ttl version) k),
    )
get-after ttl now version r k (stored t r' k' v ∷ calls) =
    let c = after (empty_cache ttl version) calls in
    ground (
      arith,
      get-set c t now r' r k' k v,
      ttl_seconds-after (empty_cache ttl version) calls,
      get-after ttl now version r k calls,
    )
get-after ttl now version r k (dropped r' ∷ calls) =
    let c = after (empty_cache ttl version) calls in
    ground (arith, get-erased c now r' r k, get-after ttl now version r k calls)
