-- ===== src/Cache.antt =====
-- src/app/cache.py: the shared cache of the statistics routes. Texts are lists of code points,
-- bodies are opaque texts, and times are ticks of one clock.
pub mod Glob
pub mod Redis
pub mod Clearing
pub mod Memory
pub mod Stream
pub mod Build
mod Tests
use template_fastapi.Base.{
  ℕ, List, [], ◌∷◌, ◌++◌, Bool, true, false, ◌||◌, ◌==◌, nat_eq, codes, if◌then◌else◌,
}

abbrev pub Text : Type 0
Text = List ℕ

abbrev pub is_special : ℕ → Bool
is_special c = c == b'*' || c == b'?' || c == b'[' || c == b']' || c == b'\\'

-- A backslash before each character that a pattern gives a meaning to.
unfoldable pub glob_escape : Text → Text
glob_escape [] = []
glob_escape (c ∷ s) = if is_special c then b'\\' ∷ (c ∷ glob_escape s) else c ∷ glob_escape s

abbrev pub key_prefix : Text
key_prefix = codes "stats-cache"

-- f"{_KEY_PREFIX}:{version}:{resource}:{key}"
unfoldable pub redis_key : Text → Text → Text → Text
redis_key version resource key =
    key_prefix ++ (b':' ∷ (version ++ (b':' ∷ (resource ++ (b':' ∷ key)))))

-- f"{_KEY_PREFIX}:*:{_glob_escape(resource)}:*"
unfoldable pub pattern_of : Text → Text
pattern_of resource =
    key_prefix ++ (b':' ∷ (b'*' ∷ (b':' ∷ (glob_escape resource ++ (b':' ∷ (b'*' ∷ []))))))
