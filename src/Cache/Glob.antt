-- ===== src/Cache/Glob.antt =====
-- The patterns that src/app/cache.py hands to Redis match the keys that it writes.
use mathlib.Core.List.{append-nil}
use template_fastapi.Base.{
  not, all, inr, ◌∙◌, inl, Bool-cases, ℕ, [], ◌∷◌, ◌++◌, Bool, true, false, ◌≡◌, refl, nat_eq,
  arith, codes,
}
use template_fastapi.Cache.{Text, is_special, glob_escape, redis_key, pattern_of}

-- How Redis documents its glob patterns, as far as the keys here need it: a plain character
-- and an escaped one stand for themselves, and a star for any text.
pub record IsGlob (matches : Text → Text → Bool) : Type 0 where
  pub empty : matches [] [] ≡ true
  pub plain : (c : ℕ) (p s : Text) → is_special c ≡ false → matches (c ∷ p) (c ∷ s) ≡ matches p s
  pub escaped : (c : ℕ) (p s : Text) → matches (b'\\' ∷ (c ∷ p)) (c ∷ s) ≡ matches p s
  pub star : (p t s : Text) → matches p s ≡ true → matches (b'*' ∷ p) (t ++ s) ≡ true

module _ {matches : Text → Text → Bool} (g : IsGlob matches) where
  matches-glob_escape : (r p s : Text) → matches (glob_escape r ++ p) (r ++ s) ≡ matches p s
  unfolding glob_escape
  matches-glob_escape [] p s = refl
  matches-glob_escape (c ∷ r) p s = elim (Bool-cases (is_special c)) [
    | inl special ↦ rw special (g.escaped c _ _ ∙ matches-glob_escape r p s)
    | inr ordinary ↦ rw ordinary (g.plain c _ _ ordinary ∙ matches-glob_escape r p s)
  ]

  plain_prefix :
      (r p s : Text)
      → all (λ c. not (is_special c)) r ≡ true
      → matches (r ++ p) (r ++ s) ≡ matches p s
  plain_prefix [] p s h = refl
  plain_prefix (c ∷ r) p s h = g.plain c _ _ (ground arith) ∙ plain_prefix r p s (ground arith)

  star_all : (t : Text) → matches (b'*' ∷ []) t ≡ true
  star_all t = rw append-nil at (g.star [] t [] g.empty)

  -- For a matcher that follows the rules of Redis's patterns, the pattern of a resource matches
  -- each of its keys, whatever the version and the key, and whatever characters the resource's
  -- name has.
  pub pattern_of-redis_key :
      (version resource key : Text)
      → matches (pattern_of resource) (redis_key version resource key) ≡ true
  unfolding pattern_of redis_key
  pattern_of-redis_key version resource key =
      plain_prefix (codes "stats-cache:") _ _ refl
      ∙ g.star _ version _ (
          g.plain b':' _ _ refl
          ∙ (matches-glob_escape resource _ _ ∙ (g.plain b':' _ _ refl ∙ star_all key)))
