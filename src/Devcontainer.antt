-- ===== src/Devcontainer.antt =====
-- .github/scripts/check_devcontainer_lock.py: the features of devcontainer.json against those of
-- its lock file. Both files are given as JSON values; `none` is an exception. In a list of features
-- that holds other values than texts the script goes on in the lock file, which is not modelled.
pub mod Lock
mod Tests
use template_fastapi.Base.{
  ℕ, String, Bool, true, false, not, ◌||◌, Option, none, some, List, [], ◌∷◌, ◌++◌, map, keep,
  contains, string_eq, starts_with, if◌then◌else◌, ◌<>◌, is_nil,
}
use template_fastapi.Base.Json.{
  Json, null, bool, int, float, str, arr, obj, elems, Members, end, member, get, letters,
}
use template_fastapi.Base.Sets.{sorted_set}

infixl 5 ◌>>=◌
abbrev pub ◌>>=◌ {ℓ κ} : {A : Type ℓ} {B : Type κ} → Option A → (A → Option B) → Option B
none >>= f = none
some a >>= f = f a

abbrev pub names : Members → List String
names end = []
names (member key v rest) = key ∷ names rest

abbrev pub one_text : Json → Option (List String) → Option (List String)
one_text (str s) (some rest) = some (s ∷ rest)
one_text v rest = none

abbrev pub all_texts : List Json → Option (List String)
all_texts [] = some []
all_texts (v ∷ vs) = one_text v (all_texts vs)

-- Iterating over a value: a dict yields its keys, a text its characters.
abbrev pub iterated : Json → Option (List String)
iterated (obj ms) = some (names ms)
iterated (arr es) = all_texts (elems es)
iterated (str s) = all_texts (letters s)
iterated _ = none

abbrev pub or_nothing : Option Json → Option (List String)
or_nothing none = some []
or_nothing (some v) = iterated v

-- `config.get("features", {})`, iterated.
unfoldable pub features : Json → Option (List String)
unfolding get
features (obj ms) = or_nothing (get "features" ms)
features _ = none

abbrev pub is_local : String → Bool
is_local ref = starts_with ref "./" || starts_with ref "../"

unfoldable pub remote_features : Json → Option (List String)
unfolding features
remote_features config = do refs ← features config; some (keep (λ ref. not (is_local ref)) refs)

abbrev pub locked_features : Option Json → Option (List String)
locked_features none = some []
locked_features (some lock) = features lock

-- The references of `xs` that are not in `ys`.
abbrev pub minus : List String → List String → List String
minus xs ys = sorted_set (keep (λ ref. not (contains ys ref)) xs)

abbrev pub only_in : String → String → List String → List String
only_in here there refs = map (λ ref. ref <> (": in " <> (here <> (" but not in " <> there)))) refs

-- From the paths for the messages, the two files, of which the lock file may be missing.
unfoldable pub check : String → String → Json → Option Json → Option (List String)
unfolding remote_features sorted_set
check config_path lock_path config lock = do
  wanted ← remote_features config
  locked ← locked_features lock
  some (
      only_in config_path lock_path (minus wanted locked)
      ++ only_in lock_path config_path (minus locked wanted))

-- The exit status; an exception is 1 too.
unfoldable pub main : Option (List String) → ℕ
main none = 1
main (some errors) = if is_nil errors then 0 else 1
