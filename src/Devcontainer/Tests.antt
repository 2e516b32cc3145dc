-- ===== src/Devcontainer/Tests.antt =====
-- The check at a config of three features.
use template_fastapi.Base.{
  String, List, some, none, [], ◌∷◌, contains, not, ◌||◌, ◌&&◌, starts_with, ◌≡◌, ◌↔◌, refl,
  string_eq,
}
use template_fastapi.Base.Json.{Json, str, obj, member, end, get}
use template_fastapi.Devcontainer.{check, main, features}
use template_fastapi.Devcontainer.Lock.{check-nil_iff}

abbrev with_features : Json → Json
with_features features = obj (member "image" (str "x") (member "features" features end))

abbrev config : Json
config =
    with_features
      (obj (member "uv:1" (obj end) (member "./local" (obj end) (member "node:2" (obj end) end))))

abbrev lock : Json
lock = with_features (obj (member "uv:1" (obj end) (member "node:1" (obj end) end)))

stale :
    check "c" "l" config (some lock)
    ≡ some ("node:2: in c but not in l" ∷ "node:1: in l but not in c" ∷ [])
unfolding check
stale = refl

missing :
    check "c" "l" config none ≡ some ("node:2: in c but not in l" ∷ "uv:1: in c but not in l" ∷ [])
unfolding check
missing = refl

failing : main (check "c" "l" config none) ≡ 1
unfolding main check
failing = refl

abbrev locked : List String
locked = "uv:1" ∷ "node:1" ∷ []

check-nil_iff_example : (check "c" "l" config (some lock) ≡ some []) ↔ (
    (q : String)
    → (contains ("uv:1" ∷ "./local" ∷ "node:2" ∷ []) q
        && not (starts_with q "./" || starts_with q "../"))
      ≡ contains locked q)
unfolding get
check-nil_iff_example =
    check-nil_iff "c" "l" config (some lock) ("uv:1" ∷ "./local" ∷ "node:2" ∷ []) locked
      (_, refl, refl) (_, refl, refl)
