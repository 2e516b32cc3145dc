-- ===== src/Base/Sets.antt =====
-- `sorted(set(texts))` of Python.
use Prim.Native.String.{String, compare}
use text.Mathlib.Text.{is_lt}
use text.Mathlib.TextEquality.{eq_iff}
use mathlib.Core.Path.{◌≡◌, refl, ◌∙◌}
use mathlib.Core.Logic.{inl, inr}
use mathlib.Core.Bool.{◌||◌}
use mathlib.Core.List.{List, [], ◌∷◌}
use native.Mathlib.Omega.{arith}
use template_fastapi.Base.Tests.{◌==◌, string_eq, if◌then◌else◌, Bool-cases}
use template_fastapi.Base.Lists.{contains}

abbrev pub place : String → List String → List String
place p [] = p ∷ []
place p (q ∷ qs) = if is_lt (compare p q) then p ∷ (q ∷ qs) else q ∷ place p qs

-- `sorted(set(paths))`
unfoldable pub sorted_set : List String → List String
sorted_set [] = []
sorted_set (p ∷ ps) = let rest = sorted_set ps in if contains rest p then rest else place p rest

pub contains-place :
    (p : String) (ps : List String) (q : String)
    → contains (place p ps) q ≡ (q == p || contains ps q)
contains-place p [] q = refl
contains-place p (x ∷ xs) q = elim (Bool-cases (is_lt (compare p x))) [
  | inl e ↦ rw e refl
  | inr e ↦ rw e (ground (arith, contains-place p xs q))
]

pub contains-sorted_set :
    (ps : List String) (q : String) → contains (sorted_set ps) q ≡ contains ps q
unfolding sorted_set
contains-sorted_set [] q = refl
contains-sorted_set (p ∷ ps) q =
    let rest = contains-sorted_set ps q in
    elim (Bool-cases (contains (sorted_set ps) p)) [
      | inl e ↦ rw e (ground (arith, rest, eq_iff q p, contains-sorted_set ps p))
      | inr e ↦ rw e (contains-place p (sorted_set ps) q ∙ rw rest refl)
    ]
