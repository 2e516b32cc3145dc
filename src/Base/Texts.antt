-- ===== src/Base/Texts.antt =====
-- Python's `str`: native texts, walked by code point where the source does so.
use Prim.Native.Nat.{ℕ}
use Prim.Native.Char.{code}
use Prim.Native.String
use Prim.Native.String.{String, [], ◌∷◌}
use mathlib.Core.Bool.{Bool, true, false, ◌&&◌, ◌||◌}
use mathlib.Core.List.{List}
use template_fastapi.Base.Tests.{◌==◌, nat_eq, if◌then◌else◌}

infixr 65 ◌<>◌
abbrev pub ◌<>◌ : String → String → String
s <> t = String.◌++◌ s t

-- `not s`
abbrev pub is_empty : String → Bool
is_empty [] = true
is_empty (c ∷ s) = false

-- The code points of a text.
abbrev pub codes : String → List ℕ
codes [] = List.[]
codes (c ∷ s) = List.◌∷◌ (code c) (codes s)

-- `sep.join(parts)`
abbrev pub join : String → List String → String
join sep List.[] = ""
join sep (List.◌∷◌ x List.[]) = x
join sep (List.◌∷◌ x (List.◌∷◌ y ys)) = x <> (sep <> join sep (List.◌∷◌ y ys))

-- `s.rstrip(c)` for one character.
unfoldable pub rstrip_char : ℕ → String → String
rstrip_char k [] = []
rstrip_char k (c ∷ s) =
    let rest = rstrip_char k s in if is_empty rest && code c == k then [] else c ∷ rest

-- `c in s`
unfoldable pub has_char : ℕ → String → Bool
has_char k [] = false
has_char k (c ∷ s) = code c == k || has_char k s
