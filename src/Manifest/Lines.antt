-- ===== src/Manifest/Lines.antt =====
-- The methods of Python's `str` that .github/scripts/template_sync_manifest.py reads a manifest with.
use Prim.Native.String as Text
use template_fastapi.Base.{
  ℕ, String, Char, code, Bool, false, ◌&&◌, ◌||◌, List, [], ◌∷◌, any, ◌==◌, nat_eq, if◌then◌else◌,
  is_empty, leb,
}

abbrev pub is_in : List ℕ → Char → Bool
is_in ks c = any (λ k. k == code c) ks

-- `str.isspace`, of a code point and of a character.
abbrev pub is_space_code : ℕ → Bool
is_space_code n =
    leb 9 n && leb n 13
    || leb 28 n && leb n 32
    || leb 0x2000 n && leb n 0x200a
    || any (λ k. k == n) (0x85 ∷ 0xa0 ∷ 0x1680 ∷ 0x2028 ∷ 0x2029 ∷ 0x202f ∷ 0x205f ∷ 0x3000 ∷ [])

abbrev pub is_space : Char → Bool
is_space c = is_space_code (code c)

abbrev pub is_quote : Char → Bool
is_quote c = is_in (b'\'' ∷ b'"' ∷ []) c

-- What ends a line for `str.splitlines`.
abbrev pub is_break : Char → Bool
is_break c =
    leb 10 (code c) && leb (code c) 13
    || leb 28 (code c) && leb (code c) 30
    || is_in (0x85 ∷ 0x2028 ∷ 0x2029 ∷ []) c

abbrev pub onto_first : Char → List String → List String
onto_first c [] = Text.◌∷◌ c Text.[] ∷ []
onto_first c (l ∷ ls) = Text.◌∷◌ c l ∷ ls

-- `s.splitlines()`, for a text that stands behind a carriage return or not.
unfoldable pub split_lines : Bool → String → List String
split_lines behind_cr Text.[] = []
split_lines behind_cr (Text.◌∷◌ c s) =
    let rest = split_lines (code c == 13) s in
    if behind_cr && code c == 10 then rest else if is_break c then "" ∷ rest else onto_first c rest

unfoldable pub rstrip_by : (Char → Bool) → String → String
rstrip_by p Text.[] = Text.[]
rstrip_by p (Text.◌∷◌ c s) =
    let rest = rstrip_by p s in if is_empty rest && p c then Text.[] else Text.◌∷◌ c rest

unfoldable pub lstrip_by : (Char → Bool) → String → String
lstrip_by p Text.[] = Text.[]
lstrip_by p (Text.◌∷◌ c s) = if p c then lstrip_by p s else Text.◌∷◌ c s

abbrev pub strip_by : (Char → Bool) → String → String
strip_by p s = lstrip_by p (rstrip_by p s)

abbrev pub begins : ℕ → String → Bool
begins k Text.[] = false
begins k (Text.◌∷◌ c s) = code c == k

-- `s.endswith(k)` for one character.
unfoldable pub ends : ℕ → String → Bool
ends k Text.[] = false
ends k (Text.◌∷◌ c Text.[]) = code c == k
ends k (Text.◌∷◌ c (Text.◌∷◌ d s)) = ends k (Text.◌∷◌ d s)

-- `s[:-1]`
unfoldable pub but_last : String → String
but_last Text.[] = Text.[]
but_last (Text.◌∷◌ c Text.[]) = Text.[]
but_last (Text.◌∷◌ c (Text.◌∷◌ d s)) = Text.◌∷◌ c (but_last (Text.◌∷◌ d s))

-- `s.split(" #", 1)[0]`
unfoldable pub before_comment : String → String
before_comment Text.[] = Text.[]
before_comment (Text.◌∷◌ c s) =
    if code c == b' ' && begins b'#' s then Text.[] else Text.◌∷◌ c (before_comment s)

-- `s[2:]` of a text that starts with "- ", and the empty text otherwise.
abbrev pub tail : String → String
tail Text.[] = Text.[]
tail (Text.◌∷◌ c s) = s

-- `s.split(k)` for one character.
unfoldable pub split_on : ℕ → String → List String
split_on k Text.[] = "" ∷ []
split_on k (Text.◌∷◌ c s) =
    let rest = split_on k s in if code c == k then "" ∷ rest else onto_first c rest
