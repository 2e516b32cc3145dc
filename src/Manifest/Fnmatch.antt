-- ===== src/Manifest/Fnmatch.antt =====
-- `fnmatch` of Python's library, as `matches` of .github/scripts/template_sync_manifest.py uses it
-- on POSIX: the pattern is read from left to right into tokens, and these are matched against the
-- whole path. A text is a list of code points.
use template_fastapi.Base.{
  ℕ, zero, suc, Bool, true, false, not, ◌&&◌, ◌||◌, Option, none, some, List, [], ◌∷◌, ◌==◌, nat_eq,
  if◌then◌else◌, any, keep, length, leb,
}

abbrev pub Text : Type 0
Text = List ℕ

-- What stands between brackets: a character, or a range of them.
pub data Item : Type 0 where
  single : ℕ → Item
  range : ℕ → ℕ → Item

pub data Token : Type 0 where
  star : Token
  any_char : Token
  never : Token
  literal : ℕ → Token
  set : Bool → List Item → Token

abbrev pub after : ℕ → Option Text → Option Text
after c none = none
after c (some t) = some (c ∷ t)

-- The text before the next closing bracket, if there is one.
unfoldable pub close : Text → Option Text
close [] = none
close (c ∷ s) = if c == b']' then some [] else after c (close s)

-- A closing bracket that comes first is one of the set's characters.
abbrev pub close_first : Text → Option Text
close_first [] = none
close_first (c ∷ s) = if c == b']' then after c (close s) else close (c ∷ s)

-- The text between the brackets, from what follows the opening one.
unfoldable pub bracketed : Text → Option Text
unfolding close
bracketed [] = none
bracketed (c ∷ s) = if c == b'!' then after c (close_first s) else close_first (c ∷ s)

-- A dash between two characters makes a range.
unfoldable pub items : Text → List Item
items [] = []
items (a ∷ d ∷ b ∷ s) =
    let ranged = range a b ∷ items s in
    let plain = single a ∷ items (d ∷ b ∷ s) in if d == b'-' then ranged else plain
items (a ∷ s) = single a ∷ items s

-- The exclamation mark that comes first takes no part in a range.
abbrev pub marked_items : Text → List Item
marked_items [] = []
marked_items (c ∷ s) = if c == b'!' then single c ∷ items s else items (c ∷ s)

abbrev pub is_item : Item → Bool
is_item (single c) = true
is_item (range a b) = leb a b

-- The set that is left when the ranges which hold no character are taken out.
abbrev pub set_of : List Item → Token
set_of [] = never
set_of (single c ∷ []) = if c == b'!' then any_char else set false (single c ∷ [])
set_of (single c ∷ is) = if c == b'!' then set true is else set false (single c ∷ is)
set_of (range a b ∷ is) =
    if a == b'!' then set true (single b'-' ∷ single b ∷ is) else set false (range a b ∷ is)

-- A token, and how much of the text after its first character belongs to it.
abbrev pub bracket : Option Text → Token × ℕ
bracket none = (literal b'[', 0)
bracket (some stuff) = (set_of (keep is_item (marked_items stuff)), suc (length stuff))

unfoldable pub token : ℕ → Text → Token × ℕ
unfolding bracketed items
token c s =
    if c == b'*'
    then (star, 0)
    else if c == b'?'
    then (any_char, 0)
    else if c == b'['
    then bracket (bracketed s)
    else (literal c, 0)

-- The tokens of a pattern, after `skip` characters that belong to an earlier one.
unfoldable pub tokens : ℕ → Text → List Token
unfolding token
tokens skip [] = []
tokens (suc skip) (c ∷ s) = tokens skip s
tokens zero (c ∷ s) = let (t, more) = token c s in t ∷ tokens more s

unfoldable pub holds : Item → ℕ → Bool
holds (single a) c = a == c
holds (range a b) c = leb a c && leb c b

-- Whether the next character fits a token other than the star.
abbrev pub fits : Token → ℕ → Bool
fits star c = false
fits any_char c = true
fits never c = false
fits (literal a) c = a == c
fits (set negated is) c =
    let found = any (λ i. holds i c) is in if negated then not found else found

abbrev pub any_suffix : (Text → Bool) → Text → Bool
any_suffix p [] = p []
any_suffix p (c ∷ s) = p (c ∷ s) || any_suffix p s

abbrev pub next_fits : Token → (Text → Bool) → Text → Bool
next_fits t p [] = false
next_fits t p (c ∷ s) = fits t c && p s

abbrev pub is_end : Text → Bool
is_end [] = true
is_end (c ∷ s) = false

unfoldable pub match : List Token → Text → Bool
unfolding holds
match [] s = is_end s
match (star ∷ ts) s = any_suffix (match ts) s
match (t ∷ ts) s = next_fits t (match ts) s

unfoldable pub fnmatch : Text → Text → Bool
unfolding match tokens
fnmatch path pattern = match (tokens 0 pattern) path
