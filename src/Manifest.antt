-- ===== src/Manifest.antt =====
-- .github/scripts/template_sync_manifest.py: the manifest's tiers of path patterns, and the check
-- that every tracked path falls into exactly one. The listing of the tracked paths is git's and is
-- given; the files are given as their texts.
pub mod Fnmatch
pub mod Lines
pub mod Stripped
pub mod Printed
pub mod Complete
mod Tests
use template_fastapi.Base.{
  ℕ, String, Bool, true, false, not, ◌&&◌, ◌||◌, Option, none, some, List, [], ◌∷◌, ◌++◌, map, any,
  keep, ◌==◌, string_eq, nat_eq, if◌then◌else◌, codes, is_empty, is_nil, starts_with, has_char,
  rstrip_char, ◌<>◌, join, ◌≡◌, ◌↔◌, arith, Eq,
}
use template_fastapi.Manifest.Lines.{
  is_space, is_quote, split_lines, rstrip_by, lstrip_by, strip_by, begins, ends, but_last,
  before_comment, tail,
}
use template_fastapi.Manifest.Fnmatch.{fnmatch}

pub data Tier : Type 0 where
  replace : Tier
  ignore : Tier
  merge : Tier

-- `TIERS`
abbrev pub all_tiers : List Tier
all_tiers = replace ∷ ignore ∷ merge ∷ []

abbrev pub tier_name : Tier → String
tier_name replace = "replace"
tier_name ignore = "ignore"
tier_name merge = "merge"

abbrev tier_beq : Tier → Tier → Bool
tier_beq replace replace = true
tier_beq ignore ignore = true
tier_beq merge merge = true
tier_beq _ _ = false

pub tier_beq_iff : (a b : Tier) → (tier_beq a b ≡ true) ↔ (a ≡ b)
tier_beq_iff replace b = ground arith
tier_beq_iff ignore b = ground arith
tier_beq_iff merge b = ground arith

instance abbrev pub tier_eq : Eq Tier
tier_eq = record { beq = tier_beq; beq_iff = tier_beq_iff }

-- The patterns of each tier.
pub record Tiers : Type 0 where
  pub replace_patterns : List String
  pub ignore_patterns : List String
  pub merge_patterns : List String

abbrev pub patterns : Tiers → Tier → List String
patterns ts replace = ts.replace_patterns
patterns ts ignore = ts.ignore_patterns
patterns ts merge = ts.merge_patterns

-- `tiers[tier].extend(ps)`
abbrev pub extend : Tiers → Tier → List String → Tiers
extend ts replace ps = record ts { replace_patterns = ts.replace_patterns ++ ps }
extend ts ignore ps = record ts { ignore_patterns = ts.ignore_patterns ++ ps }
extend ts merge ps = record ts { merge_patterns = ts.merge_patterns ++ ps }

-- `key if key in TIERS else None`
abbrev pub tier_of : String → Option Tier
tier_of key =
    if key == "replace"
    then some replace
    else if key == "ignore"
    then some ignore
    else if key == "merge"
    then some merge
    else none

-- The tiers so far, and the one whose list is being read.
abbrev pub Reading : Type 0
Reading = Tiers × Option Tier

abbrev pub nothing_read : Reading
nothing_read = (record { replace_patterns = []; ignore_patterns = []; merge_patterns = [] }, none)

-- `stripped[2:].strip().strip("'\"")`
abbrev pub pattern_in : String → String
pattern_in stripped = strip_by is_quote (strip_by is_space (tail (tail stripped)))

abbrev pub add_pattern : String → Reading → Reading
add_pattern stripped (ts, none) = (ts, none)
add_pattern stripped (ts, some tier) =
    if starts_with stripped "- "
    then (extend ts tier (pattern_in stripped ∷ []), some tier)
    else (ts, some tier)

-- A line without its comment and the spaces at its end.
unfoldable pub read_stripped : String → Reading → Reading
unfolding rstrip_by lstrip_by ends but_last
read_stripped line (ts, current) =
    if is_empty line || begins b'#' (lstrip_by is_space line)
    then (ts, current)
    else if not (begins b' ' line) && ends b':' line
    then (ts, tier_of (strip_by is_space (but_last line)))
    else add_pattern (strip_by is_space line) (ts, current)

-- The body of the loop over the lines.
unfoldable pub read_line : String → Reading → Reading
unfolding read_stripped before_comment
read_line raw r = read_stripped (rstrip_by is_space (before_comment raw)) r

unfoldable pub read_lines : List String → Reading → Reading
unfolding read_line
read_lines [] r = r
read_lines (l ∷ ls) r = read_lines ls (read_line l r)

unfoldable pub parse_manifest : String → Tiers
unfolding read_lines split_lines
parse_manifest text = (read_lines (split_lines false text) nothing_read).0

-- `"*" in pattern or "?" in pattern`
abbrev pub is_glob : String → Bool
is_glob pattern = has_char b'*' pattern || has_char b'?' pattern

unfoldable pub matches : String → String → Bool
unfolding ends rstrip_char has_char fnmatch
matches path pattern =
    if ends b'/' pattern
    then path == rstrip_char b'/' pattern || starts_with path pattern
    else if is_glob pattern
    then fnmatch (codes path) (codes pattern)
    else path == pattern

unfoldable pub classify : String → Tiers → List Tier
unfolding matches
classify path ts = keep (λ tier. any (matches path) (patterns ts tier)) all_tiers

abbrev pub local_errors : String → Tiers → List String
local_errors local_path extra =
    map
      (λ tier.
        local_path
        <> (": only the ignore tier is allowed, found " <> (tier_name tier <> " entries")))
      (keep (λ tier. not (is_nil (patterns extra tier))) (replace ∷ merge ∷ []))

-- The tiers of the manifest with the local file's, and the errors that the local file has.
unfoldable pub load_tiers : String → String → Option String → Tiers × List String
unfolding parse_manifest
load_tiers local_path text none = (parse_manifest text, [])
load_tiers local_path text (some local_text) =
    let extra = parse_manifest local_text in
    (extend (parse_manifest text) ignore (patterns extra ignore), local_errors local_path extra)

-- The error of a path that is in the tiers `matched`.
abbrev pub path_errors : String → String → List Tier → List String
path_errors manifest path [] = (path <> (": not covered by any tier in " <> manifest)) ∷ []
path_errors manifest path (tier ∷ []) = []
path_errors manifest path matched =
    (path <> (": matched by more than one tier (" <> (join ", " (map tier_name matched) <> ")")))
    ∷ []

unfoldable pub check_paths : String → Tiers → List String → List String
unfolding classify
check_paths manifest ts [] = []
check_paths manifest ts (path ∷ paths) =
    path_errors manifest path (classify path ts) ++ check_paths manifest ts paths

-- The texts of the manifest and, if it is there, of the local file; the tracked paths.
unfoldable pub check : String → String → String → Option String → List String → List String
unfolding load_tiers check_paths
check manifest local_path text local_text tracked =
    let (tiers, errors) = load_tiers local_path text local_text in
    errors ++ check_paths manifest tiers tracked

-- The exit status, and the annotations on stderr; below them, a summary counts the errors.
unfoldable pub main : List String → ℕ × List String
main [] = (0, [])
main errors = (1, map (λ error. "::error::" <> error) errors)
