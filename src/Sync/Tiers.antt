-- ===== src/Sync/Tiers.antt =====
-- `tier_paths` of .github/scripts/template_sync.py: the files of a template checkout that the
-- manifest puts into one tier. The parameter `Root` stands for what the file system says of a
-- checkout; paths are relative to it.
use template_fastapi.Base.{
  String, Bool, not, List, [], ◌∷◌, ◌++◌, keep, contains, ◌==◌, string_eq, list_eq, if◌then◌else◌,
  rstrip_char,
}
use template_fastapi.Base.Sets.{sorted_set}
use template_fastapi.Manifest.{Tier, tier_eq, Tiers, patterns, is_glob, matches, classify}
use template_fastapi.Manifest.Lines.{ends, split_on}

pub record Root : Type 0 where
  -- `(root / rel).is_file()`
  pub is_file : String → Bool
  -- `(root / rel).is_dir()`
  pub is_dir : String → Bool
  -- The regular files below `root / rel`.
  pub rglob : String → List String
  -- The regular files that `os.walk(root)` meets.
  pub every : List String

unfoldable pub relative_files_under : Root → String → List String
relative_files_under r rel =
    if r.is_file rel then rel ∷ [] else if not (r.is_dir rel) then [] else r.rglob rel

abbrev pub init : List String → List String
init [] = []
init (x ∷ []) = []
init (x ∷ (y ∷ ys)) = x ∷ init (y ∷ ys)

-- Whether a directory `.git` is on the way to the file.
unfoldable pub in_git : String → Bool
unfolding split_on
in_git path = contains (init (split_on b'/' path)) ".git"

-- The walk goes into no directory `.git`.
unfoldable pub relative_files : Root → List String
unfolding in_git
relative_files r = keep (λ path. not (in_git path)) r.every

unfoldable pub relative_files_matching : Root → String → List String
unfolding relative_files
relative_files_matching r pattern = keep (λ rel. matches rel pattern) (relative_files r)

-- The path that a pattern without a wildcard names.
abbrev pub bare : String → String
bare pattern = if ends b'/' pattern then rstrip_char b'/' pattern else pattern

abbrev pub candidates_of : Root → String → List String
candidates_of r pattern =
    if is_glob pattern
    then relative_files_matching r pattern
    else relative_files_under r (bare pattern)

unfoldable pub candidates : Root → List String → List String
unfolding relative_files_matching relative_files_under
candidates r [] = []
candidates r (p ∷ ps) = candidates_of r p ++ candidates r ps

-- A set as a list, in which a path may stand more than once.
unfoldable pub tier_paths : Root → Tiers → Tier → List String
unfolding candidates
tier_paths r ts tier =
    keep (λ path. classify path ts == (tier ∷ [])) (candidates r (patterns ts tier))

-- The paths of a tier in either checkout, in order and each once.
unfoldable pub tier_of_both : Root → Root → Tiers → Tier → List String
unfolding sorted_set
tier_of_both old new ts tier = sorted_set (tier_paths old ts tier ++ tier_paths new ts tier)
