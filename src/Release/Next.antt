-- ===== src/Release/Next.antt =====
-- `bump_base` and `main` of .github/scripts/compute_next_version.py.
use template_fastapi.Base.{
  ℕ, ◌+◌, List, [], ◌∷◌, Bool, true, false, ◌==◌, ◌&&◌, nat_eq, list_eq, if◌then◌else◌, Option,
  none, some, ltb, contains, keep, is_none, map, Result, ok, err,
}
use template_fastapi.Release.{
  Text, PreType, Version, ParsedTag, base_key, sort_key, max_by, parse_all, version_text,
}
use template_fastapi.Release.Channel.{is_in}

-- `--bump`, which may also be "none".
pub data Part : Type 0 where
  major : Part
  minor : Part
  patch : Part

unfoldable pub bump_base : Version → Part → Version
bump_base (x, y, z) major = (x + 1, 0, 0)
bump_base (x, y, z) minor = (x, y + 1, 0)
bump_base (x, y, z) patch = (x, y, z + 1)

-- `max(..., default=(0, 0, 0))`
abbrev pub or_zero : Option ParsedTag → Version
or_zero none = (0, 0, 0)
or_zero (some p) = p.base

abbrev pub final_key : ParsedTag → List ℕ
final_key p = base_key p.base

unfoldable pub latest_final_base : List ParsedTag → Version
latest_final_base tags = or_zero (max_by final_key (keep (λ p. is_none p.pre_type) tags))

unfoldable pub latest_overall_base : List ParsedTag → Version
latest_overall_base tags = or_zero (max_by sort_key tags)

abbrev pub next_base : List ParsedTag → Option Part → Version
next_base tags none = latest_overall_base tags
next_base tags (some part) = bump_base (latest_final_base tags) part

-- The numbers of the pre-releases of this base and type, and the greatest of them.
abbrev pub is_same : Version → PreType → ParsedTag → Bool
is_same base t p = base_key p.base == base_key base && is_in p.pre_type (some t)

unfoldable pub greatest : ℕ → List ℕ → ℕ
greatest n [] = n
greatest n (x ∷ xs) = greatest (if ltb n x then x else n) xs

abbrev pub existing_nums : Version → PreType → List ParsedTag → List ℕ
existing_nums base t tags = map (λ p. p.pre_num) (keep (is_same base t) tags)

pub record Release : Type 0 where
  pub tag : Text
  pub version : Text
  pub prerelease : Bool

-- The lines that are printed for a release of this base, type and number.
abbrev pub printed : Version → Option PreType → ℕ → Bool → Release
printed base pre n prerelease = record {
  tag = b'v' ∷ version_text base pre n;
  version = version_text base pre n;
  prerelease = prerelease;
}

-- A full release, whose tag must be new, or a pre-release, which gets the next number. The error
-- is the tag that exists.
unfoldable pub release : List Text → List ParsedTag → Version → Option PreType → Result Text Release
release all_tags tags base none =
    let r = printed base none 0 false in if contains all_tags r.tag then err r.tag else ok r
release all_tags tags base (some t) =
    ok (printed base (some t) (greatest 0 (existing_nums base t tags) + 1) true)

unfoldable pub main :
    (ℕ → Option ℕ) → List Text → Option Part → Option PreType → Result Text Release
main digit_of all_tags bump release_type =
    let tags = parse_all digit_of all_tags in
    release all_tags tags (next_base tags bump) release_type
