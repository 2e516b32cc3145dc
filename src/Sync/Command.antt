-- ===== src/Sync/Command.antt =====
-- `cmd_apply`, `cmd_check_apply`, `pr_body`, `cmd_check_cadence` and the annotations of
-- .github/scripts/template_sync.py. `cmd_apply` is given the paths of the tiers that `read_tiers`
-- finds, or the error that reading the manifest raised. A summary is a JSON value: that `json.loads`
-- reads back what `json.dumps` wrote is taken from the library, and a text that it does not read is
-- `none`.
use template_fastapi.Base.{
  ℕ, zero, suc, String, Bool, true, false, not, Option, none, some, List, [], ◌∷◌, ◌++◌, string_eq,
  nat_eq, if◌then◌else◌, Result, ok, err, ◌>>=◌, ◌<>◌, map, contains, is_nil, leb, join,
}
use template_fastapi.Base.Int.{ℤ, pos}
use template_fastapi.Base.Json.{Json, obj, arr, member, end, get, nil, texts}
use template_fastapi.Sync.{Checkout, Tree}
use template_fastapi.Sync.Replace.{Replaced, apply_replace}
use template_fastapi.Manifest.{Tier, parse_manifest}
use template_fastapi.Sync.Tiers.{Root, tier_of_both}
use template_fastapi.Sync.Merge.{Git, Merged, MergeFailed, apply_merge}

-- The paths of the replace and of the merge tier.
abbrev pub Tiers : Type 0
Tiers = List String × List String

-- The paths of both tiers, from the text of the manifest or the error of reading it.
unfoldable pub read_tiers : Root → Root → Result String String → Result String Tiers
unfolding parse_manifest tier_of_both
read_tiers old new manifest = do
  text ← manifest
  let tiers = parse_manifest text
  ok (tier_of_both old new tiers Tier.replace, tier_of_both old new tiers Tier.merge)

-- What is printed as the summary.
abbrev pub summary : Replaced → Merged → Json
summary r m = obj (
    member "replace"
      (obj
        (member "updated" (arr (texts r.updated)) (member "removed" (arr (texts r.removed)) end)))
      (member "merge"
        (obj (
          member "merged" (arr (texts m.merged)) (
            member "conflicts" (arr (texts m.conflicts))
              (member "binary" (arr (texts m.binary)) end))))
        end))

-- The exit status, the summary on stdout if there is one, the binary conflicts that are warned
-- about, and the instance's tree.
pub record Applied : Type 0 where
  pub exit_code : ℤ
  pub stdout : Option Json
  pub warnings : List String
  pub tree : Tree

abbrev pub finished : Replaced → Result MergeFailed Merged → Applied
finished r (err e) = record { exit_code = pos 2; stdout = none; warnings = []; tree = e.left }
finished r (ok m) = record {
  exit_code = if is_nil m.conflicts then pos 0 else pos 1;
  stdout = some (summary r m);
  warnings = m.binary;
  tree = m.tree;
}

unfoldable pub cmd_apply : Git → Checkout → Checkout → Result String Tiers → Tree → Applied
cmd_apply git old new (err e) tree = record {
  exit_code = pos 2;
  stdout = none;
  warnings = [];
  tree = tree;
}
cmd_apply git old new (ok (replace_paths, merge_paths)) tree =
    let r = apply_replace old new replace_paths tree in
    finished r (apply_merge git old new merge_paths r.tree)

-- `summary["merge"]["conflicts"]`, or nothing where that raises.
abbrev pub item : String → Option Json → Option Json
item key (some (obj ms)) = get key ms
item key _ = none

abbrev pub agrees_with : Bool → Option Json → Bool
agrees_with conflicts (some (arr nil)) = not conflicts
agrees_with conflicts (some (arr es)) = conflicts
agrees_with conflicts _ = false

-- `exit_code in (0, EXIT_CONFLICTS)`
abbrev pub is_trusted : ℤ → Bool
is_trusted (pos zero) = true
is_trusted (pos (suc zero)) = true
is_trusted _ = false

abbrev pub is_one : ℤ → Bool
is_one (pos (suc zero)) = true
is_one _ = false

-- The exit status, and the value of `conflicts=` where it is printed.
unfoldable pub cmd_check_apply : ℤ → Option Json → ℕ × Option ℤ
cmd_check_apply exit_code read =
    if not (is_trusted exit_code)
    then (2, none)
    else if agrees_with (is_one exit_code) (item "conflicts" (item "merge" read))
    then (0, some exit_code)
    else (2, none)

pub data Interval : Type 0 where
  weekly : Interval
  monthly : Interval

-- The status of a scheduled run on a day of the month: 0 to proceed.
unfoldable pub cmd_check_cadence : Interval → ℕ → ℕ
cmd_check_cadence weekly day = 0
cmd_check_cadence monthly day = if leb day 7 then 0 else 1

abbrev pub bullet : String → String → String
bullet what path = "- " <> (what <> (": `" <> (path <> "`")))

abbrev pub conflict_bullet : List String → String → String
conflict_bullet binary path =
    if contains binary path
    then bullet
        "merge (**binary conflict, no markers; kept at this repo's version, take the new one from the template's new tag by hand**)"
        path
    else bullet "merge (**conflict, needs manual resolution**)" path

abbrev pub resolve_note : List String → List String
resolve_note [] = []
resolve_note (c ∷ cs) =
    ""
    ∷ "Resolve every conflict above before merging: text files have `<<<<<<<` markers; a binary file has none (it is left at the instance's version)."
    ∷ []

abbrev pub lock_note : Bool → List String
lock_note false = []
lock_note true =
    ""
    ∷ "`pyproject.toml` changed -- run `uv lock` locally and push the updated `uv.lock` before merging."
    ∷ []

abbrev pub pr_lines : Replaced → Merged → String → String → String → List String
pr_lines r m old_tag new_tag repo =
    (("Syncs from `" <> (old_tag <> ("` to `" <> (new_tag <> ("` of " <> (repo <> "."))))))
      ∷ ""
      ∷ "### Files changed"
      ∷ [])
    ++ (map (bullet "replace") r.updated
        ++ (map (bullet "replace (removed upstream)") r.removed
            ++ (map (bullet "merge (clean)") m.merged
                ++ (map (conflict_bullet m.binary) m.conflicts
                    ++ (resolve_note m.conflicts
                        ++ lock_note (contains (m.merged ++ m.conflicts) "pyproject.toml"))))))

unfoldable pub pr_body : Replaced → Merged → String → String → String → String
pr_body r m old_tag new_tag repo = join "\n" (pr_lines r m old_tag new_tag repo) <> "\n"
