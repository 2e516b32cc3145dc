-- ===== src/Sync/Tests.antt =====
-- The sync's theorems at a template of three files and an instance of two.
use template_fastapi.Base.{
  join, ◌<>◌, ◌⊎◌, ◌<◌, ℕ, String, true, false, Option, none, some, List, [], ◌∷◌, ◌==◌, string_eq,
  if◌then◌else◌, contains, if-holds, list_beq, list_eq, ◌++◌, ◌≡◌, refl, ok, err,
}
use template_fastapi.Base.Int.{ℤ, pos, negsuc}
use template_fastapi.Base.Json.{Json, obj, arr, member, end, get, texts}
use template_fastapi.Sync.Command.{cmd_apply, cmd_check_apply, item, pr_body}
use template_fastapi.Sync.Announced.{IsAnnounced, cmd_apply-pr_body}
use template_fastapi.Sync.Checked.{
  IsChecked, IsStatus, cmd_check_apply-cmd_apply, cmd_check_apply-IsStatus,
}
use template_fastapi.Sync.{Checkout, Tree, link, file, File, FileMode, write}
use template_fastapi.Sync.Replace.{apply_replace, update_all, remove_all}
use template_fastapi.Sync.Replaced.{Distinct}
use template_fastapi.Sync.Current.{
  IsReadable, IsCurrent, IsSame, runs, apply_replace-IsCurrent, apply_replace-apply_replace,
}
use template_fastapi.Sync.Merge.{
  Git, Merged, MergeFailed, apply_merge, merge_all, settle, merge_path, merge_existing, merge_file,
  report, is_binary, content_of, os_error, git_status,
}
use template_fastapi.Sync.Merging.{apply_merge-IsReported, apply_merge-err}

abbrev plain : FileMode
plain = record {
  user_read = true;
  group_read = true;
  other_read = true;
  user_exec = false;
  group_exec = false;
  other_exec = false;
  rest = 2;
}

abbrev script : FileMode
script = record plain { user_exec = true; group_exec = true; other_exec = true }

abbrev text : List ℕ → Option File
text content = some (record { content = content; mode = plain })

-- `a` changed, `b` became a script and was renamed upstream from `c`.
abbrev old_ref : Checkout
old_ref p = if p == "a" then text (1 ∷ []) else if p == "c" then text (3 ∷ []) else none

abbrev new_ref : Checkout
new_ref p =
    if p == "a"
    then text (2 ∷ [])
    else if p == "b"
    then some (record { content = 3 ∷ []; mode = script })
    else none

abbrev instance_tree : Tree
instance_tree p =
    if p == "a"
    then some (file (record { content = 1 ∷ []; mode = plain }))
    else if p == "c"
    then some link
    else none

abbrev tier : List String
tier = "a" ∷ "b" ∷ "c" ∷ []

readable : (q : String) → IsReadable (instance_tree q)
readable q =
    if-holds IsReadable (q == "a") _ _ (λ a. refl)
      λ a. if-holds IsReadable (q == "c") _ _ (λ c. tt) (λ c. tt)

tier-Distinct : Distinct tier
tier-Distinct = (refl, (refl, (refl, tt)))

apply_replace-IsCurrent_example :
    (contains tier "a" ≡ true
      → IsCurrent
          (old_ref "a")
          (new_ref "a")
          (instance_tree "a")
          (runs old_ref new_ref tier instance_tree "a"))
    × (contains tier "a" ≡ false → runs old_ref new_ref tier instance_tree "a" ≡ instance_tree "a")
apply_replace-IsCurrent_example =
    apply_replace-IsCurrent old_ref new_ref tier instance_tree tier-Distinct readable "a"

apply_replace-apply_replace_example :
    IsSame
      (apply_replace old_ref new_ref tier (runs old_ref new_ref tier instance_tree))
      (record { tree = runs old_ref new_ref tier instance_tree; updated = []; removed = [] })
apply_replace-apply_replace_example =
    apply_replace-apply_replace old_ref new_ref tier instance_tree tier-Distinct readable

-- One file, which the instance has edited.
abbrev edited : Tree
edited p = if p == "a" then some (file (record { content = 9 ∷ []; mode = plain })) else none

-- A `git merge-file` with one conflict, and one that fails.
abbrev disagrees : Git
disagrees mine base theirs = (pos 1, mine ++ theirs)

abbrev breaks : Git
breaks mine base theirs = (negsuc 0, mine)

abbrev one : List String
one = "a" ∷ []

abbrev one-Distinct : Distinct one
one-Distinct = (refl, tt)

abbrev conflicted : Merged
conflicted = record {
  tree = write edited "a" (some (file (record { content = 9 ∷ 2 ∷ []; mode = plain })));
  merged = [];
  conflicts = "a" ∷ [];
  binary = [];
}

apply_merge-conflicted : apply_merge disagrees old_ref new_ref one edited ≡ ok conflicted
unfolding apply_merge merge_all settle merge_path merge_existing merge_file report is_binary
    list_beq
apply_merge-conflicted = refl

apply_merge-IsReported_example :
    (contains conflicted.merged "a" ≡ false
      → contains conflicted.conflicts "a" ≡ false
      → conflicted.tree "a" ≡ edited "a")
    × (contains conflicted.merged "a" ≡ true → contains conflicted.conflicts "a" ≡ false)
    × (contains conflicted.binary "a" ≡ true
        → (contains conflicted.conflicts "a" ≡ true) × (conflicted.tree "a" ≡ edited "a"))
apply_merge-IsReported_example =
    apply_merge-IsReported disagrees old_ref new_ref one edited conflicted one-Distinct
      apply_merge-conflicted "a"

abbrev failure : MergeFailed
failure = record { path = "a"; cause = git_status (negsuc 0); left = write edited "a" (edited "a") }

apply_merge-failure : apply_merge breaks old_ref new_ref one edited ≡ err failure
unfolding apply_merge merge_all settle merge_path merge_existing merge_file report is_binary
    list_beq
apply_merge-failure = refl

apply_merge-err_example :
    (contains one "a" ≡ true)
    × ((src : File) × (g : File) × (new_ref "a" ≡ some src)
        × (edited "a" ≡ some (file g))
        × (((failure.cause ≡ os_error) × (g.mode.user_read ≡ false))
            ⊎ ((n : ℤ) × (failure.cause ≡ git_status n)
                × (n ≡ (breaks g.content (content_of (old_ref "a")) src.content).0)
                × (((k : ℕ) × (n ≡ negsuc k)) ⊎ ((k : ℕ) × (n ≡ pos k) × (127 < k))))))
apply_merge-err_example =
    apply_merge-err breaks old_ref new_ref one edited failure one-Distinct apply_merge-failure

cmd_check_apply-cmd_apply_example :
    IsChecked (cmd_apply disagrees old_ref new_ref (ok ([], one)) edited)
cmd_check_apply-cmd_apply_example =
    cmd_check_apply-cmd_apply disagrees old_ref new_ref (ok ([], one)) edited

abbrev one_conflict : Option Json
one_conflict =
    some (obj (member "merge" (obj (member "conflicts" (arr (texts ("a" ∷ []))) end)) end))

checked_conflict : cmd_check_apply (pos 1) one_conflict ≡ (0, some (pos 1))
unfolding cmd_check_apply get
checked_conflict = refl

cmd_check_apply-IsStatus_example :
    (pos 1 ≡ pos 1) × IsStatus (pos 1) (item "conflicts" (item "merge" one_conflict))
cmd_check_apply-IsStatus_example =
    cmd_check_apply-IsStatus (pos 1) one_conflict (pos 1) checked_conflict

merged_after :
    apply_merge disagrees old_ref new_ref one (apply_replace old_ref new_ref [] edited).tree
    ≡ ok conflicted
unfolding apply_replace update_all remove_all apply_merge merge_all settle merge_path merge_existing
    merge_file report is_binary list_beq
merged_after = refl

cmd_apply-pr_body_example :
    (lines : List String) × (pr_body
        (apply_replace old_ref new_ref [] edited)
        conflicted
        "v1.0.0"
        "v1.1.0"
        "o/r"
      ≡ join "\n" lines <> "\n")
    × IsAnnounced edited
        (cmd_apply disagrees old_ref new_ref (ok ([], one)) edited)
        (apply_replace old_ref new_ref [] edited)
        conflicted
        lines
cmd_apply-pr_body_example =
    cmd_apply-pr_body disagrees old_ref new_ref [] one edited conflicted "v1.0.0" "v1.1.0" "o/r"
      one-Distinct merged_after
