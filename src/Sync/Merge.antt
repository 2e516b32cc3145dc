-- ===== src/Sync/Merge.antt =====
-- `merge_file` and `apply_merge` of .github/scripts/template_sync.py. The parameter `Git` stands
-- for `git merge-file`: from the contents of the instance's file, of the base and of theirs to
-- the exit status and the content that it leaves in the instance's file.
use template_fastapi.Base.{
  ℕ, zero, suc, String, Bool, true, false, ◌&&◌, Option, none, some, is_some, List, [], ◌∷◌, ◌++◌,
  ◌==◌, not, nat_eq, list_eq, contains, if◌then◌else◌, any, Result, ok, err, ◌>>=◌, ltb,
}
use template_fastapi.Base.Int.{ℤ, pos, negsuc, is_positive}
use template_fastapi.Sync.{
  Checkout, Tree, Node, link, file, File, write, is_executable, sync_executable_bit, bool_eq,
}

abbrev pub Bytes : Type 0
Bytes = List ℕ

abbrev pub Git : Type 0
Git = Bytes → Bytes → Bytes → ℤ × Bytes

abbrev pub take : ℕ → Bytes → Bytes
take n [] = []
take zero (x ∷ xs) = []
take (suc n) (x ∷ xs) = x ∷ take n xs

-- A NUL among the first 8000 bytes.
unfoldable pub is_binary : Bytes → Bool
is_binary content = contains (take 8000 content) 0

-- Any status but the number of conflicts, at most 127, is an error.
abbrev pub is_failure : ℤ → Bool
is_failure (pos n) = ltb 127 n
is_failure (negsuc n) = true

-- The conflict flag and the file's content, or the status of a failed merge and what it left.
unfoldable pub merge_file : Git → Bytes → Bytes → Bytes → Result (ℤ × Bytes) (Bool × Bytes)
merge_file git mine base theirs =
    if any is_binary (mine ∷ base ∷ theirs ∷ [])
    then ok (true, mine)
    else let (status, content) = git mine base theirs in
      if is_failure status then err (status, content) else ok (is_positive status, content)

-- What the loop does with one path: nothing, a clean change, a conflict (with its flag for a
-- binary file), a failure of git, or a failure to read the instance's file.
pub data Outcome : Type 0 where
  kept : Outcome
  taken : File → Outcome
  conflict : Bool → File → Outcome
  failed : ℤ → File → Outcome
  unreadable : Outcome

abbrev pub content_of : Option File → Bytes
content_of none = []
content_of (some f) = f.content

-- The new content, and the executable bit; the other mode bits stay.
unfoldable pub take_outright : File → File → File
take_outright theirs mine =
    if bool_eq (is_executable theirs.mode) (is_executable mine.mode)
    then record mine { content = theirs.content }
    else record mine { content = theirs.content; mode = sync_executable_bit theirs.mode mine.mode }

unfoldable pub report : Bool → File → Result (ℤ × Bytes) (Bool × Bytes) → Outcome
report binary mine (err (status, content)) = failed status (record mine { content = content })
report binary mine (ok (true, content)) = conflict binary (record mine { content = content })
report binary mine (ok (false, content)) =
    if content == mine.content then kept else taken (record mine { content = content })

-- The script runs as the owner of the instance's files and has no rights beyond their modes.
unfoldable pub merge_existing : Git → Option File → File → File → Outcome
merge_existing git old theirs mine =
    let base = content_of old in
    if theirs.content == base
    then kept
    else if not mine.mode.user_read
    then unreadable
    else if mine.content == theirs.content
    then kept
    else if is_some old && mine.content == base
    then taken (take_outright theirs mine)
    else report (any is_binary (mine.content ∷ base ∷ theirs.content ∷ [])) mine
        (merge_file git mine.content base theirs.content)

unfoldable pub merge_path : Git → Option File → Option File → Option Node → Outcome
merge_path git old none before = kept
merge_path git old (some theirs) (some link) = kept
merge_path git old (some theirs) none = taken theirs
merge_path git old (some theirs) (some (file mine)) = merge_existing git old theirs mine

-- The instance's tree, and what the summary reports.
pub record Merged : Type 0 where
  pub tree : Tree
  pub merged : List String
  pub conflicts : List String
  pub binary : List String

-- What a run raises for: git's status, or an OSError of reading a file.
pub data Cause : Type 0 where
  git_status : ℤ → Cause
  os_error : Cause

-- The error of a run: its file, its cause, and the tree as it was left on disk.
pub record MergeFailed : Type 0 where
  pub path : String
  pub cause : Cause
  pub left : Tree

unfoldable pub settle : String → Merged → Outcome → Result MergeFailed Merged
settle p st kept = ok st
settle p st (taken f) =
    ok (record st { tree = write st.tree p (some (file f)); merged = st.merged ++ (p ∷ []) })
settle p st (conflict b f) = ok (record st {
  tree = write st.tree p (some (file f));
  conflicts = st.conflicts ++ (p ∷ []);
  binary = if b then st.binary ++ (p ∷ []) else st.binary;
})
settle p st (failed status f) =
    err (record { path = p; cause = git_status status; left = write st.tree p (some (file f)) })
settle p st unreadable = err (record { path = p; cause = os_error; left = st.tree })

-- The loop, over the paths of the tier in order.
unfoldable pub merge_all :
    Git → Checkout → Checkout → List String → Merged → Result MergeFailed Merged
merge_all git old new [] st = ok st
merge_all git old new (p ∷ ps) st =
    settle p st (merge_path git (old p) (new p) (st.tree p)) >>= merge_all git old new ps

unfoldable pub apply_merge :
    Git → Checkout → Checkout → List String → Tree → Result MergeFailed Merged
apply_merge git old new paths tree =
    merge_all git old new paths (record { tree = tree; merged = []; conflicts = []; binary = [] })
