-- ===== src/Sync/Replace.antt =====
-- `apply_replace` of .github/scripts/template_sync.py: the template's files over the instance's,
-- for files of the instance that their owner can read.
use template_fastapi.Base.{
  String, Bool, true, false, not, ◌||◌, ◌&&◌, Option, none, some, is_some, is_none, List, [], ◌∷◌,
  ◌++◌, ◌==◌, string_eq, nat_eq, list_eq, keep, if◌then◌else◌,
}
use template_fastapi.Sync.{
  Checkout, Tree, Node, link, file, File, write, is_executable, sync_executable_bit, bool_eq,
}

-- The instance's tree, and what the summary reports.
pub record Replaced : Type 0 where
  pub tree : Tree
  pub updated : List String
  pub removed : List String

-- What becomes of a file that the new template has.
unfoldable pub refreshed : File → Option Node → Option Node
refreshed src none = some (file src)
refreshed src (some link) = some link
refreshed src (some (file dst)) =
    if not (dst.content == src.content)
    then some (file src)
    else if bool_eq (is_executable src.mode) (is_executable dst.mode)
    then some (file dst)
    else some (file (record dst { mode = sync_executable_bit src.mode dst.mode }))

-- Whether the loop reports the path.
unfoldable pub is_refreshed : File → Option Node → Bool
is_refreshed src none = true
is_refreshed src (some link) = false
is_refreshed src (some (file dst)) =
    not (dst.content == src.content)
    || not (bool_eq (is_executable src.mode) (is_executable dst.mode))

abbrev pub update_one : Option File → String → Replaced → Replaced
update_one none path st = st
update_one (some src) path st =
    let before = st.tree path in
    record st {
      tree = write st.tree path (refreshed src before);
      updated = if is_refreshed src before then st.updated ++ (path ∷ []) else st.updated;
    }

-- The first loop, over the paths of the new template in order.
unfoldable pub update_all : Checkout → List String → Replaced → Replaced
update_all new [] st = st
update_all new (p ∷ ps) st = update_all new ps (update_one (new p) p st)

abbrev pub without : Option Node → Option Node
without (some link) = some link
without _ = none

abbrev pub is_removed : Option Node → Bool
is_removed (some (file f)) = true
is_removed _ = false

abbrev pub remove_one : String → Replaced → Replaced
remove_one path st =
    let before = st.tree path in
    record st {
      tree = write st.tree path (without before);
      removed = if is_removed before then st.removed ++ (path ∷ []) else st.removed;
    }

-- The second loop, over the paths that only the old template has.
unfoldable pub remove_all : List String → Replaced → Replaced
remove_all [] st = st
remove_all (p ∷ ps) st = remove_all ps (remove_one p st)

-- `paths` are the paths of the tier in order, each once.
unfoldable pub apply_replace : Checkout → Checkout → List String → Tree → Replaced
apply_replace old new paths tree =
    let new_paths = keep (λ p. is_some (new p)) paths in
    let gone = keep (λ p. is_some (old p) && is_none (new p)) paths in
    remove_all gone (update_all new new_paths (record { tree = tree; updated = []; removed = [] }))
