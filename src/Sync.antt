-- ===== src/Sync.antt =====
-- .github/scripts/template_sync.py: the trees that a sync reads and writes. A template checkout
-- gives the regular file at a path; the instance may also have a symbolic link there. Contents
-- are bytes. Directories are not modelled: making the parents of a file always succeeds, and no
-- directory stands at a path that another tree has as a file. Where one does, the script raises,
-- since its `.exists()` is true of a directory.
pub mod Replace
pub mod Replaced
pub mod Current
pub mod Merge
pub mod Merged
pub mod Outcomes
pub mod Merging
pub mod Tiers
pub mod Selected
pub mod Sorted
pub mod Command
pub mod Checked
pub mod State
pub mod Synced
pub mod Covered
pub mod Silent
pub mod Announced
mod Tests
mod RunTests
use template_fastapi.Base.{
  ℕ, String, Bool, true, false, ◌||◌, Option, none, some, List, [], ◌∷◌, ◌++◌, ◌==◌, string_eq,
  nat_eq, list_eq, if◌then◌else◌,
}

-- The permission bits that the script reads or changes; `rest` stands for all others.
pub record FileMode : Type 0 where
  pub user_read : Bool
  pub group_read : Bool
  pub other_read : Bool
  pub user_exec : Bool
  pub group_exec : Bool
  pub other_exec : Bool
  pub rest : ℕ

pub record File : Type 0 where
  pub content : List ℕ
  pub mode : FileMode

pub data Node : Type 0 where
  link : Node
  file : File → Node

abbrev pub Checkout : Type 0
Checkout = String → Option File

abbrev pub Tree : Type 0
Tree = String → Option Node

abbrev pub write : Tree → String → Option Node → Tree
write t p n q = if p == q then n else t q

abbrev pub is_executable : FileMode → Bool
is_executable m = m.user_exec

-- Executable for every class that can read, or for none.
unfoldable pub sync_executable_bit : FileMode → FileMode → FileMode
sync_executable_bit src m =
    if is_executable src
    then record m {
      user_exec = m.user_exec || m.user_read;
      group_exec = m.group_exec || m.group_read;
      other_exec = m.other_exec || m.other_read;
    }
    else record m { user_exec = false; group_exec = false; other_exec = false }

abbrev pub bool_eq : Bool → Bool → Bool
bool_eq true b = b
bool_eq false true = false
bool_eq false false = true
