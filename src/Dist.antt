-- ===== src/Dist.antt =====
-- .github/scripts/assemble_dist.py: which files of the per-architecture tarballs may go into one
-- directory. Texts are lists of code points, a path is its parts.
pub mod Ledger
pub mod Apart
pub mod Extend
pub mod Legs
pub mod Arches
pub mod Assembly
pub mod Extracted
pub mod Assembled
mod Tests
use template_fastapi.Base.{
  ℕ, List, [], ◌∷◌, ◌++◌, Bool, true, false, not, ◌||◌, ◌&&◌, ◌==◌, nat_eq, list_eq, if◌then◌else◌,
  Option, none, some, is_some, is_nil, keep, contains, map, Result, ok, err, ◌>>=◌,
}
use template_fastapi.Base.Dict.{Dict, lookup, insert}

abbrev pub Text : Type 0
Text = List ℕ

abbrev pub PosixPath : Type 0
PosixPath = List Text

abbrev pub cons_first : ℕ → List Text → List Text
cons_first c [] = (c ∷ []) ∷ []
cons_first c (p ∷ ps) = (c ∷ p) ∷ ps

unfoldable pub split_slash : Text → List Text
split_slash [] = [] ∷ []
split_slash (c ∷ s) = let rest = split_slash s in if c == b'/' then [] ∷ rest else cons_first c rest

-- `PurePosixPath(name)`: without its empty parts and its dots.
abbrev pub pure_path : Text → PosixPath
pure_path name = keep (λ p. not (is_nil p) && not (p == b'.' ∷ [])) (split_slash name)

abbrev pub is_absolute : Text → Bool
is_absolute [] = false
is_absolute (c ∷ s) = c == b'/'

-- `_parents`: the proper parents, the nearest first.
unfoldable pub parents : PosixPath → List PosixPath
parents [] = []
parents (x ∷ []) = []
parents (x ∷ y ∷ p) = map (λ q. x ∷ q) (parents (y ∷ p)) ++ ((x ∷ []) ∷ [])

-- The entries that are no directories, and the directories, with the architecture that has them.
pub record Claims : Type 0 where
  pub leaves : Dict PosixPath Text
  pub dirs : Dict PosixPath Text

pub data AssembleError : Type 0 where
  file_and_directory : PosixPath → Text → Text → AssembleError
  more_than_one : PosixPath → Text → Text → AssembleError
  escapes : Text → Text → AssembleError

-- No owner yet, or this one.
abbrev pub is_owned : Option Text → Text → Bool
is_owned none arch = true
is_owned (some owner) arch = owner == arch

abbrev pub owner_of : Option Text → Text
owner_of none = []
owner_of (some owner) = owner

abbrev pub set_default : PosixPath → Text → Claims → Claims
set_default d arch st = record st {
  dirs = if is_some (lookup d st.dirs) then st.dirs else insert d arch st.dirs;
}

unfoldable pub claim_dirs : Text → List PosixPath → Claims → Result AssembleError Claims
claim_dirs arch [] st = ok st
claim_dirs arch (d ∷ ds) st =
    let rest = claim_dirs arch ds (set_default d arch st) in
    if is_owned (lookup d st.leaves) arch
    then rest
    else err (file_and_directory d (owner_of (lookup d st.leaves)) arch)

-- `a or b` on two optional texts.
abbrev pub or_text : Option Text → Option Text → Option Text
or_text none o = o
or_text (some []) o = o
or_text (some (c ∷ s)) o = some (c ∷ s)

unfoldable pub claim_leaf : Text → PosixPath → Claims → Result AssembleError Claims
claim_leaf arch path st =
    let other = or_text (lookup path st.leaves) (lookup path st.dirs) in
    if is_owned other arch
    then ok (record st { leaves = insert path arch st.leaves })
    else err (more_than_one path (owner_of other) arch)

abbrev pub implied : PosixPath → Bool → List PosixPath
implied path is_dir = if is_dir then path ∷ parents path else parents path

unfoldable pub claim : Text → PosixPath → Bool → Claims → Result AssembleError Claims
claim arch path is_dir st =
    claim_dirs arch (implied path is_dir) st
    >>= (λ st. if is_dir then ok st else claim_leaf arch path st)

-- A member of a tarball: its name, and whether it is a directory.
pub record TarInfo : Type 0 where
  pub name : Text
  pub is_dir : Bool

-- One member: the root is extracted and not claimed.
unfoldable pub check_member : Text → TarInfo → Claims → Result AssembleError Claims
check_member arch m st =
    let path = pure_path m.name in
    if is_nil path && not (is_absolute m.name)
    then ok st
    else if is_absolute m.name || contains path (b'.' ∷ b'.' ∷ [])
    then err (escapes m.name arch)
    else claim arch path m.is_dir st

unfoldable pub checked_members : Text → List TarInfo → Claims → Result AssembleError Claims
checked_members arch [] st = ok st
checked_members arch (m ∷ ms) st = check_member arch m st >>= checked_members arch ms

-- The loop over the tarballs, each with its architecture and its members.
unfoldable pub check_all : List (Text × List TarInfo) → Claims → Result AssembleError Claims
check_all [] st = ok st
check_all ((arch, members) ∷ legs) st = checked_members arch members st >>= check_all legs
