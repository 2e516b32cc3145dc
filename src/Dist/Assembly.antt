-- ===== src/Dist/Assembly.antt =====
-- `assemble` and `main` of .github/scripts/assemble_dist.py. `extract` stands for the extraction of
-- one member into the staging directory under tarfile's "data" filter, from a directory `nothing`;
-- a tarball is the members that reading it yields, and how the reading ends. What the disk refuses
-- is given for each of the calls that are not about a tarball.
use template_fastapi.Base.{
  ℕ, String, Bool, true, false, not, Option, none, some, List, [], ◌∷◌, Result, ok, err, ◌>>=◌,
  ◌>>◌, refuse,
}
use template_fastapi.Base.Json.{Json}
use template_fastapi.Dist.{Text, Claims, AssembleError, TarInfo, check_member}
use template_fastapi.Dist.Legs.{no_claims}
use template_fastapi.Dist.Arches.{ArchError, validate_arches}

-- `FilterError`, one of `_CORRUPT`, or another `OSError`, with its message.
pub data Failure : Type 0 where
  filter_error : Text → Failure
  corrupt : Text → Failure
  os_error : Text → Failure

-- What `assemble` raises: the checks' errors, a tarball's with its architecture, and the disk's.
pub data Failed : Type 0 where
  no_filters : Failed
  invalid : ArchError → Failed
  missing : Text → Failed
  not_empty : Failed
  clash : AssembleError → Failed
  refused : Text → Text → Failed
  unreadable : Text → Text → Failed
  tarball_error : Text → Text → Failed
  disk_error : Text → Failed

pub record Tarball : Type 0 where
  pub members : List TarInfo
  pub ending : Option Failure

-- The errors of `mkdir`, `mkdtemp`, `chmod`, `rmdir` and `rename`, and whether `rmtree` fails.
pub record Disk : Type 0 where
  pub parent_error : Option Text
  pub stage_error : Option Text
  pub chmod_error : Option Text
  pub rmdir_error : Option Text
  pub rename_error : Option Text
  pub rmtree_fails : Bool

-- What stands at `dist`: nothing, an empty directory, something else, or a staged directory.
pub data Target (S : Type 0) : Type 0 where
  absent : Target S
  empty : Target S
  occupied : Target S
  released : S → Target S

pub record Assembled (S : Type 0) : Type 0 where
  pub result : Result Failed (Unit {0})
  pub target : Target S
  -- Whether the staging directory is left behind.
  pub left : Bool

abbrev pub lift {ℓ} : {A : Type ℓ} {E : Type 0} → (E → Failed) → Result E A → Result Failed A
lift f (ok a) = ok a
lift f (err e) = err (f e)

-- The `except` clauses around a tarball.
abbrev pub named : Text → Failure → Failed
named arch (filter_error msg) = refused arch msg
named arch (corrupt msg) = unreadable arch msg
named arch (os_error msg) = tarball_error arch msg

abbrev pub disk : Option Text → Result Failed (Unit {0})
disk none = ok tt
disk (some msg) = err (disk_error msg)

abbrev pub found : Text → Option Tarball → Result Failed Tarball
found arch none = err (missing arch)
found arch (some t) = ok t

-- `_tarballs`, zipped with the names.
unfoldable pub tarballs :
    (Text → Option Tarball) → List Text → Result Failed (List (Text × Tarball))
tarballs find [] = ok []
tarballs find (arch ∷ arches) = do
  t ← found arch (find arch)
  rest ← tarballs find arches
  ok ((arch, t) ∷ rest)

abbrev pub ending_error : Text → Option Failure → Result Failed (Unit {0})
ending_error arch none = ok tt
ending_error arch (some f) = err (named arch f)

module _ {S : Type 0} where
  abbrev pub is_free : Target S → Bool
  is_free absent = true
  is_free empty = true
  is_free _ = false

  -- What is checked and made before the staging directory is filled.
  unfoldable pub prepare :
      Bool
      → Disk
      → (Text → Option Tarball)
      → Json
      → Target S
      → Result Failed (List (Text × Tarball))
  unfolding tarballs
  prepare has_filters d find value before = do
    refuse (not has_filters) no_filters
    names ← lift invalid (validate_arches value)
    legs ← tarballs find names
    refuse (not (is_free before)) not_empty
    disk d.parent_error
    disk d.stage_error
    ok legs

  abbrev pub failed : Target S → Bool → Failed → Assembled S
  failed target left e = record { result = err e; target = target; left = left }

  abbrev pub renamed : Disk → Target S → S → Result Failed (Unit {0}) → Assembled S
  renamed d gone stage (err e) = failed gone d.rmtree_fails e
  renamed d gone stage (ok u) = record { result = ok tt; target = released stage; left = false }

  -- `if dist.exists(): dist.rmdir()` and the renaming.
  unfoldable pub install : Disk → Target S → S → Assembled S
  install d absent stage = renamed d absent stage (disk d.rename_error)
  install d before stage = elim (disk d.rmdir_error) [
    | err e ↦ failed before d.rmtree_fails e
    | ok u ↦ renamed d absent stage (disk d.rename_error)
  ]

  abbrev pub opened : Disk → Target S → S → Result Failed (Unit {0}) → Assembled S
  opened d before stage (err e) = failed before d.rmtree_fails e
  opened d before stage (ok u) = install d before stage

  abbrev pub finish : Disk → Target S → Result Failed (Claims × S) → Assembled S
  finish d before (err e) = failed before d.rmtree_fails e
  finish d before (ok (claims, stage)) = opened d before stage (disk d.chmod_error)

module _ {S : Type 0} (extract : TarInfo → S → Result Failure S) (nothing : S) where
  -- `extractall` over `_checked_members`: each member is claimed before it is extracted.
  unfoldable pub extract_members :
      Text → List TarInfo → Option Failure → Claims × S → Result Failed (Claims × S)
  extract_members arch [] ending (claims, stage) = ending_error arch ending >> ok (claims, stage)
  extract_members arch (m ∷ ms) ending (claims, stage) = do
    claims ← lift clash (check_member arch m claims)
    stage ← lift (named arch) (extract m stage)
    extract_members arch ms ending (claims, stage)

  -- The loop over the tarballs.
  unfoldable pub extract_all : List (Text × Tarball) → Claims × S → Result Failed (Claims × S)
  unfolding extract_members
  extract_all [] st = ok st
  extract_all ((arch, t) ∷ legs) st = do
    st ← extract_members arch t.members t.ending st
    extract_all legs st

  abbrev pub unpack : Disk → Target S → Result Failed (List (Text × Tarball)) → Assembled S
  unpack d before (err e) = failed before false e
  unpack d before (ok legs) = finish d before (extract_all legs (no_claims, nothing))

  unfoldable pub assemble : Bool → Disk → (Text → Option Tarball) → Json → Target S → Assembled S
  unfolding prepare extract_all install
  assemble has_filters d find value before =
      unpack d before (prepare has_filters d find value before)

  abbrev pub status_of : Assembled S → ℕ
  status_of a = elim a.result [ ok u ↦ 0 | err e ↦ 1 ]

  abbrev pub run_main :
      Bool → Disk → (Text → Option Tarball) → Option Json → Target S → ℕ × Target S
  run_main has_filters d find none before = (1, before)
  run_main has_filters d find (some value) before =
      let a = assemble has_filters d find value before in (status_of a, a.target)

  -- The exit status, and what then stands at `dist`; `loads` and `at` read the arguments.
  unfoldable pub main :
      Bool
      → Disk
      → (String → Option Json)
      → (String → Text → Option Tarball)
      → List String
      → Target S
      → ℕ × Target S
  unfolding assemble
  main has_filters d loads at (program ∷ (arches_json ∷ (parts ∷ (dist ∷ [])))) before =
      run_main has_filters d (at parts) (loads arches_json) before
  main has_filters d loads at argv before = (2, before)
