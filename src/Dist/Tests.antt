-- ===== src/Dist/Tests.antt =====
-- The check at a release of two architectures.
use template_fastapi.Base.{
  String, List, [], ◌∷◌, false, ◌==◌, list_eq, nat_eq, list_beq, if◌then◌else◌, codes, ok, err, ◌≡◌,
  refl,
}
use template_fastapi.Base.Dict.{lookup, insert}
use template_fastapi.Base.Json.{Json, arr, texts}
use template_fastapi.Dist.{
  Text, Claims, TarInfo, check_all, checked_members, check_member, claim, claim_dirs, claim_leaf,
  parents, split_slash, more_than_one,
}
use template_fastapi.Dist.Legs.{no_claims}
use template_fastapi.Dist.Arches.{validate_arches, checked_names, from_keys, legs_of}
use template_fastapi.Base.{Option, none, some, Result, true}
use template_fastapi.Dist.Assembly.{
  Failure, corrupt, Disk, Tarball, absent, empty, released, disk_error, unreadable, extract_members,
  assemble,
}
use template_fastapi.Dist.Assembled.{IsOutcome, assemble-IsOutcome}

abbrev value : Json
value = arr (texts ("amd64" ∷ "arm64" ∷ "amd64" ∷ []))

abbrev names : List Text
names = codes "amd64" ∷ codes "arm64" ∷ []

validate_arches-value : validate_arches value ≡ ok names
unfolding validate_arches checked_names from_keys list_beq
validate_arches-value = refl

abbrev wheel : String → TarInfo
wheel name = record { name = codes name; is_dir = false }

abbrev members : Text → List TarInfo
members a = if a == codes "amd64" then wheel "bin/app-amd64" ∷ [] else wheel "bin/app-arm64" ∷ []

abbrev ledger : Claims
ledger = record {
  leaves =
      (codes "bin" ∷ codes "app-amd64" ∷ [], codes "amd64")
      ∷ (codes "bin" ∷ codes "app-arm64" ∷ [], codes "arm64")
      ∷ [];
  dirs = (codes "bin" ∷ [], codes "amd64") ∷ [];
}

check_all-members : check_all (legs_of members names) no_claims ≡ ok ledger
unfolding check_all checked_members check_member claim claim_dirs claim_leaf parents split_slash
    list_beq lookup insert
check_all-members = refl

-- The same file in both tarballs.
check_all-clash :
    check_all (legs_of (λ a. wheel "app" ∷ []) names) no_claims
    ≡ err (more_than_one (codes "app" ∷ []) (codes "amd64") (codes "arm64"))
unfolding check_all checked_members check_member claim claim_dirs claim_leaf parents split_slash
    list_beq lookup insert
check_all-clash = refl

-- An extraction that records the names, and a disk on which every call succeeds.
abbrev record_name : TarInfo → List Text → Result Failure (List Text)
record_name m stage = ok (m.name ∷ stage)

abbrev fine : Disk
fine = record {
  parent_error = none;
  stage_error = none;
  chmod_error = none;
  rmdir_error = none;
  rename_error = none;
  rmtree_fails = false;
}

abbrev find : Text → Option Tarball
find a = some (record { members = members a; ending = none })

assemble-release : assemble record_name [] true fine find value empty ≡ record {
  result = ok tt;
  target = released (codes "bin/app-arm64" ∷ codes "bin/app-amd64" ∷ []);
  left = false;
}
unfolding assemble extract_members validate_arches checked_names from_keys check_member claim
    claim_dirs claim_leaf parents split_slash list_beq lookup insert
assemble-release = refl

-- A disk that refuses the renaming, and a tarball that is cut off.
assemble-gone :
    assemble record_name [] true
      (record fine { rename_error = some (codes "EIO") })
      find
      value
      empty
    ≡ record { result = err (disk_error (codes "EIO")); target = absent; left = false }
unfolding assemble extract_members validate_arches checked_names from_keys check_member claim
    claim_dirs claim_leaf parents split_slash list_beq lookup insert
assemble-gone = refl

assemble-cut :
    assemble record_name [] true fine
      (λ a. some (record { members = []; ending = some (corrupt []) }))
      value
      absent
    ≡ record { result = err (unreadable (codes "amd64") []); target = absent; left = false }
unfolding assemble extract_members validate_arches checked_names from_keys list_beq
assemble-cut = refl

assemble-IsOutcome_example :
    IsOutcome record_name [] fine find value empty
      (assemble record_name [] true fine find value empty)
assemble-IsOutcome_example = assemble-IsOutcome record_name [] true fine find value empty
