-- ===== src/Dist/Assembled.antt =====
-- What a run of `assemble` of .github/scripts/assemble_dist.py leaves at `dist`.
use mathlib.Core.Path.{subst}
use template_fastapi.Base.{
  Bool, true, false, Option, some, List, [], All, In, Result, ok, err, Option-cases, ◌≡◌, refl,
  arith, inl, inr, ◌⊎◌,
}
use template_fastapi.Base.Json.{Json}
use template_fastapi.Dist.{Text, Claims, TarInfo, check_all}
use template_fastapi.Dist.Apart.{Entry, IsApart}
use template_fastapi.Dist.Legs.{all_entries, no_claims}
use template_fastapi.Dist.Arches.{validate_arches, legs_of, check_all-IsApart_valid}
use template_fastapi.Dist.Assembly.{
  Failure, Failed, disk, Tarball, Disk, Target, absent, empty, occupied, released, Assembled,
  tarballs, extract_all, is_free, prepare, install, opened, finish, unpack, assemble,
}
use template_fastapi.Dist.Extracted.{
  members_of, IsRead, all_members, tarballs-ok, prepare-ok, extracted, extract_all-ok,
}

module _ {S : Type 0} (extract : TarInfo → S → Result Failure S) (nothing : S) where
  -- The names are valid, every tarball was read to its end, no file of one architecture has the
  -- path of an entry of another or of a parent of one, and every member was extracted in order.
  abbrev pub IsRelease : (Text → Option Tarball) → Json → List Text → S → Type 0
  IsRelease find value names stage =
      (validate_arches value ≡ ok names)
      × All (λ arch. IsRead (find arch)) names
      × ((e f : Entry)
          → In e (all_entries (legs_of (λ arch. members_of (find arch)) names) [])
          → In f (all_entries (legs_of (λ arch. members_of (find arch)) names) [])
          → IsApart e f)
      × (extracted extract (all_members (legs_of (λ arch. members_of (find arch)) names)) nothing
          ≡ ok stage)

  -- `dist`, which was free, is the release, and nothing is left behind.
  abbrev pub IsReleased : (Text → Option Tarball) → Json → Target S → Assembled S → Type 0
  IsReleased find value before a =
      (names : List Text) × (stage : S) × IsRelease find value names stage
      × (is_free before ≡ true)
      × (a.target ≡ released stage)
      × (a.left ≡ false)

  -- `dist` is as it was, but for an empty one that a failing renaming leaves removed.
  abbrev pub IsUnchanged : Disk → Target S → Assembled S → Type 0
  IsUnchanged d before a =
      (a.target ≡ before)
      ⊎ ((before ≡ empty) × (a.target ≡ absent) × ((msg : Text) × (d.rename_error ≡ some msg)))

  abbrev pub IsOutcome : Disk → (Text → Option Tarball) → Json → Target S → Assembled S → Type 0
  IsOutcome d find value before a = elim a.result [
    | ok u ↦ IsReleased find value before a
    | err e ↦ IsUnchanged d before a
  ]

  install-IsOutcome :
      (d : Disk) (find : Text → Option Tarball) (value : Json) (before : Target S)
      (names : List Text) (stage : S)
      → IsRelease find value names stage
      → is_free before ≡ true
      → IsOutcome d find value before (install d before stage)
  unfolding install
  install-IsOutcome d find value absent names stage r free = elim (Option-cases d.rename_error) [
    | inl e ↦ rw e (names, stage, r, refl, refl, refl)
    | inr (msg, e) ↦ rw e (inl refl)
  ]
  install-IsOutcome d find value empty names stage r free = elim (Option-cases d.rmdir_error) [
    | inr (msg, e) ↦ rw e (inl refl)
    | inl e ↦ elim (Option-cases d.rename_error) [
      | inl f ↦ rw (e, f) (names, stage, r, refl, refl, refl)
      | inr (msg, f) ↦ rw (e, f) (inr (refl, refl, (msg, refl)))
    ]
  ]
  install-IsOutcome d find value occupied names stage r free = absurd (ground arith)
  install-IsOutcome d find value (released s) names stage r free = absurd (ground arith)

  opened-IsOutcome :
      (d : Disk) (find : Text → Option Tarball) (value : Json) (before : Target S)
      (names : List Text) (stage : S) (res : Result Failed (Unit {0}))
      → IsRelease find value names stage
      → is_free before ≡ true
      → IsOutcome d find value before (opened d before stage res)
  opened-IsOutcome d find value before names stage (err e) r free = inl refl
  opened-IsOutcome d find value before names stage (ok u) r free =
      install-IsOutcome d find value before names stage r free

  finish-IsOutcome :
      (d : Disk) (find : Text → Option Tarball) (value : Json) (before : Target S)
      (names : List Text) (res : Result Failed (Claims × S))
      → ((r : Claims × S) → res ≡ ok r → IsRelease find value names r.1)
      → is_free before ≡ true
      → IsOutcome d find value before (finish d before res)
  finish-IsOutcome d find value before names (err e) all free = inl refl
  finish-IsOutcome d find value before names (ok (claims, stage)) all free =
      opened-IsOutcome d find value before names stage (disk d.chmod_error)
        (all (claims, stage) refl) free

  extracted-IsRelease :
      (find : Text → Option Tarball) (value : Json) (names : List Text)
      (legs : List (Text × Tarball)) (r : Claims × S)
      → validate_arches value ≡ ok names
      → tarballs find names ≡ ok legs
      → extract_all extract nothing legs (no_claims, nothing) ≡ ok r
      → IsRelease find value names r.1
  extracted-IsRelease find value names legs r v t h =
      let members = λ (arch : Text). members_of (find arch) in
      let (same, read) = tarballs-ok find names legs t in
      let (checked, made, ended) = extract_all-ok extract nothing legs no_claims nothing r h in
      (
        v,
        read ended,
        check_all-IsApart_valid value names members r.0 v
            (subst (λ ls. check_all ls no_claims ≡ ok r.0) same checked),
        subst (λ ls. extracted extract (all_members ls) nothing ≡ ok r.1) same made,
      )

  unpack-IsOutcome :
      (d : Disk) (find : Text → Option Tarball) (value : Json) (before : Target S)
      (res : Result Failed (List (Text × Tarball)))
      → ((legs : List (Text × Tarball))
          → res ≡ ok legs
          → (names : List Text) × (validate_arches value ≡ ok names)
            × (tarballs find names ≡ ok legs)
            × (is_free before ≡ true))
      → IsOutcome d find value before (unpack extract nothing d before res)
  unpack-IsOutcome d find value before (err e) prepared = inl refl
  unpack-IsOutcome d find value before (ok legs) prepared =
      let (names, v, t, free) = prepared legs refl in
      finish-IsOutcome d find value before names
        (extract_all extract nothing legs (no_claims, nothing))
        (λ r h. extracted-IsRelease find value names legs r v t h) free

  -- Whatever the tarballs and the disk do: a run that succeeds had valid names and a `dist` that was
  -- absent or an empty directory; every tarball was there and was read to its end, no file of one
  -- architecture has the path of an entry of another or of a parent of one, and `dist` is the
  -- directory into which every member was extracted in order. A run that fails leaves `dist` as it
  -- was, except that an empty one is gone if the final renaming fails.
  pub assemble-IsOutcome :
      (filters : Bool) (d : Disk) (find : Text → Option Tarball) (value : Json) (before : Target S)
      → IsOutcome d find value before (assemble extract nothing filters d find value before)
  unfolding assemble
  assemble-IsOutcome filters d find value before =
      unpack-IsOutcome d find value before (prepare filters d find value before)
        (λ legs h. prepare-ok filters d find value before legs h)
