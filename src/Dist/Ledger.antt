-- ===== src/Dist/Ledger.antt =====
-- What `_claim` of .github/scripts/assemble_dist.py adds to the ledger, and when it passes.
use mathlib.Core.Path.{subst}
use template_fastapi.Base.{
  List, [], ◌∷◌, true, false, ◌==◌, nat_eq, list_eq, list_beq_iff, if◌then◌else◌, Option, none,
  some, is_some, contains, ok, ok-injective, ◌≡◌, refl, sym, ap, ◌∙◌, arith, Bool-cases, inl, inr,
}
use template_fastapi.Base.Dict.{lookup, insert, lookup-insert}
use template_fastapi.Dist.{
  Text, PosixPath, Claims, AssembleError, is_owned, set_default, claim_dirs, or_text, claim_leaf,
}

pub path_eq : (p q : PosixPath) → ((p == q) ≡ true) → p ≡ q
path_eq p q h = (list_beq_iff p q).0 h

-- The owner of a directory after the directories `ds` were claimed.
abbrev pub owner_after : Text → List PosixPath → Claims → PosixPath → Option Text
owner_after arch ds st d =
    if is_some (lookup d st.dirs)
    then lookup d st.dirs
    else if contains ds d
    then some arch
    else none

lookup-set_default :
    (arch : Text) (d q : PosixPath) (st : Claims)
    → lookup q (set_default d arch st).dirs ≡ owner_after arch (d ∷ []) st q
lookup-set_default arch d q st =
    ground (arith, list_beq_iff q d, list_beq_iff d q, lookup-insert q d arch st.dirs)

pub claim_dirs-ok :
    (arch : Text) (ds : List PosixPath) (st st' : Claims)
    → claim_dirs arch ds st ≡ ok st'
    → (st'.leaves ≡ st.leaves)
      × ((d : PosixPath) → contains ds d ≡ true → is_owned (lookup d st.leaves) arch ≡ true)
      × ((d : PosixPath) → lookup d st'.dirs ≡ owner_after arch ds st d)
unfolding claim_dirs
claim_dirs-ok arch [] st st' h =
    subst
      (λ s.
        (s.leaves ≡ st.leaves)
        × ((d : PosixPath) → false ≡ true → is_owned (lookup d st.leaves) arch ≡ true)
        × ((d : PosixPath) → lookup d s.dirs ≡ owner_after arch [] st d))
      (ok-injective h) (refl, λ d e. absurd (ground arith), λ d. ground arith)
claim_dirs-ok arch (d ∷ ds) st st' h = elim (Bool-cases (is_owned (lookup d st.leaves) arch)) [
  | inl own ↦
      let (same, owned, dirs) = claim_dirs-ok arch ds (set_default d arch st) st' (ground arith) in
      (
        same,
        λ q c. ground (arith, owned q, list_beq_iff q d),
        λ q. ground (arith, dirs q, lookup-set_default arch d q st, list_beq_iff q d),
      )
  | inr other ↦ absurd (ground arith)
]

pub claim_leaf-ok :
    (arch : Text) (path : PosixPath) (st st' : Claims)
    → claim_leaf arch path st ≡ ok st'
    → (is_owned (or_text (lookup path st.leaves) (lookup path st.dirs)) arch ≡ true)
      × (st'.dirs ≡ st.dirs)
      × ((q : PosixPath)
          → lookup q st'.leaves ≡ (if path == q then some arch else lookup q st.leaves))
unfolding claim_leaf
claim_leaf-ok arch path st st' h =
    elim (Bool-cases (is_owned (or_text (lookup path st.leaves) (lookup path st.dirs)) arch)) [
      | inl own ↦
          let e : record st { leaves = insert path arch st.leaves } ≡ st' =
            ok-injective {E = AssembleError} (rw own at h) in
          (
            own,
            ap (λ s. s.dirs) (sym e),
            λ q. ap (λ s. lookup q s.leaves) (sym e) ∙ lookup-insert q path arch st.leaves,
          )
      | inr other ↦ absurd (ground arith)
    ]
