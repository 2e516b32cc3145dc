-- ===== src/Dist/Legs.antt =====
-- The loops of .github/scripts/assemble_dist.py over members and tarballs keep the ledger.
use mathlib.Core.Path.{subst}
use template_fastapi.Base.{
  List, [], ◌∷◌, Bool, true, false, not, ◌||◌, ◌&&◌, nat_eq, list_eq, if◌then◌else◌, is_nil,
  contains, In, All, ok, >>=-eq-ok, ok-injective, ◌≡◌, ◌≢◌, sym, ap, ◌∙◌, arith, Bool-cases, inl,
  inr, ◌⊎◌,
}
use template_fastapi.Base.Dict.{lookup-nil}
use template_fastapi.Dist.{
  Text, PosixPath, Claims, AssembleError, claim_dirs, claim_leaf, implied, claim, TarInfo,
  pure_path, is_absolute, check_member, checked_members, check_all,
}
use template_fastapi.Dist.Apart.{Entry, IsApart, IsLedger}
use template_fastapi.Dist.Extend.{dir-IsLedger, file-IsLedger}

-- The entries of a leg's members, the latest first; the root is none.
abbrev pub entry : Text → TarInfo → Entry
entry arch m = record { arch = arch; path = pure_path m.name; is_dir = m.is_dir }

abbrev pub is_root : TarInfo → Bool
is_root m = is_nil (pure_path m.name) && not (is_absolute m.name)

abbrev pub entries : Text → List TarInfo → List Entry → List Entry
entries arch [] H = H
entries arch (m ∷ ms) H = entries arch ms (if is_root m then H else entry arch m ∷ H)

abbrev pub all_entries : List (Text × List TarInfo) → List Entry → List Entry
all_entries [] H = H
all_entries ((arch, ms) ∷ legs) H = all_entries legs (entries arch ms H)

claim-IsLedger :
    (H : List Entry) (c : Text) (path : PosixPath) (k : Bool) (st st' : Claims)
    → IsLedger H c st
    → c ≢ []
    → claim c path k st ≡ ok st'
    → IsLedger (record { arch = c; path = path; is_dir = k } ∷ H) c st'
unfolding claim
claim-IsLedger H c path true st st' inv named h =
    let (st1, passed, e) = >>=-eq-ok (claim_dirs c (implied path true) st) (λ s. ok s) h in
    subst (IsLedger _ c) (ok-injective e) (dir-IsLedger H c path st st1 inv named passed)
claim-IsLedger H c path false st st' inv named h =
    let (st1, passed, e) =
      >>=-eq-ok (claim_dirs c (implied path false) st) (λ s. claim_leaf c path s) h in
    file-IsLedger H c path st st1 st' inv named passed e

member-IsLedger :
    (H : List Entry) (c : Text) (m : TarInfo) (st st' : Claims)
    → IsLedger H c st
    → c ≢ []
    → check_member c m st ≡ ok st'
    → IsLedger (if is_root m then H else entry c m ∷ H) c st'
unfolding check_member
member-IsLedger H c m st st' inv named h = elim (Bool-cases (is_root m)) [
  | inl root ↦ rw root (subst (IsLedger H c) (ok-injective {E = AssembleError} (rw root at h)) inv)
  | inr other ↦
      elim (Bool-cases (is_absolute m.name || contains (pure_path m.name) (b'.' ∷ b'.' ∷ []))) [
        | inl out ↦ absurd (ground (arith, rw (other, out) at h))
        | inr fine ↦ rw other (
            claim-IsLedger H c (pure_path m.name) m.is_dir st st' inv named (rw (other, fine) at h))
      ]
]

members-IsLedger :
    (c : Text) (ms : List TarInfo) (H : List Entry) (st st' : Claims)
    → IsLedger H c st
    → c ≢ []
    → checked_members c ms st ≡ ok st'
    → IsLedger (entries c ms H) c st'
unfolding checked_members
members-IsLedger c [] H st st' inv named h = subst (IsLedger H c) (ok-injective h) inv
members-IsLedger c (m ∷ ms) H st st' inv named h =
    let (st1, e, rest) = >>=-eq-ok (check_member c m st) (checked_members c ms) h in
    members-IsLedger c ms _ st1 st' (member-IsLedger H c m st st1 inv named e) named rest

-- The next architecture takes over, if it has no entry yet.
next-IsLedger :
    (H : List Entry) (c c' : Text) (st : Claims)
    → IsLedger H c st
    → ((e : Entry) → In e H → e.arch ≢ c')
    → IsLedger H c' st
next-IsLedger H c c' st inv unused = record {
  leaf_owned = inv.leaf_owned;
  leaf_from = inv.leaf_from;
  dir_there = λ f d i h.
      let (x, e, n) = inv.dir_there f d i h in
      let (g, j, a) = inv.dir_from d x e in (x, e, λ other q. unused g j (a ∙ q));
  dir_from = inv.dir_from;
  named = inv.named;
  apart = inv.apart;
}

-- Each leg has a name that no later leg has, as `_validate_arches` makes it.
abbrev pub IsDistinct : List (Text × List TarInfo) → Type 0
IsDistinct [] = Unit {0}
IsDistinct ((arch, ms) ∷ legs) = (arch ≢ []) × (All (λ leg. arch ≢ leg.0) legs × IsDistinct legs)

abbrev Unused : List Entry → List (Text × List TarInfo) → Type 0
Unused H legs = (e : Entry) → In e H → All (λ leg. e.arch ≢ leg.0) legs

entries-In :
    (arch : Text) (ms : List TarInfo) (H : List Entry) (e : Entry)
    → In e (entries arch ms H)
    → (e.arch ≡ arch) ⊎ In e H
entries-In arch [] H e i = inr i
entries-In arch (m ∷ ms) H e i =
    elim (entries-In arch ms (if is_root m then H else entry arch m ∷ H) e i) [
      | inl a ↦ inl a
      | inr j ↦ elim (Bool-cases (is_root m)) [
        | inl root ↦ inr (rw root at j)
        | inr other ↦ entered (rw other at j)
      ]
    ]
  where
    entered : In e (entry arch m ∷ H) → (e.arch ≡ arch) ⊎ In e H
    entered (inl h) = inl (ap (λ g. g.arch) (sym h))
    entered (inr j) = inr j

Unused-entries :
    (arch : Text) (ms : List TarInfo) (H : List Entry) (legs : List (Text × List TarInfo))
    → Unused H ((arch, ms) ∷ legs)
    → All (λ leg. arch ≢ leg.0) legs
    → Unused (entries arch ms H) legs
Unused-entries arch ms H legs unused fresh e i = elim (entries-In arch ms H e i) [
  | inl a ↦ subst (λ x. All (λ leg. x ≢ leg.0) legs) (sym a) fresh
  | inr j ↦ (unused e j).1
]

legs-IsApart :
    (legs : List (Text × List TarInfo)) (H : List Entry) (c : Text) (st st' : Claims)
    → IsLedger H c st
    → IsDistinct legs
    → Unused H legs
    → check_all legs st ≡ ok st'
    → (e f : Entry) → In e (all_entries legs H)
    → In f (all_entries legs H)
    → IsApart e f
unfolding check_all
legs-IsApart [] H c st st' inv d unused h = inv.apart
legs-IsApart ((arch, ms) ∷ legs) H c st st' inv (named, (fresh, d)) unused h =
    let (st1, e, rest) = >>=-eq-ok (checked_members arch ms st) (check_all legs) h in
    let inv1 = next-IsLedger H c arch st inv (λ e i. (unused e i).0) in
    legs-IsApart legs (entries arch ms H) arch st1 st'
      (members-IsLedger arch ms H st st1 inv1 named e) d
      (Unused-entries arch ms H legs unused fresh) rest

abbrev pub no_claims : Claims
no_claims = record { leaves = []; dirs = [] }

-- If the tarballs of distinct architectures pass the check, then no file of one has the path of an
-- entry of another, or of a parent of one: neither overwrites or blocks the other in `dist/`.
pub check_all-IsApart :
    (legs : List (Text × List TarInfo)) (st : Claims)
    → IsDistinct legs
    → check_all legs no_claims ≡ ok st
    → (e f : Entry) → In e (all_entries legs [])
    → In f (all_entries legs [])
    → IsApart e f
check_all-IsApart legs st d h =
    legs-IsApart legs [] [] no_claims st
      (record {
        leaf_owned = λ e i. absurd i;
        leaf_from = λ p a e. absurd (ground (arith, lookup-nil {V = Text} p));
        dir_there = λ f d i. absurd i;
        dir_from = λ d x e. absurd (ground (arith, lookup-nil {V = Text} d));
        named = λ e i. absurd i;
        apart = λ e f i. absurd i;
      })
      d (λ e i. absurd i) h
