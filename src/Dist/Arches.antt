-- ===== src/Dist/Arches.antt =====
-- `_validate_arches` of .github/scripts/assemble_dist.py, and the check of a whole release.
use mathlib.Core.Path.{subst}
use template_fastapi.Base.{
  ℕ, List, [], ◌∷◌, Bool, true, false, not, ◌||◌, ◌&&◌, ◌==◌, nat_eq, list_eq, list_beq_iff, leb,
  all, All, keep, if◌then◌else◌, codes, map, In, Result, ok, err, ◌>>=◌, >>=-eq-ok, ok-injective,
  ◌≡◌, ◌≢◌, sym, arith, Bool-cases, inl, inr,
}
use template_fastapi.Base.Json.{Json, null, bool, int, float, str, arr, obj, elems}
use template_fastapi.Dist.{Text, Claims, TarInfo, check_all}
use template_fastapi.Dist.Apart.{Entry, IsApart}
use template_fastapi.Dist.Legs.{IsDistinct, all_entries, no_claims, check_all-IsApart}

abbrev pub is_alnum : ℕ → Bool
is_alnum c = leb b'A' c && leb c b'Z' || leb b'a' c && leb c b'z' || leb b'0' c && leb c b'9'

-- `_ARCH.fullmatch`
abbrev pub is_arch : Text → Bool
is_arch [] = false
is_arch (c ∷ s) = is_alnum c && all (λ d. is_alnum d || d == b'.' || d == b'_' || d == b'-') s

-- `list(dict.fromkeys(xs))`: the first of each.
unfoldable pub from_keys : List Text → List Text
from_keys [] = []
from_keys (x ∷ xs) = x ∷ keep (λ y. not (y == x)) (from_keys xs)

pub data ArchError : Type 0 where
  not_a_list : Json → ArchError
  invalid_name : Json → ArchError

abbrev pub checked_name : Json → Result ArchError Text
checked_name (str s) = if is_arch (codes s) then ok (codes s) else err (invalid_name (str s))
checked_name v = err (invalid_name v)

unfoldable pub checked_names : List Json → Result ArchError (List Text)
checked_names [] = ok []
checked_names (v ∷ vs) = do name ← checked_name v; names ← checked_names vs; ok (name ∷ names)

abbrev pub some_names : Json → List Json → Result ArchError (List Text)
some_names value [] = err (not_a_list value)
some_names value (v ∷ vs) = do names ← checked_names (v ∷ vs); ok (from_keys names)

unfoldable pub validate_arches : Json → Result ArchError (List Text)
unfolding from_keys checked_names
validate_arches (arr es) = some_names (arr es) (elems es)
validate_arches value = err (not_a_list value)

-- The legs of a release, by the members of each architecture's tarball.
abbrev pub legs_of : (Text → List TarInfo) → List Text → List (Text × List TarInfo)
legs_of members names = map (λ a. (a, members a)) names

abbrev IsNamed : List Text → Type 0
IsNamed names = All (λ a. a ≢ []) names

arch_named : (t : Text) → is_arch t ≡ true → t ≢ []
arch_named [] h = absurd (ground arith)
arch_named (c ∷ s) h = λ e. cc

checked_name-named : (v : Json) (a : Text) → checked_name v ≡ ok a → a ≢ []
checked_name-named (str s) a h = elim (Bool-cases (is_arch (codes s))) [
  | inl e ↦ subst (λ t. t ≢ []) (ok-injective {E = ArchError} (rw e at h)) (arch_named (codes s) e)
  | inr e ↦ absurd (ground arith)
]
checked_name-named null a h = absurd (ground arith)
checked_name-named (bool b) a h = absurd (ground arith)
checked_name-named (int n) a h = absurd (ground arith)
checked_name-named (float f) a h = absurd (ground arith)
checked_name-named (arr es) a h = absurd (ground arith)
checked_name-named (obj ms) a h = absurd (ground arith)

checked_names-IsNamed :
    (vs : List Json) (names : List Text) → checked_names vs ≡ ok names → IsNamed names
unfolding checked_names
checked_names-IsNamed [] names h = subst IsNamed (ok-injective h) tt
checked_names-IsNamed (v ∷ vs) names h =
    let (a, e, h1) = >>=-eq-ok (checked_name v) (λ a. checked_names vs >>= (λ ns. ok (a ∷ ns))) h in
    let (ns, f, h2) = >>=-eq-ok (checked_names vs) (λ ns. ok (a ∷ ns)) h1 in
    subst IsNamed (ok-injective h2) (checked_name-named v a e, checked_names-IsNamed vs ns f)

keep-All : (P : Text → Type 0) (p : Text → Bool) (xs : List Text) → All P xs → All P (keep p xs)
keep-All P p [] h = tt
keep-All P p (x ∷ xs) h = elim (Bool-cases (p x)) [
  | inl e ↦ rw e (h.0, keep-All P p xs h.1)
  | inr e ↦ rw e (keep-All P p xs h.1)
]

from_keys-IsNamed : (xs : List Text) → IsNamed xs → IsNamed (from_keys xs)
unfolding from_keys
from_keys-IsNamed [] h = tt
from_keys-IsNamed (x ∷ xs) h = (h.0, keep-All (λ a. a ≢ []) _ _ (from_keys-IsNamed xs h.1))

-- Each name differs from the later ones.
abbrev Differ : List Text → Type 0
Differ [] = Unit {0}
Differ (x ∷ xs) = All (λ y. x ≢ y) xs × Differ xs

keep-Differ : (p : Text → Bool) (xs : List Text) → Differ xs → Differ (keep p xs)
keep-Differ p [] h = tt
keep-Differ p (x ∷ xs) h = elim (Bool-cases (p x)) [
  | inl e ↦ rw e (keep-All (λ y. x ≢ y) p xs h.0, keep-Differ p xs h.1)
  | inr e ↦ rw e (keep-Differ p xs h.1)
]

keep-others : (x : Text) (xs : List Text) → All (λ y. x ≢ y) (keep (λ y. not (y == x)) xs)
keep-others x [] = tt
keep-others x (y ∷ xs) = elim (Bool-cases (y == x)) [
  | inl e ↦ rw e (keep-others x xs)
  | inr e ↦ rw e (λ q. ground (arith, list_beq_iff y x, sym q), keep-others x xs)
]

from_keys-Differ : (xs : List Text) → Differ (from_keys xs)
unfolding from_keys
from_keys-Differ [] = tt
from_keys-Differ (x ∷ xs) = (keep-others x (from_keys xs), keep-Differ _ _ (from_keys-Differ xs))

legs_of-IsDistinct :
    (members : Text → List TarInfo) (names : List Text)
    → IsNamed names
    → Differ names
    → IsDistinct (legs_of members names)
legs_of-IsDistinct members [] n d = tt
legs_of-IsDistinct members (x ∷ xs) n d =
    (n.0, (others xs d.0, legs_of-IsDistinct members xs n.1 d.1))
  where
    others : (ys : List Text) → All (λ y. x ≢ y) ys → All (λ leg. x ≢ leg.0) (legs_of members ys)
    others [] h = tt
    others (y ∷ ys) h = (h.0, others ys h.1)

valid :
    (value : Json) (vs : List Json) (names : List Text)
    → some_names value vs ≡ ok names
    → IsNamed names × Differ names
valid value [] names h = absurd (ground arith)
valid value (v ∷ vs) names h =
    let (ns, e, h1) = >>=-eq-ok (checked_names (v ∷ vs)) (λ ns. ok (from_keys ns)) h in
    subst (λ ns. IsNamed ns × Differ ns) (ok-injective h1)
      (from_keys-IsNamed ns (checked_names-IsNamed (v ∷ vs) ns e), from_keys-Differ ns)

validate_arches-valid :
    (value : Json) (names : List Text)
    → validate_arches value ≡ ok names
    → IsNamed names × Differ names
unfolding validate_arches
validate_arches-valid (arr es) names h = valid (arr es) (elems es) names h
validate_arches-valid null names h = absurd (ground arith)
validate_arches-valid (bool b) names h = absurd (ground arith)
validate_arches-valid (int n) names h = absurd (ground arith)
validate_arches-valid (float f) names h = absurd (ground arith)
validate_arches-valid (str s) names h = absurd (ground arith)
validate_arches-valid (obj ms) names h = absurd (ground arith)

-- If the names are valid and the members of their tarballs pass the check, then no file of one
-- architecture has the path of an entry of another, or of a parent of one. A name that is listed
-- twice is one architecture.
pub check_all-IsApart_valid :
    (value : Json) (names : List Text) (members : Text → List TarInfo) (st : Claims)
    → validate_arches value ≡ ok names
    → check_all (legs_of members names) no_claims ≡ ok st
    → (e f : Entry) → In e (all_entries (legs_of members names) [])
    → In f (all_entries (legs_of members names) [])
    → IsApart e f
check_all-IsApart_valid value names members st v h =
    let (named, differ) = validate_arches-valid value names v in
    check_all-IsApart (legs_of members names) st (legs_of-IsDistinct members names named differ) h
