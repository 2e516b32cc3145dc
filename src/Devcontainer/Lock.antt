-- ===== src/Devcontainer/Lock.antt =====
-- When .github/scripts/check_devcontainer_lock.py passes.
use mathlib.Core.List.{append-eq-nil_iff}
use template_fastapi.Base.{
  String, true, false, not, ◌||◌, ◌&&◌, map, starts_with, none, Option, some, List, [], ◌∷◌, keep,
  contains, string_eq, ◌≡◌, ◌↔◌, refl, sym, ap, ◌∙◌, arith, eq_iff, some-injective,
}
use template_fastapi.Base.Json.{
  Json, null, bool, int, float, str, arr, obj, elems, Members, get, letters,
}
use template_fastapi.Base.Sets.{contains-sorted_set}
use template_fastapi.Sync.Replaced.{contains-keep}
use template_fastapi.Devcontainer.{
  remote_features, locked_features, minus, only_in, check, names, all_texts, one_text, or_nothing,
  features, is_local, ◌>>=◌,
}

none_contained : (xs : List String) → (xs ≡ []) ↔ ((q : String) → contains xs q ≡ false)
none_contained [] = (λ h q. refl, λ h. refl)
none_contained (x ∷ xs) = (λ h. absurd (cc), λ h. absurd (ground (arith, h x, eq_iff x x)))

minus-nil_iff :
    (xs ys : List String)
    → (minus xs ys ≡ []) ↔ ((q : String) → contains xs q ≡ true → contains ys q ≡ true)
minus-nil_iff xs ys =
    let there = λ (q : String).
      contains-sorted_set (keep (λ ref. not (contains ys ref)) xs) q
      ∙ contains-keep (λ ref. not (contains ys ref)) xs q in
    let empty = none_contained (minus xs ys) in
    (
      λ h q c. ground (arith, there q, empty.0 h q),
      λ h. empty.1 (λ q. ground (arith, there q, h q)),
    )

only_in-nil_iff :
    (here there : String) (refs : List String) → (only_in here there refs ≡ []) ↔ (refs ≡ [])
only_in-nil_iff here there [] = (λ h. refl, λ h. refl)
only_in-nil_iff here there (r ∷ rs) = (λ h. absurd (cc), λ h. absurd (cc))

-- Of lists that are read, the check compares what is in them.
read-nil_iff :
    (config_path lock_path : String) (config : Json) (lock : Option Json)
    (wanted locked : List String)
    → remote_features config ≡ some wanted
    → locked_features lock ≡ some locked
    → (check config_path lock_path config lock ≡ some [])
      ↔ ((q : String) → contains wanted q ≡ contains locked q)
unfolding check
read-nil_iff config_path lock_path config lock wanted locked w l =
    let left = minus wanted locked in
    let right = minus locked wanted in
    let parts =
      append-eq-nil_iff {p = only_in config_path lock_path left}
        {q = only_in lock_path config_path right} in
    let first = only_in-nil_iff config_path lock_path left in
    let second = only_in-nil_iff lock_path config_path right in
    let ahead = minus-nil_iff wanted locked in
    let behind = minus-nil_iff locked wanted in
    rw (w, l)
      (
        λ h q.
            let both = parts.0 (some-injective h) in
            ground (arith, ahead.0 (first.0 both.0) q, behind.0 (second.0 both.1) q),
        λ h. ap some (
            parts.1
              (first.1 (ahead.1 (λ q c. sym (h q) ∙ c)), second.1 (behind.1 (λ q c. h q ∙ c)))),
      )

-- The references of a file: the keys of its features, or the texts of a list.
abbrev pub Lists : Option Json → List String → Type 0
Lists none refs = refs ≡ []
Lists (some (obj ms)) refs = refs ≡ names ms
Lists (some (arr es)) refs = elems es ≡ map str refs
Lists (some (str s)) refs = letters s ≡ map str refs
Lists (some _) refs = ⊥

abbrev pub HasFeatures : Json → List String → Type 0
HasFeatures file refs = (ms : Members) × (file ≡ obj ms) × Lists (get "features" ms) refs

abbrev pub IsLock : Option Json → List String → Type 0
IsLock none refs = refs ≡ []
IsLock (some file) refs = HasFeatures file refs

all_texts-map : (refs : List String) → all_texts (map str refs) ≡ some refs
all_texts-map [] = refl
all_texts-map (r ∷ refs) = ap (one_text (str r)) (all_texts-map refs)

or_nothing-Lists :
    (found : Option Json) (refs : List String) → Lists found refs → or_nothing found ≡ some refs
or_nothing-Lists none refs h = ap some (sym h)
or_nothing-Lists (some (obj ms)) refs h = ap some (sym h)
or_nothing-Lists (some (arr es)) refs h = ap all_texts h ∙ all_texts-map refs
or_nothing-Lists (some (str s)) refs h = ap all_texts h ∙ all_texts-map refs
or_nothing-Lists (some null) refs h = absurd h
or_nothing-Lists (some (bool b)) refs h = absurd h
or_nothing-Lists (some (int n)) refs h = absurd h
or_nothing-Lists (some (float t)) refs h = absurd h

features-HasFeatures :
    (file : Json) (refs : List String) → HasFeatures file refs → features file ≡ some refs
unfolding features
features-HasFeatures file refs (ms, e, l) =
    ap features e ∙ or_nothing-Lists (get "features" ms) refs l

locked-IsLock :
    (lock : Option Json) (refs : List String) → IsLock lock refs → locked_features lock ≡ some refs
locked-IsLock none refs h = ap some (sym h)
locked-IsLock (some file) refs h = features-HasFeatures file refs h

-- For files whose features are not there, an object, or texts: the check reports nothing exactly
-- if the features of the lock file, of which a missing one has none, are those of the
-- configuration that begin with neither `./` nor `../`.
pub check-nil_iff :
    (config_path lock_path : String) (config : Json) (lock : Option Json)
    (wanted locked : List String)
    → HasFeatures config wanted
    → IsLock lock locked
    → (check config_path lock_path config lock ≡ some []) ↔ (
        (q : String)
        → (contains wanted q && not (starts_with q "./" || starts_with q "../"))
          ≡ contains locked q)
unfolding remote_features
check-nil_iff config_path lock_path config lock wanted locked w l =
    let remote = keep (λ ref. not (is_local ref)) wanted in
    let read : remote_features config ≡ some remote =
      ap (λ o. o >>= (λ refs. some (keep (λ ref. not (is_local ref)) refs)))
        (features-HasFeatures config wanted w) in
    let same =
      read-nil_iff config_path lock_path config lock remote locked read
        (locked-IsLock lock locked l) in
    let kept = contains-keep (λ ref. not (is_local ref)) wanted in
    (λ h q. sym (kept q) ∙ same.0 h q, λ h. same.1 (λ q. kept q ∙ h q))
