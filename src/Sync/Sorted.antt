-- ===== src/Sync/Sorted.antt =====
-- `sorted(set(paths))` of .github/scripts/template_sync.py has each path once.
use text.Mathlib.Text.{is_lt}
use Prim.Native.String.{compare}
use template_fastapi.Base.{
  String, false, List, [], ◌∷◌, contains, string_eq, ◌≡◌, refl, arith, eq_iff, Bool-cases, inl, inr,
  ◌∙◌,
}
use template_fastapi.Base.Sets.{place, sorted_set, contains-place}
use template_fastapi.Sync.Replaced.{Distinct}

place-Distinct :
    (p : String) (ps : List String) → contains ps p ≡ false → Distinct ps → Distinct (place p ps)
place-Distinct p [] c d = (refl, tt)
place-Distinct p (x ∷ xs) c d = elim (Bool-cases (is_lt (compare p x))) [
  | inl e ↦ rw e (c, d)
  | inr e ↦ rw e (
    contains-place p xs x ∙ ground (arith, eq_iff x p, eq_iff p x, d.0),
    place-Distinct p xs (ground arith) d.1,
  )
]

pub sorted_set-Distinct : (ps : List String) → Distinct (sorted_set ps)
unfolding sorted_set
sorted_set-Distinct [] = tt
sorted_set-Distinct (p ∷ ps) = elim (Bool-cases (contains (sorted_set ps) p)) [
  | inl e ↦ rw e (sorted_set-Distinct ps)
  | inr e ↦ rw e (place-Distinct p (sorted_set ps) e (sorted_set-Distinct ps))
]
