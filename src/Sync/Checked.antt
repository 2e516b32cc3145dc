-- ===== src/Sync/Checked.antt =====
-- What `cmd_apply` of .github/scripts/template_sync.py reports, and that `cmd_check_apply` takes it
-- for what it is.
use template_fastapi.Base.{
  ℕ, zero, suc, String, Bool, true, false, not, Option, none, some, is_some, List, [], ◌∷◌,
  string_eq, if◌then◌else◌, Result, ok, err, contains, is_nil, ◌≡◌, refl, sym, ap, arith, eq_iff,
  Bool-cases, some-injective, inl, inr,
}
use template_fastapi.Base.Int.{ℤ, pos, negsuc}
use template_fastapi.Base.Json.{
  Json, null, bool, int, float, str, obj, arr, get, Elems, nil, cons, texts,
}
use template_fastapi.Sync.{Checkout, Tree}
use template_fastapi.Sync.Replace.{Replaced, apply_replace}
use template_fastapi.Sync.Merge.{Git, Merged, MergeFailed, apply_merge}
use template_fastapi.Sync.Command.{
  Tiers, Applied, summary, finished, cmd_apply, cmd_check_apply, item, agrees_with, is_trusted,
  is_one,
}

list-agrees : (cs : List String) → agrees_with (not (is_nil cs)) (some (arr (texts cs))) ≡ true
list-agrees [] = refl
list-agrees (c ∷ cs) = refl

-- A run that printed no summary failed, and is taken for a failure; another is passed on.
abbrev pub IsChecked : Applied → Type 0
IsChecked a =
    (a.stdout ≡ none → (a.exit_code ≡ pos 2) × (cmd_check_apply a.exit_code a.stdout ≡ (2, none)))
    × (is_some a.stdout ≡ true → cmd_check_apply a.exit_code a.stdout ≡ (0, some a.exit_code))

failed-IsChecked :
    (w : List String) (t : Tree)
    → IsChecked (record { exit_code = pos 2; stdout = none; warnings = w; tree = t })
unfolding cmd_check_apply
failed-IsChecked w t = (λ e. (refl, refl), λ e. absurd (ground arith))

clean-check :
    (r : Replaced) (m : Merged) (cs : List String)
    → m.conflicts ≡ cs
    → cmd_check_apply (if is_nil cs then pos 0 else pos 1) (some (summary r m))
      ≡ (0, some (if is_nil cs then pos 0 else pos 1))
unfolding cmd_check_apply get
clean-check r m [] e = rw e refl
clean-check r m (c ∷ cs) e = rw e refl

finished-IsChecked : (r : Replaced) (res : Result MergeFailed Merged) → IsChecked (finished r res)
finished-IsChecked r (err e) = failed-IsChecked [] e.left
finished-IsChecked r (ok m) = (λ e. absurd (cc), λ e. clean-check r m m.conflicts refl)

-- Whatever happens in a run of `apply`: if it prints no summary, its status is 2 and the check
-- refuses it, and if it prints one, the check passes its status on.
pub cmd_check_apply-cmd_apply :
    (git : Git) (old new : Checkout) (tiers : Result String Tiers) (t : Tree)
    → IsChecked (cmd_apply git old new tiers t)
unfolding cmd_apply
cmd_check_apply-cmd_apply git old new (err e) t = failed-IsChecked [] t
cmd_check_apply-cmd_apply git old new (ok (rs, ms)) t =
    finished-IsChecked (apply_replace old new rs t)
      (apply_merge git old new ms (apply_replace old new rs t).tree)

-- The status that a list of conflicts calls for.
abbrev pub IsStatus : ℤ → Option Json → Type 0
IsStatus (pos zero) found = found ≡ some (arr nil)
IsStatus (pos (suc zero)) found = (v : Json) × (vs : Elems) × (found ≡ some (arr (cons v vs)))
IsStatus _ found = ⊥

empty-agrees : (found : Option Json) → agrees_with false found ≡ true → IsStatus (pos 0) found
empty-agrees none h = absurd (ground arith)
empty-agrees (some null) h = absurd (ground arith)
empty-agrees (some (bool b)) h = absurd (ground arith)
empty-agrees (some (int n)) h = absurd (ground arith)
empty-agrees (some (float f)) h = absurd (ground arith)
empty-agrees (some (str s)) h = absurd (ground arith)
empty-agrees (some (arr nil)) h = refl
empty-agrees (some (arr (cons v vs))) h = absurd (ground arith)
empty-agrees (some (obj ms)) h = absurd (ground arith)

full-agrees : (found : Option Json) → agrees_with true found ≡ true → IsStatus (pos 1) found
full-agrees none h = absurd (ground arith)
full-agrees (some null) h = absurd (ground arith)
full-agrees (some (bool b)) h = absurd (ground arith)
full-agrees (some (int n)) h = absurd (ground arith)
full-agrees (some (float f)) h = absurd (ground arith)
full-agrees (some (str s)) h = absurd (ground arith)
full-agrees (some (arr nil)) h = absurd (ground arith)
full-agrees (some (arr (cons v vs))) h = (v, vs, refl)
full-agrees (some (obj ms)) h = absurd (ground arith)

agrees-IsStatus :
    (code : ℤ) (found : Option Json)
    → is_trusted code ≡ true
    → agrees_with (is_one code) found ≡ true
    → IsStatus code found
agrees-IsStatus (pos zero) found t a = empty-agrees found a
agrees-IsStatus (pos (suc zero)) found t a = full-agrees found a
agrees-IsStatus (pos (suc (suc n))) found t a = absurd (ground arith)
agrees-IsStatus (negsuc n) found t a = absurd (ground arith)

passed :
    (code n : ℤ) (found : Option Json) (b : Bool)
    → b ≡ is_trusted code
    → ◌≡◌ {A = ℕ × Option ℤ}
        (if not b
          then (2, none)
          else (if agrees_with (is_one code) found then (0, some code) else (2, none)))
        (0, some n)
    → (n ≡ code) × IsStatus code found
passed code n found true t h = elim (Bool-cases (agrees_with (is_one code) found)) [
  | inl e ↦ (some-injective (ap (λ r. r.1) (sym (rw e at h))), agrees-IsStatus code found (sym t) e)
  | inr e ↦ absurd (ground (arith, ap (λ r. r.0) (rw e at h)))
]
passed code n found false t h = absurd (ground arith)

-- The check passes a status on only if it is 0 or 1 and the text on stdout is a summary whose list
-- of conflicts is empty for 0 and not empty for 1; a crash that leaves no such text is refused.
pub cmd_check_apply-IsStatus :
    (code : ℤ) (read : Option Json) (n : ℤ)
    → cmd_check_apply code read ≡ (0, some n)
    → (n ≡ code) × IsStatus code (item "conflicts" (item "merge" read))
unfolding cmd_check_apply
cmd_check_apply-IsStatus code read n h = passed code n _ (is_trusted code) refl h

pub none_listed : (xs : List String) → ((q : String) → contains xs q ≡ false) → is_nil xs ≡ true
none_listed [] h = refl
none_listed (x ∷ xs) h = absurd (ground (arith, h x, eq_iff x x))
