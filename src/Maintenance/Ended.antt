-- ===== src/Maintenance/Ended.antt =====
-- How a purge of src/app/maintenance.py ends: every statement succeeds, or one raises.
use mathlib.Core.Path.{subst}
use template_fastapi.Base.{
  ℕ, ◌+◌, String, true, false, not, none, some, List, [], ◌∷◌, all, keep, length, ◌==◌, string_eq,
  if◌then◌else◌, ◌≡◌, refl, sym, ap, ◌∙◌, arith, Bool-cases, Option-cases, inl, inr, ◌⊎◌,
  some-injective, Result, ok, err,
}
use template_fastapi.Maintenance.{
  Condition, is_not_none, at_most, satisfies, conditions, Database, Model, purge_from,
}

-- What the statements do when they succeed; a rollback takes back what was deleted.
pub record IsDatabase (D : Database) : Type 0 where
  pub rows-delete :
      (db db' : D.Db) (n : ℕ) (m q : String) (cs : List Condition)
      → D.delete db m cs ≡ some (db', n)
      → D.rows db' q
        ≡ (if q == m then keep (λ r. not (all (satisfies r) cs)) (D.rows db q) else D.rows db q)
  pub count-delete :
      (db db' : D.Db) (n : ℕ) (m : String) (cs : List Condition)
      → D.delete db m cs ≡ some (db', n)
      → n + length (D.rows db' m) ≡ length (D.rows db m)
  pub rows-commit :
      (db db' : D.Db) (q : String) → D.commit db ≡ some db' → D.rows db' q ≡ D.rows db q
  pub rows-rollback :
      (db db' : D.Db) (n : ℕ) (m q : String) (cs : List Condition)
      → D.delete db m cs ≡ some (db', n)
      → D.rows (D.rollback db') q ≡ D.rows (D.rollback db) q

module _ {D : Database} (is : IsDatabase D) where
  -- The DELETE of an archivable model, one after the other, or then the commit raises.
  abbrev pub Raises : ℕ → List Model → D.Db → Type 0
  Raises t [] db = D.commit db ≡ none
  Raises t (m ∷ ms) db =
      ((m.is_archivable ≡ true)
        × ((D.delete db m.name (is_not_none ∷ at_most t ∷ []) ≡ none)
            ⊎ ((db' : D.Db) × (n : ℕ) × (D.delete db m.name (is_not_none ∷ at_most t ∷ [])
                  ≡ some (db', n))
                × Raises t ms db')))
      ⊎ ((m.is_archivable ≡ false) × Raises t ms db)

  -- A session with the same rows behind it: a rollback gets the same.
  abbrev pub IsBehind : D.Db → D.Db → Type 0
  IsBehind db' db = (q : String) → D.rows (D.rollback db') q ≡ D.rows (D.rollback db) q

  -- How a purge ends, and what a failure of it, or of the commit after it, comes from.
  abbrev pub IsEnded : ℕ → List Model → D.Db → Result D.Db (D.Db × ℕ) → Type 0
  IsEnded t ms db (ok (db', n)) =
      IsBehind db' db
      × (D.commit db' ≡ none → Raises t ms db)
      × (Raises t ms db → D.commit db' ≡ none)
  IsEnded t ms db (err db') = IsBehind db' db × Raises t ms db

  skip-IsEnded :
      (t : ℕ) (m : Model) (ms : List Model) (db : D.Db) (r : Result D.Db (D.Db × ℕ))
      → m.is_archivable ≡ false
      → IsEnded t ms db r
      → IsEnded t (m ∷ ms) db r
  skip-IsEnded t m ms db (ok (db', n)) a (b, f, g) = (
    b,
    λ h. inr (a, f h),
    λ h. elim h [ inl x ↦ absurd (ground (arith, a, x.0)) | inr x ↦ g x.1 ],
  )
  skip-IsEnded t m ms db (err db') a (b, f) = (b, inr (a, f))

  -- After a DELETE that succeeded, a later statement raises.
  raised_later :
      (t : ℕ) (m : Model) (ms : List Model) (db db1 : D.Db) (k : ℕ)
      → m.is_archivable ≡ true
      → D.delete db m.name (conditions t) ≡ some (db1, k)
      → Raises t (m ∷ ms) db
      → Raises t ms db1
  raised_later t m ms db db1 k a e (inr (b, h)) = absurd (ground (arith, a, b))
  raised_later t m ms db db1 k a e (inl (b, inl f)) = absurd (ground (arith, e, f))
  raised_later t m ms db db1 k a e (inl (b, inr (db2, k2, f, h))) =
      let same : (db2, k2) ≡ (db1, k) = some-injective (sym f ∙ e) in
      subst (Raises t ms) (ap (λ (p : D.Db × ℕ). p.0) same) h

  delete-IsEnded :
      (t : ℕ) (m : Model) (ms : List Model) (db db1 : D.Db) (k : ℕ) (r : Result D.Db (D.Db × ℕ))
      → m.is_archivable ≡ true
      → D.delete db m.name (conditions t) ≡ some (db1, k)
      → IsEnded t ms db1 r
      → IsEnded t (m ∷ ms) db r
  delete-IsEnded t m ms db db1 k (ok (db', n)) a e (b, f, g) = (
    λ q. b q ∙ is.rows-rollback db db1 k m.name q (conditions t) e,
    λ h. inl (a, inr (db1, k, e, f h)),
    λ h. g (raised_later t m ms db db1 k a e h),
  )
  delete-IsEnded t m ms db db1 k (err db') a e (b, f) =
      (λ q. b q ∙ is.rows-rollback db db1 k m.name q (conditions t) e, inl (a, inr (db1, k, e, f)))

  pub purge_from-IsEnded :
      (t : ℕ) (ms : List Model) (total : ℕ) (db : D.Db)
      → IsEnded t ms db (purge_from D t ms total db)
  unfolding purge_from
  purge_from-IsEnded t [] total db = (λ q. refl, λ h. h, λ h. h)
  purge_from-IsEnded t (m ∷ ms) total db = elim (Bool-cases m.is_archivable) [
    | inr a ↦
        let step : purge_from D t (m ∷ ms) total db ≡ purge_from D t ms total db =
          ground (arith, a) in
        subst (IsEnded t (m ∷ ms) db) (sym step)
          (skip-IsEnded t m ms db _ a (purge_from-IsEnded t ms total db))
    | inl a ↦ elim (Option-cases (D.delete db m.name (conditions t))) [
      | inl e ↦
          let step : purge_from D t (m ∷ ms) total db ≡ err db = ground (arith, a, e) in
          subst (IsEnded t (m ∷ ms) db) (sym step) (λ q. refl, inl (a, inl e))
      | inr ((db1, k), e) ↦
          let step : purge_from D t (m ∷ ms) total db ≡ purge_from D t ms (total + k) db1 =
            ground (arith, a, e) in
          subst (IsEnded t (m ∷ ms) db) (sym step)
            (delete-IsEnded t m ms db db1 k _ a e (purge_from-IsEnded t ms (total + k) db1))
    ]
  ]
