-- ===== src/Maintenance/Purged.antt =====
-- What a run of src/app/maintenance.py deletes.
use mathlib.Core.Path.{fun_ext, subst}
use template_fastapi.Base.{
  ℕ, suc, ◌+◌, ◌-◌, ◌*◌, ◌≤◌, ◌<◌, leb, Result, ok, err, ok-injective, ◌⊎◌, String, Bool, true,
  false, not, ◌||◌, ◌&&◌, Option, none, some, List, [], ◌∷◌, all, All, keep, length, ltb, ◌==◌,
  string_eq, if◌then◌else◌, ◌≡◌, ◌≢◌, refl, sym, ap, ◌∙◌, arith, eq_iff, Bool-cases, Option-cases,
  inl, inr,
}
use template_fastapi.Base.Int.{ℤ, pos, negsuc}
use template_fastapi.Maintenance.{
  Row, Condition, satisfies, latest, day, not_set, overflows, fails, conditions, Database, Model,
  purge_from, purge_archived, older_than, Ran, purged, saved, committed, run,
}
use template_fastapi.Maintenance.Ended.{IsDatabase, Raises, IsEnded, purge_from-IsEnded}

-- In use, or archived after the given time.
abbrev pub is_kept : ℕ → Row → Bool
is_kept t r = elim r.archived_at [ none ↦ true | some a ↦ ltb t a ]

conditions-kept : (t : ℕ) (r : Row) → not (all (satisfies r) (conditions t)) ≡ is_kept t r
conditions-kept t r = ground arith

-- Whether a model of this name has archived rows.
abbrev pub is_purged : List Model → String → Bool
is_purged [] q = false
is_purged (m ∷ ms) q = m.is_archivable && q == m.name || is_purged ms q

-- No two models have one name.
abbrev pub AreDistinct : List Model → Type 0
AreDistinct [] = Unit
AreDistinct (m ∷ ms) = All (λ k. k.name ≢ m.name) ms × AreDistinct ms

-- The number of rows of the archivable models.
pub size : (D : Database) → List Model → D.Db → ℕ
size D [] db = 0
size D (m ∷ ms) db = (if m.is_archivable then length (D.rows db m.name) else 0) + size D ms db

module _ {D : Database} (is : IsDatabase D) where
  size-delete :
      (ms : List Model) (q : String) (db db' : D.Db) (n : ℕ) (cs : List Condition)
      → All (λ k. k.name ≢ q) ms
      → D.delete db q cs ≡ some (db', n)
      → size D ms db' ≡ size D ms db
  unfolding size
  size-delete [] q db db' n cs h e = refl
  size-delete (m ∷ ms) q db db' n cs h e = ground (
    arith,
    is.rows-delete db db' n q m.name cs e,
    eq_iff m.name q,
    h.0,
    size-delete ms q db db' n cs h.1 e,
  )

  not_purged : (ms : List Model) (q : String) → All (λ k. k.name ≢ q) ms → is_purged ms q ≡ false
  not_purged [] q h = refl
  not_purged (m ∷ ms) q h = ground (arith, h.0, eq_iff q m.name, not_purged ms q h.1)

  rows-kept :
      (t : ℕ) (m q : String) (db db' : D.Db) (n : ℕ)
      → D.delete db m (conditions t) ≡ some (db', n)
      → D.rows db' q ≡ (if q == m then keep (is_kept t) (D.rows db q) else D.rows db q)
  rows-kept t m q db db' n e =
      is.rows-delete db db' n m q (conditions t) e
      ∙ ap (λ f. if q == m then keep f (D.rows db q) else D.rows db q) (fun_ext (conditions-kept t))

  purge_from-ok :
      (t : ℕ) (ms : List Model) (total : ℕ) (db db' : D.Db) (n : ℕ)
      → AreDistinct ms
      → purge_from D t ms total db ≡ ok (db', n)
      → ((q : String)
          → D.rows db' q ≡ (if is_purged ms q then keep (is_kept t) (D.rows db q) else D.rows db q))
        × (n + size D ms db' ≡ total + size D ms db)
  unfolding purge_from size
  purge_from-ok t [] total db db' n d h =
      subst (λ (p : D.Db × ℕ). ((q : String) → D.rows p.0 q ≡ D.rows db q) × (p.1 + 0 ≡ total + 0))
        (ok-injective h) (λ q. refl, refl)
  purge_from-ok t (m ∷ ms) total db db' n d h = elim (Bool-cases m.is_archivable) [
    | inr a ↦
        let rest : purge_from D t ms total db ≡ ok (db', n) = ground (arith, h, a) in
        let (rows, counted) = purge_from-ok t ms total db db' n d.1 rest in
        (λ q. ground (arith, rows q, a), ground (arith, counted, a))
    | inl a ↦ elim (Option-cases (D.delete db m.name (conditions t))) [
      | inl e ↦ absurd (ground (arith, h, e, a))
      | inr ((db1, k), e) ↦
          let rest : purge_from D t ms (total + k) db1 ≡ ok (db', n) = ground (arith, h, e, a) in
          let (rows, counted) = purge_from-ok t ms (total + k) db1 db' n d.1 rest in
          let own = not_purged ms m.name d.0 in
          (
            λ q. ground (arith, rows q, rows-kept t m.name q db db1 k e, own, eq_iff q m.name, a),
            ground (
              arith,
              counted,
              rows m.name,
              own,
              is.count-delete db db1 k m.name (conditions t) e,
              size-delete ms m.name db db1 k (conditions t) d.0 e,
              a,
            ),
          )
    ]
  ]

  size-commit :
      (ms : List Model) (db db' : D.Db) → D.commit db ≡ some db' → size D ms db' ≡ size D ms db
  unfolding size
  size-commit [] db db' e = refl
  size-commit (m ∷ ms) db db' e =
      ground (arith, is.rows-commit db db' m.name e, size-commit ms db db' e)

  -- So many days before a time, or after it for a negative number, in microseconds; a time is at
  -- most the last microsecond of the year 9999.
  abbrev pub IsCutoff : ℕ → ℤ → ℕ → Type 0
  IsCutoff now (pos days) t = t + days * 86400000000 ≡ now
  IsCutoff now (negsuc n) t = (t ≡ now + suc n * 86400000000) × (t ≤ 315537897599999999)

  abbrev pub IsNoTime : ℕ → ℤ → Type 0
  IsNoTime now (pos days) = now < days * 86400000000
  IsNoTime now (negsuc n) = 315537897599999999 < now + suc n * 86400000000

  abbrev pub IsSame : D.Db → D.Db → Type 0
  IsSame db' db = (q : String) → D.rows db' q ≡ D.rows db q

  -- Each row of an archivable model is still there exactly if it is in use or was archived after
  -- the cutoff, other models are as they were, and `n` counts the rows that are gone.
  abbrev pub IsPurged : ℕ → List Model → D.Db → D.Db → ℕ → Type 0
  IsPurged t models db db' n =
      ((q : String)
        → D.rows db' q
          ≡ (if is_purged models q then keep (is_kept t) (D.rows db q) else D.rows db q))
      × (n + size D models db' ≡ size D models db)

  -- The outcome of a run with a cutoff.
  abbrev pub IsRanAt : ℕ → List Model → D.Db → D.Db × Ran → Type 0
  IsRanAt t models db r =
      (Raises is t models db × (r.1 ≡ fails) × IsSame r.0 db)
      ⊎ ((n : ℕ) × (r.1 ≡ purged n) × (Raises is t models db → ⊥) × IsPurged t models db r.0 n)

  abbrev pub IsRan : Option ℤ → ℕ → List Model → D.Db → D.Db × Ran → Type 0
  IsRan none now models db r = (r.1 ≡ not_set) × IsSame r.0 db
  IsRan (some d) now models db r =
      (IsNoTime now d × (r.1 ≡ overflows) × IsSame r.0 db)
      ⊎ ((t : ℕ) × IsCutoff now d t × IsRanAt t models db r)

  older_than-cases :
      (now : ℕ) (d : ℤ)
      → ((older_than now d ≡ none) × IsNoTime now d)
        ⊎ ((t : ℕ) × (older_than now d ≡ some t) × IsCutoff now d t)
  older_than-cases now (pos days) = elim (Bool-cases (leb (days * day) now)) [
    | inl e ↦ inr (now - days * day, rw e refl, ground (arith, e))
    | inr e ↦ inl (rw e refl, ground (arith, e))
  ]
  older_than-cases now (negsuc n) = elim (Bool-cases (leb (now + suc n * day) latest)) [
    | inl e ↦ inr (now + suc n * day, rw e refl, (refl, ground (arith, e)))
    | inr e ↦ inl (rw e refl, ground (arith, e))
  ]

  saved-IsRanAt :
      (t : ℕ) (models : List Model) (db db' : D.Db) (n : ℕ) (res : Option D.Db)
      → D.commit db' ≡ res
      → IsSame (D.rollback db) db
      → IsEnded is t models db (ok (db', n))
      → IsPurged t models db db' n
      → IsRanAt t models db (saved D db' n res)
  saved-IsRanAt t models db db' n none e clean (behind, raises, raised) (rows, counted) =
      inl (raises e, refl, λ q. behind q ∙ clean q)
  saved-IsRanAt t models db db' n (some db'') e clean (behind, raises, raised) (rows, counted) =
      inr (
        n,
        refl,
        λ h. absurd (let odd : some db'' ≡ none = sym e ∙ raised h in cc),
        (
          λ q. is.rows-commit db' db'' q e ∙ rows q,
          omega (arith, size-commit models db' db'' e, counted),
        ),
      )

  committed-IsRanAt :
      (t : ℕ) (models : List Model) (db : D.Db) (res : Result D.Db (D.Db × ℕ))
      → AreDistinct models
      → IsSame (D.rollback db) db
      → purge_from D t models 0 db ≡ res
      → IsEnded is t models db res
      → IsRanAt t models db (committed D res)
  committed-IsRanAt t models db (err db') a clean h (behind, raises) =
      inl (raises, refl, λ q. behind q ∙ clean q)
  committed-IsRanAt t models db (ok (db', n)) a clean h ended =
      saved-IsRanAt t models db db' n (D.commit db') refl clean ended (
        let (rows, counted) = purge_from-ok t models 0 db db' n a h in
        (rows, omega (arith, counted)))

  -- For models of different names and a session that has nothing to roll back: without a configured
  -- number of days nothing happens. If the time so many days before the call, or after it for a
  -- negative number, is before the year 1 or after the year 9999, the run overflows. If the DELETE
  -- of an archivable model or the commit raises, it fails. In these cases the rows are as they were.
  -- Any other run deletes exactly the rows of archivable models that were archived at that time or
  -- before, and reports their number.
  pub run-IsRan :
      (now : ℕ) (days : Option ℤ) (models : List Model) (db : D.Db)
      → AreDistinct models
      → IsSame (D.rollback db) db
      → IsRan days now models db (run D now days models db)
  unfolding run purge_archived
  run-IsRan now none models db a clean = (refl, λ q. refl)
  run-IsRan now (some d) models db a clean = elim (older_than-cases now d) [
    | inl (e, no_time) ↦ inl (no_time, rw e refl, rw e (λ q. refl))
    | inr (t, e, cutoff) ↦ inr (
      t,
      cutoff,
      rw e (
          committed-IsRanAt t models db (purge_from D t models 0 db) a clean refl
            (purge_from-IsEnded is t models 0 db)),
    )
  ]
