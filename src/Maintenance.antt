-- ===== src/Maintenance.antt =====
-- src/app/maintenance.py: the purge of archived rows. The database is a parameter: its rows, a
-- DELETE under some conditions, a commit, and the rollback with which a session that raised is
-- closed; a statement that raises is `none`. Times are
-- microseconds since the start of the year 1, before which Python has no time.
pub mod Ended
pub mod Purged
mod Tests
use template_fastapi.Base.{
  ℕ, zero, suc, ◌+◌, ◌-◌, ◌*◌, String, Bool, true, false, ◌&&◌, Option, none, some, List, [], ◌∷◌,
  all, is_some, leb, ltb, if◌then◌else◌, Result, ok, err,
}
use template_fastapi.Base.Int.{ℤ, pos, negsuc}

-- A row, as far as the purge asks: `archived_at`, which is NULL for a row in use.
pub record Row : Type 0 where
  pub id : ℕ
  pub archived_at : Option ℕ

-- `is_not(None)` and `<= t` on `archived_at`.
pub data Condition : Type 0 where
  is_not_none : Condition
  at_most : ℕ → Condition

-- A comparison with NULL holds of no row.
abbrev pub satisfies : Row → Condition → Bool
satisfies r is_not_none = is_some r.archived_at
satisfies r (at_most t) = elim r.archived_at [ none ↦ false | some a ↦ leb a t ]

pub record Database : Type 1 where
  pub Db : Type 0
  pub rows : Db → String → List Row
  pub delete : Db → String → List Condition → Option (Db × ℕ)
  pub commit : Db → Option Db
  pub rollback : Db → Db

-- A mapped class, and whether it has `archived_at`.
pub record Model : Type 0 where
  pub name : String
  pub is_archivable : Bool

abbrev pub conditions : ℕ → List Condition
conditions older_than = is_not_none ∷ at_most older_than ∷ []

module _ (D : Database) where
  -- The loop over the mappers, with the number of rows deleted so far; an error has the session as
  -- it was when a statement raised.
  unfoldable pub purge_from : ℕ → List Model → ℕ → D.Db → Result D.Db (D.Db × ℕ)
  purge_from older_than [] total db = ok (db, total)
  purge_from older_than (m ∷ ms) total db =
      let skipped = purge_from older_than ms total db in
      let next : D.Db × ℕ → Result D.Db (D.Db × ℕ) =
        λ done. purge_from older_than ms (total + done.1) done.0 in
      if m.is_archivable
      then elim (D.delete db m.name (conditions older_than)) [
        | none ↦ err db
        | some done ↦ next done
      ]
      else skipped

  unfoldable pub purge_archived : ℕ → List Model → D.Db → Result D.Db (D.Db × ℕ)
  unfolding purge_from
  purge_archived older_than models db = purge_from older_than models 0 db

-- `datetime.max`, and the microseconds of a day.
abbrev pub latest : ℕ
latest = 315537897599999999

abbrev pub day : ℕ
day = 86400000000

-- `now - timedelta(days=days)`; `none` is the OverflowError of a time that Python has not.
abbrev pub older_than : ℕ → ℤ → Option ℕ
older_than now (pos days) = if leb (days * day) now then some (now - days * day) else none
older_than now (negsuc n) =
    if leb (now + suc n * day) latest then some (now + suc n * day) else none

pub data Ran : Type 0 where
  not_set : Ran
  overflows : Ran
  fails : Ran
  purged : ℕ → Ran

module _ (D : Database) where
  -- The end of the session: an exception closes it without a commit.
  abbrev pub saved : D.Db → ℕ → Option D.Db → D.Db × Ran
  saved db n none = (D.rollback db, fails)
  saved db n (some db') = (db', purged n)

  abbrev pub committed : Result D.Db (D.Db × ℕ) → D.Db × Ran
  committed (err db) = (D.rollback db, fails)
  committed (ok (db, n)) = saved db n (D.commit db)

  abbrev pub run_at : List Model → D.Db → Option ℕ → D.Db × Ran
  run_at models db none = (db, overflows)
  run_at models db (some t) = committed (purge_archived D t models db)

  -- `_run`, with `archive_purge_after_days` and the time of the call.
  unfoldable pub run : ℕ → Option ℤ → List Model → D.Db → D.Db × Ran
  unfolding purge_archived
  run now none models db = (db, not_set)
  run now (some days) models db = run_at models db (older_than now days)
