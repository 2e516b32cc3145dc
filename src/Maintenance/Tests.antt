-- ===== src/Maintenance/Tests.antt =====
-- The purge on a database of two classes.
use template_fastapi.Base.{
  ℕ, ◌+◌, String, Bool, true, false, not, Option, none, some, List, [], ◌∷◌, all, keep, length,
  ◌==◌, string_eq, if◌then◌else◌, ◌≡◌, refl, sym, ap, some-injective, arith, eq_iff,
}
use mathlib.Core.Path.{subst}
use template_fastapi.Base.Int.{pos}
use template_fastapi.Maintenance.{Row, satisfies, Database, Model, run, purged, day}
use template_fastapi.Maintenance.Ended.{IsDatabase}
use template_fastapi.Maintenance.Purged.{IsRan, run-IsRan}

abbrev Rows : Type 0
Rows = String → List Row

-- The committed rows, and the rows that the session sees.
abbrev tables : Database
tables = record {
  Db = Rows × Rows;
  rows = λ db q. db.1 q;
  delete = λ db m cs. some (
    (db.0, λ q. if q == m then keep (λ r. not (all (satisfies r) cs)) (db.1 q) else db.1 q),
    length (keep (λ r. all (satisfies r) cs) (db.1 m)),
  );
  commit = λ db. some (db.1, db.1);
  rollback = λ db. (db.0, db.0);
}

split-length :
    (p : Row → Bool) (rs : List Row)
    → length (keep p rs) + length (keep (λ r. not (p r)) rs) ≡ length rs
split-length p [] = omega arith
split-length p (r ∷ rs) = ground (arith, split-length p rs)

tables-IsDatabase : IsDatabase tables
tables-IsDatabase = record {
  rows-delete =
      λ db db' n m q cs e. ap (λ (p : (Rows × Rows) × ℕ). p.0.1 q) (sym (some-injective e));
  count-delete = λ db db' n m cs e.
      subst (λ (p : (Rows × Rows) × ℕ). p.1 + length (p.0.1 m) ≡ length (db.1 m)) (some-injective e)
        (rw ((eq_iff m m).1 refl) (split-length (λ r. all (satisfies r) cs) (db.1 m)));
  rows-commit = λ db db' q e. ap (λ (f : Rows × Rows). f.1 q) (sym (some-injective e));
  rows-rollback =
      λ db db' n m q cs e. ap (λ (p : (Rows × Rows) × ℕ). p.0.0 q) (sym (some-injective e));
}

abbrev row : ℕ → Option ℕ → Row
row id archived = record { id = id; archived_at = archived }

abbrev heroes : String → List Row
heroes q =
    if q == "Hero"
    then row 1 none ∷ row 2 (some 5) ∷ row 3 (some (day + 7)) ∷ []
    else if q == "Revision"
    then row 4 none ∷ []
    else []

abbrev models : List Model
models =
    record { name = "Hero"; is_archivable = true }
    ∷ record { name = "Revision"; is_archivable = false }
    ∷ []

run-heroes : (run tables (day + 6) (some (pos 1)) models (heroes, heroes)).1 ≡ purged 1
unfolding run
run-heroes = refl

run-heroes_rows :
    (run tables (day + 6) (some (pos 1)) models (heroes, heroes)).0.1 "Hero"
    ≡ row 1 none ∷ row 3 (some (day + 7)) ∷ []
unfolding run
run-heroes_rows = refl

run-IsRan_example :
    IsRan tables-IsDatabase
      (some (pos 1))
      (day + 6)
      models
      (heroes, heroes)
      (run tables (day + 6) (some (pos 1)) models (heroes, heroes))
run-IsRan_example =
    run-IsRan tables-IsDatabase (day + 6) (some (pos 1)) models (heroes, heroes)
      ((λ e. ground (arith, eq_iff "Revision" "Hero", e), tt), (tt, tt)) (λ q. refl)
