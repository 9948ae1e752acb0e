-- ===== src/SqlApi/RowsOnly.antt =====
-- A database that is its rows, for tests.
use practice_project.Prelude.{ℕ, refl, List, [], ◌∷◌, ◌++◌, Option, none, some}
use practice_project.Search.{lookup_by}
use practice_project.SqlApi.{
  Row, assign_all, keep_unless, replace_at, SqlRet, sql_ok, sql_constraint, sql_error, SqlApi,
}

-- The row with the key, or one that stands for none.
abbrev row_at : Option Row → Row
row_at none = record { endid = 0; fd = none; ipaddr = none; port = none }
row_at (some r) = r

abbrev inserted : Row → List Row → Option Row → SqlRet × List Row
inserted r d none = (sql_ok, d ++ r ∷ [])
inserted r d (some old) = (sql_constraint, d)

abbrev updated : ℕ → List Row → Option Row → SqlRet × List Row
updated e d none = (sql_error, d)
updated e d (some new) = (sql_ok, replace_at e new d)

abbrev pub rows_only : SqlApi
rows_only = record {
  Db = List Row;
  rows = λ d. d;
  created = [];
  insert = λ r d. inserted r d (lookup_by Row.endid r.endid d);
  update_where = λ sets e d. updated e d (assign_all sets (row_at (lookup_by Row.endid e d)));
  delete_where = λ p d. (sql_ok, keep_unless p d);
  rows-created = refl;
  insert-new = λ r d absent. rw absent (refl, refl);
  insert-known = λ r old d known. rw known refl;
  update-known = λ sets e old new d known gives. rw (known, gives) (refl, refl);
  update-refused = λ sets e d bad. rw (bad (row_at (lookup_by Row.endid e d))) refl;
  delete-rows = λ p d. (refl, refl);
}
