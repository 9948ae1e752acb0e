-- ===== src/SqlApi.antt =====
-- sqlite3, as far as c/old_practice/work_srcs/socket/server/cli_sqlite3/cli_sqlite3.c relies on it:
-- a database with the table that its CREATE TABLE statement makes, and what `sqlite3_exec` does with
-- the other statements, when there is no other failure.
pub mod RowsOnly
use practice_project.Prelude.{
  ℕ, ◌≡◌, List, [], ◌∷◌, ◌++◌, Option, none, some, Bool, false, ◌>>=◌, ◌==◌, if◌then◌else◌,
}
use practice_project.Search.{lookup_by}

-- A row of CliInfo; `none` is NULL. The key `endid` is NOT NULL.
pub record Row : Type 0 where
  pub endid : ℕ
  pub fd : Option ℕ
  pub ipaddr : Option ℕ
  pub port : Option ℕ

-- The columns that statements name; the table has no column `addr`.
pub data Column : Type 0 where
  fd_column ipaddr_column port_column addr_column : Column

-- `SET column = value, ...`; `none` if the table has no such column.
abbrev pub assign_column : Column → Option ℕ → Row → Option Row
assign_column fd_column v r = some (record r { fd = v })
assign_column ipaddr_column v r = some (record r { ipaddr = v })
assign_column port_column v r = some (record r { port = v })
assign_column addr_column v r = none

abbrev pub assign_all : List (Column × Option ℕ) → Row → Option Row
assign_all [] r = some r
assign_all ((c, v) ∷ sets) r = do r' ← assign_column c v r; assign_all sets r'

-- A value is equal to a number; NULL is equal to none.
abbrev pub is_value : Option ℕ → ℕ → Bool
is_value none n = false
is_value (some m) n = m == n

abbrev pub keep_unless : (Row → Bool) → List Row → List Row
keep_unless p [] = []
keep_unless p (r ∷ rs) = let rest = keep_unless p rs in if p r then rest else r ∷ rest

abbrev pub replace_at : ℕ → Row → List Row → List Row
replace_at e new [] = []
replace_at e new (r ∷ rs) =
    let rest = replace_at e new rs in if r.endid == e then new ∷ rest else r ∷ rest

-- SQLITE_OK, SQLITE_CONSTRAINT, and any other code.
pub data SqlRet : Type 0 where
  sql_ok sql_constraint sql_error : SqlRet

-- The database and its rows, in the order in which SELECT gives them to a callback.
pub record SqlApi : Type 1 where
  pub Db : Type 0
  pub rows : Db → List Row
  -- The database with the table and no row.
  pub created : Db
  pub insert : Row → Db → SqlRet × Db
  -- UPDATE ... WHERE endid == ..., DELETE ... WHERE ....
  pub update_where : List (Column × Option ℕ) → ℕ → Db → SqlRet × Db
  pub delete_where : (Row → Bool) → Db → SqlRet × Db
  pub rows-created : rows created ≡ []
  -- The key is unique.
  pub insert-new :
      (r : Row) (d : Db)
      → lookup_by Row.endid r.endid (rows d) ≡ none
      → ((insert r d).0 ≡ sql_ok) × (rows (insert r d).1 ≡ rows d ++ r ∷ [])
  pub insert-known :
      (r old : Row) (d : Db)
      → lookup_by Row.endid r.endid (rows d) ≡ some old
      → insert r d ≡ (sql_constraint, d)
  -- The row with the key gets the values; a statement with an unknown column is refused.
  pub update-known :
      (sets : List (Column × Option ℕ)) (e : ℕ) (old new : Row) (d : Db)
      → lookup_by Row.endid e (rows d) ≡ some old
      → assign_all sets old ≡ some new
      → ((update_where sets e d).0 ≡ sql_ok)
        × (rows (update_where sets e d).1 ≡ replace_at e new (rows d))
  pub update-refused :
      (sets : List (Column × Option ℕ)) (e : ℕ) (d : Db)
      → ((r : Row) → assign_all sets r ≡ none)
      → update_where sets e d ≡ (sql_error, d)
  pub delete-rows :
      (p : Row → Bool) (d : Db)
      → ((delete_where p d).0 ≡ sql_ok) × (rows (delete_where p d).1 ≡ keep_unless p (rows d))
