-- ===== src/Cassandra/Laws/Columns.antt =====
-- What a logged batch of db/cassandra.go does to the columns of the rows, as a named hypothesis beside Laws.
use membersys.Base.{◌≡◌, true, Option, none, some, List, [], ◌∷◌, Bytes, Text, codes, if◌then◌else◌}
use membersys.Cassandra.Session.{Session, Table, Value, blob, Statement, insert, update, delete}
use membersys.Cassandra.Cast.{lookup}
use membersys.Cassandra.Laws.{same_row, is_separate}

-- The value that is bound to a column, or else the one that it had.
abbrev pub bound_or : Option Value → Option Value → Option Value
bound_or (some v) old = some v
bound_or none old = old

-- What a statement makes of the column `col` of the row `k'` of the table `t'`.
abbrev pub apply_to_column : Statement → Table → Bytes → Text → Option Value → Option Value
apply_to_column (insert t k pb) t' k' col old =
    if same_row t k t' k' then bound_or (lookup col ((codes "pb_data", blob pb) ∷ [])) old else old
apply_to_column (update t columns k) t' k' col old =
    if same_row t k t' k' then bound_or (lookup col columns) old else old
apply_to_column (delete t k) t' k' col old = if same_row t k t' k' then none else old

abbrev pub apply_to_columns : List Statement → Table → Bytes → Text → Option Value → Option Value
apply_to_columns [] t k col old = old
apply_to_columns (st ∷ batch) t k col old =
    apply_to_columns batch t k col (apply_to_column st t k col old)

-- A batch that is reported done has had its effect on every column of every row.
pub record ColumnLaws (c : Session) : Type 0 where
  pub column : c.State → Table → Bytes → Text → Option Value
  pub batch_columns :
      (batch : List Statement) (s s' : c.State)
      → is_separate batch ≡ true
      → c.execute_batch batch s ≡ (true, s')
      → (t : Table) (k : Bytes) (col : Text)
      → column s' t k col ≡ apply_to_columns batch t k col (column s t k col)
