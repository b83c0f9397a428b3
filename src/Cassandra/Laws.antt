-- ===== src/Cassandra/Laws.antt =====
-- What db/cassandra.go relies on of Cassandra, gocql and proto, as named hypotheses about
-- a `Session`: quorum reads see the rows, a logged batch is applied as a whole or not at all, and
-- Unmarshal undoes Marshal. The rows are seen through `pb_data`, the pb_data column of each key.
pub mod Batches
pub mod Columns
use membersys.Base.{
  ℕ, ◌≡◌, ◌≢◌, ◌⊎◌, Bool, true, false, not, ◌&&◌, Option, none, some, List, [], ◌∷◌, Bytes, codes,
  text_eq, length, ◌==◌, if◌then◌else◌,
}
use membersys.Membership.{MembershipAgreement}
use membersys.Cassandra.Session.{
  Session, Table, application, members, member_agreements, membership_queue, membership_dequeue,
  membership_archive, quorum, found, missing, Value, blob, Statement, insert, update, delete,
  Insert,
}
use membersys.Cassandra.Cast.{lookup}

abbrev pub table_id : Table → ℕ
table_id application = 0
table_id members = 1
table_id member_agreements = 2
table_id membership_queue = 3
table_id membership_dequeue = 4
table_id membership_archive = 5

abbrev pub table_eq : Table → Table → Bool
table_eq t u = table_id t == table_id u

abbrev pub target : Statement → Table
target (insert t k pb) = t
target (update t columns k) = t
target (delete t k) = t

abbrev pub avoids : Table → List Statement → Bool
avoids t [] = true
avoids t (st ∷ batch) = not (table_eq t (target st)) && avoids t batch

-- No two statements of a batch write to one table, so their order does not matter.
abbrev pub is_separate : List Statement → Bool
is_separate [] = true
is_separate (st ∷ batch) = avoids (target st) batch && is_separate batch

-- The pb_data column after an UPDATE that sets `columns`.
abbrev pub set_pb : Option Value → Option Bytes → Option Bytes
set_pb (some (blob pb)) old = some pb
set_pb _ old = old

abbrev pub same_row : Table → Bytes → Table → Bytes → Bool
same_row t k t' k' = table_eq t t' && text_eq k k'

-- What a statement makes of the pb_data column of the row `k'` of the table `t'`.
abbrev pub apply_statement : Statement → Table → Bytes → Option Bytes → Option Bytes
apply_statement (insert t k pb) t' k' old = if same_row t k t' k' then some pb else old
apply_statement (update t columns k) t' k' old =
    if same_row t k t' k' then set_pb (lookup (codes "pb_data") columns) old else old
apply_statement (delete t k) t' k' old = if same_row t k t' k' then none else old

abbrev pub apply_batch : List Statement → Table → Bytes → Option Bytes → Option Bytes
apply_batch [] t k old = old
apply_batch (st ∷ batch) t k old = apply_batch batch t k (apply_statement st t k old)

pub record Laws (c : Session) : Type 0 where
  pub pb_data : c.State → Table → Bytes → Option Bytes
  pub scan_found :
      (t : Table) (k pb : Bytes) (s : c.State)
      → c.scan_key quorum t k s ≡ found pb
      → pb_data s t k ≡ some pb
  pub scan_missing :
      (t : Table) (k : Bytes) (s : c.State)
      → c.scan_key quorum t k s ≡ missing
      → pb_data s t k ≡ none
  -- A logged batch that is reported done is applied.
  pub batch_done :
      (batch : List Statement) (s s' : c.State)
      → is_separate batch ≡ true
      → c.execute_batch batch s ≡ (true, s')
      → (t : Table) (k : Bytes) → pb_data s' t k ≡ apply_batch batch t k (pb_data s t k)
  -- One that is reported failed is applied to every row or to none.
  pub batch_failed :
      (batch : List Statement) (s s' : c.State)
      → is_separate batch ≡ true
      → c.execute_batch batch s ≡ (false, s')
      → ((t : Table) (k : Bytes) → pb_data s' t k ≡ apply_batch batch t k (pb_data s t k))
        ⊎ ((t : Table) (k : Bytes) → pb_data s' t k ≡ pb_data s t k)
  -- An INSERT whose columns and placeholders differ in number is refused.
  pub exec_refuses :
      (i : Insert) (s : c.State) → length i.columns ≢ i.placeholders → c.exec i s ≡ (false, s)
  -- An INSERT that is run reaches its own table only.
  pub exec_frame :
      (i : Insert) (s : c.State) (t : Table) (k : Bytes)
      → table_eq i.table t ≡ false
      → pb_data (c.exec i s).1 t k ≡ pb_data s t k
  pub unmarshal-marshal :
      (a : MembershipAgreement) (pb : Bytes) → c.marshal a ≡ some pb → c.unmarshal pb ≡ some a
