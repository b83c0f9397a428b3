-- ===== src/Postgres/Sql.antt =====
-- What db/pgsql.go uses of database/sql and lib/pq: one table of members with a status, and one of
-- scans. A statement is the table, the columns it sets and the id in its WHERE clause, with the
-- parameters in their places.
use membersys.Base.{ℕ, Bool, Option, List, Text, Bytes, ℤ}
use membersys.Membership.{Member, MembershipAgreement}

-- A parameter of a statement; `now` is the literal 'now'::timestamptz.
pub data Param : Type 0 where
  text : Text → Param
  optional : Option Text → Param
  unsigned : ℕ → Param
  signed : ℤ → Param
  boolean : Bool → Param
  blob : Bytes → Param
  now : Param

pub data Statement : Type 0 where
  insert_member : List (Text × Param) → Statement
  update_member : List (Text × Param) → ℤ → Statement
  insert_scan : Bytes → Statement

-- The rows with one value in a unique column.
pub data Key : Type 0 where
  by_id : ℤ → Key
  by_username : Text → Key

-- The WHERE and LIMIT clauses of a list: id > prev, the status, the beginning of the name, as many
-- characters as `criterion` has bytes, and the limit.
pub record Filter : Type 0 where
  pub prev : ℤ
  pub state : Text
  pub criterion : Text
  pub limit : ℤ

-- row.Scan: sql.ErrNoRows, another error, or the cells.
pub data Found (A : Type 0) : Type 0 where
  no_rows failed : Found A
  row : A → Found A

-- `exec` gives none where it fails, and otherwise what LastInsertId returns, none for an error.
-- The conversions are those of Scan into a pointer to a string, a uint64 and a bool, where NULL is
-- nil, and into an int64; none is an error.
pub record Sql : Type 1 where
  pub State : Type 0
  pub Cell : Type 0
  pub exec : Statement → State → Option (Option ℤ) × State
  pub select_member : List Text → Key → State → Found (List Cell)
  pub select_scan : ℤ → State → Found Bytes
  pub select_members : List Text → Filter → State → Option (List (List Cell))
  pub to_text : Cell → Option (Option Text)
  pub to_uint : Cell → Option (Option ℕ)
  pub to_bool : Cell → Option (Option Bool)
  pub to_int : Cell → Option ℤ
  -- proto.Merge into a new message.
  pub merge_agreement : MembershipAgreement → MembershipAgreement
  pub merge_member : Option Member → Member
