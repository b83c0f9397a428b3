-- ===== src/Cassandra/Session.antt =====
-- What db/cassandra.go uses of the packages gocql and proto and of the Cassandra server, as
-- an interface: values, statements and results as data, and the calls as the fields of `Session`.
use membersys.Base.{ℕ, ◌≡◌, refl, ◌⊎◌, inl, inr, Bool, Option, List, Text, Bytes, ℤ}
use membersys.Membership.{Member, MembershipAgreement}

-- The tables of cassandra-schema that the statements name.
pub data Table : Type 0 where
  application members member_agreements membership_queue membership_dequeue : Table
  membership_archive : Table

pub data Consistency : Type 0 where
  one quorum : Consistency

-- A value of a column as gocql hands it over (`interface{}`), or binds it. `ulong` is a bound
-- Go `uint64`; `other` is a value of any further type.
pub data Value : Type 0 where
  text : Text → Value
  boolean : Bool → Value
  bigint : ℤ → Value
  ulong : ℕ → Value
  blob : Bytes → Value
  null : Value
  other : Value

-- `map[string]interface{}`, as `Iter.MapScan` fills it.
abbrev pub Row : Type 0
Row = List (Text × Value)

-- A statement of a batch, with the values bound to it.
pub data Statement : Type 0 where
  -- INSERT INTO table (key, pb_data) VALUES (?, ?)
  insert : Table → Bytes → Bytes → Statement
  -- UPDATE table SET column = ?, … WHERE key = ?
  update : Table → List (Text × Value) → Bytes → Statement
  -- DELETE FROM table WHERE key = ?
  delete : Table → Bytes → Statement

-- An INSERT as StoreMembershipRequest writes it: its columns, the number of its placeholders and
-- the values bound to them.
pub record Insert : Type 0 where
  pub table : Table
  pub columns : List Text
  pub placeholders : ℕ
  pub values : List Value

-- SELECT columns FROM table WHERE key > start [AND key < end] [AND email > ''] [LIMIT limit]
-- ALLOW FILTERING
pub record Select : Type 0 where
  pub columns : List Text
  pub table : Table
  pub start : Bytes
  pub end : Option Bytes
  pub has_email : Bool
  pub limit : Option ℕ

-- What `Query.Scan` of one pb_data column ends in: the column, `gocql.ErrNotFound`, another error.
pub data Scan : Type 0 where
  found : Bytes → Scan
  missing : Scan
  failed : Scan

pub Scan-cases : (x : Scan) → ((pb : Bytes) × (x ≡ found pb)) ⊎ ((x ≡ missing) ⊎ (x ≡ failed))
Scan-cases (found pb) = inl (pb, refl)
Scan-cases missing = inr (inl refl)
Scan-cases failed = inr (inr refl)

-- What an iterator delivers: its rows in order, and whether `Iter.Close` reports an error.
pub record Rows : Type 0 where
  pub rows : List Row
  pub close_failed : Bool

pub record Session : Type 1 where
  -- The contents of the database.
  pub State : Type 0
  -- gocql.UUID.
  pub Uuid : Type 0
  -- SELECT pb_data FROM table WHERE key = ?
  pub scan_key : Consistency → Table → Bytes → State → Scan
  -- SELECT pb_data FROM members WHERE username = ?
  pub scan_username : Text → State → Scan
  -- Query(…).Iter() at consistency ONE.
  pub iter : Select → State → Rows
  -- ExecuteBatch of a logged batch at consistency QUORUM: true if it returned nil.
  pub execute_batch : List Statement → State → Bool × State
  -- Query(…).Exec() of an INSERT.
  pub exec : Insert → State → Bool × State
  -- gocql.ParseUUID, UUIDFromBytes, UUIDFromTime, and the methods Bytes and String of a UUID.
  pub parse_uuid : Text → Option Uuid
  pub uuid_from_bytes : Bytes → Option Uuid
  pub uuid_from_time : ℕ → Uuid
  pub uuid_bytes : Uuid → Bytes
  pub uuid_string : Uuid → Text
  -- proto.Marshal and proto.Unmarshal of a MembershipAgreement. On a *MemberWithKey, Marshal runs
  -- the methods of the embedded Member: `marshal_member`.
  pub marshal : MembershipAgreement → Option Bytes
  pub unmarshal : Bytes → Option MembershipAgreement
  pub marshal_member : Member → Option Bytes
  -- proto.Merge(dst, src), as the new value of dst; src may be a nil *Member.
  pub merge_agreement : MembershipAgreement → MembershipAgreement → MembershipAgreement
  pub merge_member : Member → Option Member → Member
