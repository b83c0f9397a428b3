-- ===== src/Lib.antt =====
-- membersys keeps the members of an association: people apply through a web form, administrators
-- accept or reject them and keep their data, and tools create and delete their accounts. This
-- library models its two database layers, on Cassandra and on PostgreSQL, its web handlers, the
-- tool that makes and deletes accounts, the backup and the RPC service, and proves what they do to
-- the records and to whom they show them.
--
-- The parts, and the files that model them:
--
--   db.go, member.proto       Membership: the messages and the keyed records. Database: the interface
--                             MembershipDB as a record, which the handlers take, and its
--                             implementation by Cassandra.
--   db/cassandra.go           Cassandra/Session: the calls of gocql and proto as the fields of
--                             a record, with statements, rows and results as data.
--                             Cassandra/Cast: castString, castBool, castInt64AsUint64, castBytes,
--                             memberFromRow. Cassandra/Access: keys, and the reads of one record.
--                             Cassandra/Edit: SetMemberFee, SetLongValue, SetBoolValue, SetTextValue.
--                             Cassandra/Move: StoreMembershipRequest, StoreMembershipAgreement,
--                             moveRecordToTable and its callers, MoveMemberToTrash,
--                             MoveNewMemberToFullMember, MoveDeletedMemberToArchive.
--                             Cassandra/Queries: the SELECT statements of the lists.
--                             Cassandra/Enumerate: the lists and their streaming variants.
--                             Cassandra/Laws: what the code relies on of the database, as named
--                             hypotheses. Cassandra/Writes: sequences of writes.
--   membersys/applicantlist.go  Web/Applicants.
--   membersys/memberqueue.go, membersys/trash.go  Web/Queues.
--   membersys/memberlist.go   Web/Members (lists, one member, goodbye) and Web/Fields (the edits).
--   the handlers' shared parts  Web/Handler (requests, responses, early returns), Web/Numbers
--                             (strconv.ParseUint, decimal numbers of math/big).
--   db/pgsql.go, postgresql-schema.sql  Postgres/Sql: the calls of database/sql as the fields of
--                             a record. Postgres/Connect: the data source name. Postgres/Row:
--                             fullRowToMembershipAgreement. Postgres/Reads, Postgres/Edits and
--                             Postgres/Moves: the methods on one record. Postgres/Lists: what the
--                             goroutines of the lists send. Postgres/Collect: the select loops of
--                             the lists as a step relation. Postgres/Register: the table as
--                             a register of statuses, its specification.
--   member_creator/member_creator.go  Creator/Directory: LDAP and the mailer as a record, and the
--                             calls of a run. Creator/Account: accounts, groups, asciiFilter.
--                             Creator/Numbers: the search for the greatest number. Creator/Run: both
--                             loops, composed as main does.
--   backup/backup.go          Backup/Run: main from the first file on, and handleErrors, as one step
--                             relation. A message in a file is the member or the agreement alone, since
--                             WriteMessage marshals what is embedded in an entry, without its key.
--   member_list/member_list.go  Tools: the loop over the pages.
--   membersys/takeout.go, membersys/barcode.go  Web/Takeout and Web/Barcode.
--   rpc_server/               Rpc: GetMemberDetail, and the choice of the credentials.
--   db/new.go, config/config.proto  Startup: the choice of the backend.
--   strconv in both           Decimal: FormatUint, FormatInt, ParseInt.
--   membersys/formvalidator.go  Web/Form (FormInputHandler) and Web/Form/Matching (its regular
--                             expressions), with Web/Form/Checked and Web/Form/Missing.
--
-- Functions keep their Go names in small letters with underscores. A function that returns a value
-- and an error is a function to `Action S A`, from the state of the database to a result (a value,
-- an error with its gRPC code, or a panic) and the new state. A handler also writes the parts of
-- its response and can return early or panic. A loop over the rows of an iterator is recursion on
-- the list of the rows, and the digits of a number recursion on its text, so no fuel is needed
-- there. The pages of member_list are counted by a fuel, of which one more than there are members
-- is enough. The sends on the channels of a streaming call form one sequence. Numbers of uint64 are natural
-- numbers; castInt64AsUint64 wraps around at 2^64, and what ParseUint gives is below it.
--
-- The select loop of a list and the goroutine that it listens to run side by side, so their steps
-- are a relation between the states of both, and what holds of a list holds for every order of the
-- steps. member_creator works on the database and the directory in turn; its state has both, and
-- the calls made so far with what came back, the last first. FormatUint has 20 digits, which are
-- enough for 64 bits; the run adds 1 to a number modulo 2^64.
--
-- Postgres/Register says what is relied on of PostgreSQL: an UPDATE changes the columns it names
-- in the row with its id, a statement that fails changes nothing. Postgres/Reading relies on the
-- cells of a row to be those of the columns that were selected.
--
-- Cassandra/Laws says that a quorum read sees the row, that a logged batch that is reported done
-- is applied, that one reported failed is applied as a whole or not at all, that an INSERT with
-- another number of columns than of placeholders is refused, and that Unmarshal undoes Marshal.
-- Cassandra/Laws/Columns says that a batch reported done has had its effect on every column of
-- every row. Cassandra/Tests/Store is a database in memory that meets all of Cassandra/Laws,
-- and Cassandra/Tests/Wide adds the columns to it; the theorems' examples run over them.
--
-- The proofs stand in modules below the definitions: Edit/Saving, Edit/Fields, Edit/Columns,
-- Edit/Setters and Edit/Written for the setters; Move/Moving, Move/Leaving, Move/Joining and
-- Move/Uploading for the moves; Writes/Signed and Writes/Usernames for sequences;
-- Enumerate/Streams, Enumerate/Queues, Enumerate/Rows and Enumerate/Keys for the lists;
-- Web/Guards, Web/Edits, Web/Reports, Web/Saved, Web/Private and Web/Single for the handlers,
-- Web/Form/Checked and Web/Form/Missing for the application form; Postgres/Columns,
-- Postgres/Reading, Postgres/Refinement, Postgres/Lifecycle and Postgres/Setters for PostgreSQL;
-- Creator/Rules (pre- and postconditions over the calls), Creator/Backing, Creator/Removal,
-- Creator/Uids, Creator/Above, Creator/Loops, Creator/DryRun and Creator/Deletion for
-- member_creator; Tools/Order and Tools/Pages for member_list; Backup/Copy (what the files hold),
-- Backup/Stops, Backup/Listings and Backup/Closing for the backup; Web/Own for the takeout,
-- Web/Scanned and Web/Lookup for the way of a barcode's number back to its application.
--
-- Not modelled: the texts of errors and the log; the record that a read returns beside an error,
-- and the key that StoreMembershipRequest returns beside one; contexts and their deadlines; other
-- writers between a read and its batch; the age of what a read at consistency ONE sees, except
-- that a theorem never relies on such a read; the random part of a UUID made from the time, which
-- is a function of the time here; a column that is nil in a row, since MapScan fills in a value of
-- the column's type; letters beyond ASCII in strings.ToLower; the syntax of SQL text, a statement
-- being its columns and parameters; a goroutine that passes on the entries of a list, which are
-- passed on at once; the flags, configuration files and connections of the tools and of the RPC
-- server; nil entries in the lists of the backup. The remailer, the set-up of Cassandra and the
-- start-up code of the web server are not modelled. ancientauth, gocql, database/sql, lib/pq,
-- LDAP, proto, the templates, the HTTP server, floating-point numbers and the hash of a password
-- are parameters.
pub mod Base
pub mod Membership
pub mod Cassandra
pub mod Database
pub mod Web
pub mod Decimal
pub mod Creator
pub mod Postgres
pub mod Backup
pub mod Rpc
pub mod Startup
pub mod Tools
