-- ===== src/Cassandra/Access.antt =====
-- Keys, and the reads of single records: GetMemberDetailByUsername, GetMemberDetail and
-- GetMembershipRequest of db/cassandra.go.
use membersys.Base.{
  ◌++◌, Text, Bytes, codes, Action, Result, ok, err, Error, status, plain, not_found, internal,
  or_throw, ◌>>=◌,
}
use membersys.Membership.{MembershipAgreement}
use membersys.Cassandra.Session.{
  Session, Table, application, members, Consistency, one, Scan, found, missing, failed,
}

abbrev pub application_prefix : Bytes
application_prefix = codes "applicant:"

abbrev pub application_end : Bytes
application_end = codes "applicant;"

abbrev pub queue_prefix : Bytes
queue_prefix = codes "queue:"

abbrev pub dequeue_prefix : Bytes
dequeue_prefix = codes "dequeue:"

abbrev pub archive_prefix : Bytes
archive_prefix = codes "archive:"

abbrev pub member_prefix : Bytes
member_prefix = codes "member:"

-- `append([]byte(memberPrefix), []byte(id)...)`.
abbrev pub member_key : Text → Bytes
member_key id = member_prefix ++ id

-- The errors that follow `stmt.Scan(&encodedProto)`.
abbrev pub scanned : Scan → Result Bytes
scanned (found pb) = ok pb
scanned missing = err (status not_found)
scanned failed = err (status internal)

module _ (c : Session) where
  open c use {State, scan_key, scan_username, parse_uuid, uuid_bytes, unmarshal}

  -- SELECT pb_data FROM table WHERE key = ?
  abbrev pub fetch : Consistency → Table → Bytes → Action State Bytes
  fetch level table key s = (scanned (scan_key level table key s), s)

  -- `proto.Unmarshal(encodedProto, member)`, with the error that the caller makes of a failure.
  abbrev pub decode : Bytes → Error → Action State MembershipAgreement
  decode pb e = or_throw (unmarshal pb) e

  unfoldable pub get_member_detail_by_username : Text → Action State MembershipAgreement
  get_member_detail_by_username username = do
    pb ← λ s. (scanned (scan_username username s), s)
    decode pb plain

  unfoldable pub get_member_detail : Text → Action State MembershipAgreement
  get_member_detail id = do pb ← fetch one members (member_key id); decode pb plain

  unfoldable pub get_membership_request : Text → Action State MembershipAgreement
  get_membership_request id = do
    uuid ← or_throw (parse_uuid id) (status internal)
    pb ← fetch one application (application_prefix ++ uuid_bytes uuid)
    decode pb (status internal)
