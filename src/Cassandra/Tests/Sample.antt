-- ===== src/Cassandra/Tests/Sample.antt =====
-- Sample records and database contents for the tests of db/cassandra.go.
use membersys.Base.{some, [], ◌∷◌, ◌++◌, Text, Bytes, codes}
use membersys.Membership.{
  Member, MembershipMetadata, MembershipAgreement, MemberWithKey, empty_member, empty_metadata,
}
use membersys.Cassandra.Session.{
  Session, Row, text, blob, application, members, member_agreements, membership_queue,
  membership_dequeue,
}
use membersys.Cassandra.Access.{application_prefix, queue_prefix, dequeue_prefix, member_key}
use membersys.Cassandra.Tests.Codec.{agreement_codec}
use membersys.Cassandra.Tests.Store.{Cells, cells, test_session, zeros}

abbrev pub ada : Member
ada = record empty_member {
  name = some (codes "Ada");
  email = some (codes "ada@example.org");
  username = some (codes "ada");
  fee = some 20;
}

abbrev pub email : Text
email = codes "ada@example.org"

abbrev pub admin : Text
admin = codes "admin"

abbrev pub request_metadata : MembershipMetadata
request_metadata = record empty_metadata { request_timestamp = some 3 }

abbrev pub agreement : MembershipAgreement
agreement = record {
  agreement_pdf = codes "%PDF";
  member_data = some ada;
  metadata = some request_metadata;
}

abbrev pub stored : Bytes
stored = agreement_codec.enc agreement []

-- The bytes and the text of the UUID 7.
abbrev pub raw_uuid : Bytes
raw_uuid = 7 ∷ zeros 15

abbrev pub uuid_text : Text
uuid_text = 7 ∷ zeros 35

-- A session whose iterators deliver nothing.
abbrev pub session : Session
session = test_session []

abbrev pub one_applicant : Cells
one_applicant = cells ((application, application_prefix ++ raw_uuid, stored) ∷ [])

abbrev pub one_member : Cells
one_member =
    cells ((members, member_key email, stored) ∷ (member_agreements, member_key email, stored) ∷ [])

abbrev pub one_queued : Cells
one_queued = cells ((membership_queue, queue_prefix ++ raw_uuid, stored) ∷ [])

abbrev pub queued_ada : MemberWithKey
queued_ada = record { key = raw_uuid; member = ada }

abbrev pub one_departing : Cells
one_departing = cells ((membership_dequeue, dequeue_prefix ++ raw_uuid, stored) ∷ [])

-- Rows of an iterator.
abbrev pub row_under : Bytes → Row
row_under key = (codes "key", blob key) ∷ (codes "pb_data", blob stored) ∷ []

abbrev pub applicant_row : Row
applicant_row = row_under (application_prefix ++ raw_uuid)

abbrev pub member_row : Row
member_row = (codes "name", text (codes "Ada")) ∷ (codes "email", text email) ∷ []
