-- ===== src/Cassandra/Tests/Lists.antt =====
-- The theorems about the lists of db/cassandra.go, at concrete inputs.
use membersys.Base.{Result, ok, ◌≡◌, refl, ap, [], ◌∷◌, ◌++◌, codes, text_eq, All, pos, length}
use membersys.Cassandra.Session.{Session, Row, membership_queue}
use membersys.Cassandra.Access.{application_prefix, queue_prefix}
use membersys.Cassandra.Cast.{lookup, cast_bytes}
use membersys.Cassandra.Move.{
  move_member_to_trash, move_applicant_to_new_member, move_applicant_to_trash,
  move_new_member_to_full_member,
}
use membersys.Cassandra.Enumerate.{decode_row, enumerate_membership_requests}
use membersys.Cassandra.Enumerate.Rows.{StartsWith, enumerate_requests-StartsWith}
use membersys.Cassandra.Enumerate.Keys.{
  HasUuidKeys, Fails, listed_applicant_is_stuck, promoted_member_stays_queued,
}
use membersys.Cassandra.Tests.Store.{Cells, test_session, test_laws, test_uuid_laws, one_row}
use membersys.Cassandra.Tests.Sample.{
  ada, email, admin, raw_uuid, uuid_text, one_applicant, one_queued, one_member, agreement, stored,
  row_under, applicant_row, member_row,
}

abbrev queued_row : Row
queued_row = row_under (queue_prefix ++ raw_uuid)

abbrev showing_members : Session
showing_members = test_session (member_row ∷ [])

abbrev showing_applicants : Session
showing_applicants = test_session (applicant_row ∷ row_under (codes "appl") ∷ [])

abbrev showing_queue : Session
showing_queue = test_session (queued_row ∷ [])

abbrev showing_short : Session
showing_short = test_session (queued_row ∷ row_under (codes "que") ∷ [])

enumerate_requests-StartsWith_example :
    All
      (StartsWith (codes "AD"))
      (enumerate_membership_requests showing_applicants
        (codes "AD")
        uuid_text
        (pos 0)
        one_applicant).items
enumerate_requests-StartsWith_example =
    enumerate_requests-StartsWith showing_applicants (codes "AD") uuid_text (pos 0) one_applicant

applicants_under_uuids :
    HasUuidKeys showing_applicants (test_laws _) (test_uuid_laws _) one_applicant
applicants_under_uuids key pb e =
    ap length (one_row (application_prefix ++ raw_uuid) stored key pb e).0

listed_applicant_is_stuck_example :
    Fails showing_applicants
      (test_laws _)
      (test_uuid_laws _)
      (move_applicant_to_new_member showing_applicants 5 uuid_text admin one_applicant)
      one_applicant
    × Fails showing_applicants
        (test_laws _)
        (test_uuid_laws _)
        (move_applicant_to_trash showing_applicants 5 uuid_text admin one_applicant)
        one_applicant
unfolding decode_row lookup text_eq cast_bytes
listed_applicant_is_stuck_example =
    listed_applicant_is_stuck showing_applicants (test_laws _) (test_uuid_laws _) applicant_row
      uuid_text agreement 5 admin one_applicant applicants_under_uuids refl

promoted_member_stays_queued_example :
    (move_new_member_to_full_member showing_queue
        (record { key = uuid_text; member = ada })
        one_queued).1
      membership_queue
      (queue_prefix ++ raw_uuid)
    ≡ one_queued membership_queue (queue_prefix ++ raw_uuid)
unfolding decode_row lookup text_eq cast_bytes
promoted_member_stays_queued_example =
    promoted_member_stays_queued showing_queue (test_laws _) (test_uuid_laws _) queued_row uuid_text
      agreement ada one_queued refl

abbrev left : Result (Unit {0}) × Cells
left = move_member_to_trash showing_queue 7 email admin [] one_member

left-ok : left.0 ≡ ok tt
unfolding move_member_to_trash text_eq
left-ok = refl
