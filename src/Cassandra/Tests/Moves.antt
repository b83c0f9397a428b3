-- ===== src/Cassandra/Tests/Moves.antt =====
-- The theorems about the moves and uploads of db/cassandra.go, at concrete inputs.
use membersys.Base.{◌≡◌, refl, ◌⊎◌, [], ◌++◌, Bytes, codes, ok, Result, ℕ, drop, some, text_eq}
use membersys.Membership.{MembershipAgreement}
use membersys.Cassandra.Session.{application, membership_queue, membership_archive}
use membersys.Cassandra.Access.{
  application_prefix, queue_prefix, archive_prefix, member_key, get_membership_request,
}
use membersys.Cassandra.Move.{
  move_record_to_table, move_member_to_trash, move_new_member_to_full_member,
  move_deleted_member_to_archive, store_membership_agreement,
}
use membersys.Cassandra.Cast.{lookup}
use membersys.Cassandra.Laws.Batches.{Unchanged}
use membersys.Cassandra.Move.Moving.{Approved, Dismissed, move_record_to_table_settles}
use membersys.Cassandra.Move.Leaving.{move_member_to_trash_settles}
use membersys.Cassandra.Move.Joining.{Promoted, move_new_member_settles}
use membersys.Cassandra.Move.Uploading.{Uploaded, store_membership_agreement_settles}
use membersys.Cassandra.Tests.Store.{Cells, test_laws}
use membersys.Cassandra.Tests.Sample.{
  ada, email, admin, request_metadata, raw_uuid, uuid_text, session, one_applicant, one_member,
  one_queued, queued_ada, one_departing,
}

abbrev moved : Result (Unit {0}) × Cells
moved =
    move_record_to_table session 5 raw_uuid admin application application_prefix membership_queue
      queue_prefix one_applicant

moved-ok : moved.0 ≡ ok tt
unfolding move_record_to_table text_eq
moved-ok = refl

move_record_to_table_settles_example :
    Approved session
      (test_laws [])
      5
      admin
      application
      (application_prefix ++ raw_uuid)
      membership_queue
      (queue_prefix ++ raw_uuid)
      one_applicant
      moved.1
    ⊎ Unchanged session (test_laws []) one_applicant moved.1
move_record_to_table_settles_example =
    move_record_to_table_settles session (test_laws []) 5 raw_uuid admin application
      application_prefix membership_queue queue_prefix one_applicant refl

abbrev left : Result (Unit {0}) × Cells
left = move_member_to_trash session 5 email admin (codes "moved away") one_member

left-ok : left.0 ≡ ok tt
unfolding move_member_to_trash text_eq
left-ok = refl

move_member_to_trash_settles_example :
    Dismissed session
      (test_laws [])
      5
      admin
      (codes "moved away")
      (member_key email)
      (session.uuid_bytes 5)
      one_member
      left.1
    ⊎ Unchanged session (test_laws []) one_member left.1
move_member_to_trash_settles_example =
    move_member_to_trash_settles session (test_laws []) 5 email admin (codes "moved away")
      one_member

abbrev promoted : Result (Unit {0}) × Cells
promoted = move_new_member_to_full_member session queued_ada one_queued

promoted-ok : promoted.0 ≡ ok tt
unfolding move_new_member_to_full_member
promoted-ok = refl

move_new_member_settles_example :
    ((pb : Bytes) × Promoted session (test_laws []) queued_ada pb one_queued promoted.1)
    ⊎ Unchanged session (test_laws []) one_queued promoted.1
move_new_member_settles_example =
    move_new_member_settles session (test_laws []) queued_ada one_queued

store_membership_agreement_settles_example :
    let s' = (store_membership_agreement session uuid_text (codes "%PDF-1.5") one_applicant).1 in
    ((uuid : ℕ) × (a : MembershipAgreement) × Uploaded session
        (test_laws [])
        uuid_text
        (codes "%PDF-1.5")
        uuid
        a
        one_applicant
        s')
    ⊎ Unchanged session (test_laws []) one_applicant s'
store_membership_agreement_settles_example =
    store_membership_agreement_settles session (test_laws []) uuid_text (codes "%PDF-1.5")
      one_applicant

-- The archive drops one byte too many of the key.
archived_key :
    (move_deleted_member_to_archive session queued_ada one_departing).1 membership_archive
      (archive_prefix ++ drop 9 raw_uuid)
    ≡ session.marshal_member ada
unfolding move_deleted_member_to_archive text_eq
archived_key = refl

-- An upload is read back.
uploaded_pdf :
    (get_membership_request session uuid_text
      (store_membership_agreement session uuid_text (codes "%PDF-1.5") one_applicant).1).0
    ≡ ok (record {
      agreement_pdf = codes "%PDF-1.5";
      member_data = some ada;
      metadata = some request_metadata;
    })
unfolding get_membership_request store_membership_agreement text_eq lookup
uploaded_pdf = refl
