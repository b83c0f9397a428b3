-- ===== src/Cassandra/Move.antt =====
-- The writes of db/cassandra.go that create records and move them between the tables:
-- StoreMembershipRequest, StoreMembershipAgreement, moveRecordToTable and its callers,
-- MoveMemberToTrash, MoveNewMemberToFullMember, MoveDeletedMemberToArchive.
pub mod Moving
pub mod Leaving
pub mod Joining
pub mod Uploading
use membersys.Base.{
  ℕ, ◌+◌, Bool, true, false, Option, none, some, List, [], ◌∷◌, ◌++◌, Text, Bytes, codes, is_empty,
  hex_encode, length, drop, ltb, ◌&&◌, if◌then◌else◌, Action, Result, ok, err, panic, status, plain,
  internal, data_loss, or_throw, throw_if, deref, ◌>>=◌, ◌>>◌,
}
use membersys.Membership.{
  Member, MembershipMetadata, MembershipAgreement, MemberWithKey, number_or_zero, bool_or_false,
  text_or_empty,
}
use membersys.Cassandra.Session.{
  Session, Table, application, members, member_agreements, membership_queue, membership_dequeue,
  membership_archive, quorum, Value, text, boolean, ulong, blob, null, Insert, Statement, insert,
  update, delete,
}
use membersys.Cassandra.Access.{
  application_prefix, queue_prefix, dequeue_prefix, archive_prefix, member_key, fetch, decode,
  get_membership_request,
}
use membersys.Cassandra.Edit.{run_batch, encode}

abbrev pub is_queue : Table → Bool
is_queue membership_queue = true
is_queue _ = false

-- `member.Metadata.ApproverUid = …; member.Metadata.ApprovalTimestamp = …`.
abbrev pub approve : Text → ℕ → MembershipMetadata → MembershipMetadata
approve initiator now m = record m { approval_timestamp = some now; approver_uid = some initiator }

abbrev pub say_goodbye : Text → Text → ℕ → MembershipMetadata → MembershipMetadata
say_goodbye initiator reason now m = record m {
  goodbye_timestamp = some now;
  goodbye_initiator = some initiator;
  goodbye_reason = some reason;
}

abbrev pub with_metadata : MembershipAgreement → MembershipMetadata → MembershipAgreement
with_metadata agreement m = record agreement { metadata = some m }

-- A batch that inserts a record under one key and deletes another row.
unfoldable pub move_batch : Table → Bytes → Table → Bytes → Bytes → List Statement
move_batch src_table src_key dst_table dst_key pb =
    insert dst_table dst_key pb ∷ delete src_table src_key ∷ []

unfoldable pub new_member_batch : MemberWithKey → Bytes → List Statement
new_member_batch m pb =
    insert members (member_key (text_or_empty m.member.email)) pb
    ∷ insert member_agreements (member_key (text_or_empty m.member.email)) pb
    ∷ delete membership_queue (queue_prefix ++ m.key)
    ∷ []

-- `member.Key[n:]`, which panics where the key is shorter than `n`.
abbrev pub slice_from : ℕ → Text → Result Text
slice_from n key = if ltb (length key) n then panic else ok (drop n key)

abbrev pub bind_text : Option Text → Value
bind_text none = null
bind_text (some t) = text t

-- The row that StoreMembershipRequest inserts, as the statement is written.
unfoldable pub application_insert : Member → MembershipMetadata → Bytes → Insert
application_insert m meta pb = record {
  table = application;
  columns =
      codes "name"
      ∷ codes "street"
      ∷ codes "city"
      ∷ codes "zipcode"
      ∷ codes "country"
      ∷ codes "email"
      ∷ codes "email_verified"
      ∷ codes "phone"
      ∷ codes "fee"
      ∷ codes "username"
      ∷ codes "pwhash"
      ∷ codes "fee_yearly"
      ∷ codes "sourceip"
      ∷ codes "useragent"
      ∷ codes "pb_data"
      ∷ [];
  placeholders = 14;
  values =
      bind_text m.name
      ∷ bind_text m.street
      ∷ bind_text m.city
      ∷ bind_text m.zipcode
      ∷ bind_text m.country
      ∷ bind_text m.email
      ∷ boolean false
      ∷ bind_text m.phone
      ∷ ulong (number_or_zero m.fee)
      ∷ bind_text m.username
      ∷ bind_text m.pwhash
      ∷ boolean (bool_or_false m.fee_yearly)
      ∷ bind_text meta.request_source_ip
      ∷ bind_text meta.user_agent
      ∷ blob pb
      ∷ [];
}

-- `if req.Metadata.RequestTimestamp == nil { … }`.
abbrev pub stamp : ℕ → Option ℕ → Option ℕ
stamp now none = some now
stamp now (some t) = some t

abbrev pub stamp_request : ℕ → MembershipMetadata → MembershipMetadata
stamp_request now m = record m { request_timestamp = stamp now m.request_timestamp }

module _ (c : Session) where
  open c use {
    State, exec, parse_uuid, uuid_bytes, uuid_from_time, marshal, marshal_member, execute_batch,
  }

  -- `now` is the time of the call in seconds. A failed `Marshal` or `Exec` returns its own error.
  unfoldable pub store_membership_request : ℕ → Member → MembershipMetadata → Action State Text
  unfolding application_insert
  store_membership_request now m meta = do
    let stamped = stamp_request now meta
    let agreement : MembershipAgreement = record {
      agreement_pdf = [];
      member_data = some m;
      metadata = some stamped;
    }
    pb ← or_throw (marshal agreement) plain
    λ s.
        let (done, s') = exec (application_insert m stamped pb) s in
        (if done then ok (hex_encode (uuid_bytes (uuid_from_time now))) else err plain, s')

  unfoldable pub store_membership_agreement : Text → Bytes → Action State (Unit {0})
  store_membership_agreement id agreement_data = do
    uuid ← or_throw (parse_uuid id) plain
    agreement ← get_membership_request c id
    pb ← encode c (record agreement { agreement_pdf = agreement_data }) internal
    run_batch c (
        update application
          ((codes "pb_data", blob pb) ∷ (codes "application_pdf", blob agreement_data) ∷ [])
          (application_prefix ++ uuid_bytes uuid)
        ∷ [])

  unfoldable pub move_record_to_table :
      ℕ → Text → Text → Table → Bytes → Table → Bytes → Action State (Unit {0})
  unfolding move_batch
  move_record_to_table now id initiator src_table src_prefix dst_table dst_prefix = do
    stored ← fetch c quorum src_table (src_prefix ++ id)
    agreement ← decode c stored (status data_loss)
    throw_if (is_queue dst_table && is_empty agreement.agreement_pdf) (status internal)
    meta ← deref agreement.metadata
    pb ← encode c (with_metadata agreement (approve initiator now meta)) internal
    run_batch c (move_batch src_table (src_prefix ++ id) dst_table (dst_prefix ++ id) pb)

  unfoldable pub move_applicant_to_new_member : ℕ → Text → Text → Action State (Unit {0})
  unfolding move_record_to_table
  move_applicant_to_new_member now id initiator =
      move_record_to_table now id initiator application application_prefix membership_queue
        queue_prefix

  unfoldable pub move_applicant_to_trash : ℕ → Text → Text → Action State (Unit {0})
  unfolding move_record_to_table
  move_applicant_to_trash now id initiator =
      move_record_to_table now id initiator application application_prefix membership_archive
        archive_prefix

  unfoldable pub move_queued_record_to_trash : ℕ → Text → Text → Action State (Unit {0})
  unfolding move_record_to_table
  move_queued_record_to_trash now id initiator =
      move_record_to_table now id initiator membership_queue queue_prefix membership_archive
        archive_prefix

  -- The key of the new row is the UUID itself, with no prefix.
  unfoldable pub move_member_to_trash : ℕ → Text → Text → Text → Action State (Unit {0})
  unfolding move_batch
  move_member_to_trash now id initiator reason = do
    stored ← fetch c quorum members (member_key id)
    agreement ← decode c stored (status data_loss)
    meta ← deref agreement.metadata
    pb ← encode c (with_metadata agreement (say_goodbye initiator reason now meta)) internal
    run_batch c
        (move_batch members (member_key id) membership_dequeue (uuid_bytes (uuid_from_time now)) pb)

  unfoldable pub move_new_member_to_full_member : MemberWithKey → Action State (Unit {0})
  unfolding new_member_batch
  move_new_member_to_full_member m = do
    pb ← or_throw (marshal_member m.member) (status internal)
    run_batch c (new_member_batch m pb)

  unfoldable pub move_deleted_member_to_archive : MemberWithKey → Action State (Unit {0})
  unfolding move_batch
  move_deleted_member_to_archive m = do
    pb ← or_throw (marshal_member m.member) (status internal)
    rest ← λ s. (slice_from (length dequeue_prefix + 1) m.key, s)
    run_batch c (
        move_batch membership_dequeue (dequeue_prefix ++ m.key) membership_archive
          (archive_prefix ++ rest) pb)
