-- ===== src/Database.antt =====
-- The interface MembershipDB of db.go, which the web handlers take, and its implementation by
-- db/cassandra.go. What a call reads of the clock is the parameter `now` of the implementation.
use membersys.Base.{ℕ, Bool, Text, Bytes, ℤ, List, Action}
use membersys.Membership.{
  Member, MembershipMetadata, MembershipAgreement, MemberWithKey, MembershipAgreementWithKey,
}
use membersys.Cassandra.Session.{Session}
use membersys.Cassandra.Access.{
  get_member_detail_by_username, get_member_detail, get_membership_request,
}
use membersys.Cassandra.Edit.{set_member_fee, set_long_value, set_bool_value, set_text_value}
use membersys.Cassandra.Move.{
  store_membership_request, store_membership_agreement, move_applicant_to_new_member,
  move_applicant_to_trash, move_queued_record_to_trash, move_member_to_trash,
  move_new_member_to_full_member, move_deleted_member_to_archive,
}
use membersys.Cassandra.Enumerate.{
  Listing, Event, enumerate_members, enumerate_membership_requests, enumerate_queued_members,
  enumerate_de_queued_members, enumerate_trashed_members, streaming_enumerate_members,
  streaming_enumerate_membership_requests, streaming_enumerate_queued_members,
  streaming_enumerate_de_queued_members, streaming_enumerate_trashed_members,
}

pub record MembershipDb : Type 1 where
  pub State : Type 0
  -- Of the FormInputData that StoreMembershipRequest takes it reads the member and the metadata.
  pub store_membership_request : Member → MembershipMetadata → Action State Text
  pub get_member_detail_by_username : Text → Action State MembershipAgreement
  pub get_member_detail : Text → Action State MembershipAgreement
  pub set_member_fee : Text → ℕ → Bool → Action State (Unit {0})
  pub set_long_value : Text → Text → ℕ → Action State (Unit {0})
  pub set_bool_value : Text → Text → Bool → Action State (Unit {0})
  pub set_text_value : Text → Text → Text → Action State (Unit {0})
  pub get_membership_request : Text → Action State MembershipAgreement
  pub streaming_enumerate_members : Text → ℤ → State → List (Event Member)
  pub enumerate_members : Text → ℤ → State → Listing Member
  pub streaming_enumerate_membership_requests :
      Text → Text → ℤ → State → List (Event MembershipAgreementWithKey)
  pub enumerate_membership_requests : Text → Text → ℤ → State → Listing MembershipAgreementWithKey
  pub streaming_enumerate_queued_members : Text → ℤ → State → List (Event MemberWithKey)
  pub enumerate_queued_members : Text → ℤ → State → Listing MemberWithKey
  pub streaming_enumerate_de_queued_members : Text → ℤ → State → List (Event MemberWithKey)
  pub enumerate_de_queued_members : Text → ℤ → State → Listing MemberWithKey
  pub streaming_enumerate_trashed_members : Text → ℤ → State → List (Event MemberWithKey)
  pub enumerate_trashed_members : Text → ℤ → State → Listing MemberWithKey
  pub move_member_to_trash : Text → Text → Text → Action State (Unit {0})
  pub move_new_member_to_full_member : MemberWithKey → Action State (Unit {0})
  pub move_deleted_member_to_archive : MemberWithKey → Action State (Unit {0})
  pub move_applicant_to_new_member : Text → Text → Action State (Unit {0})
  pub move_applicant_to_trash : Text → Text → Action State (Unit {0})
  pub move_queued_record_to_trash : Text → Text → Action State (Unit {0})
  pub store_membership_agreement : Text → Bytes → Action State (Unit {0})

-- CassandraDB at the time `now`.
abbrev pub cassandra_db : Session → ℕ → MembershipDb
cassandra_db c now = record {
  State = c.State;
  store_membership_request = store_membership_request c now;
  get_member_detail_by_username = get_member_detail_by_username c;
  get_member_detail = get_member_detail c;
  set_member_fee = set_member_fee c;
  set_long_value = set_long_value c;
  set_bool_value = set_bool_value c;
  set_text_value = set_text_value c;
  get_membership_request = get_membership_request c;
  streaming_enumerate_members = streaming_enumerate_members c;
  enumerate_members = enumerate_members c;
  streaming_enumerate_membership_requests = streaming_enumerate_membership_requests c;
  enumerate_membership_requests = enumerate_membership_requests c;
  streaming_enumerate_queued_members = streaming_enumerate_queued_members c;
  enumerate_queued_members = enumerate_queued_members c;
  streaming_enumerate_de_queued_members = streaming_enumerate_de_queued_members c;
  enumerate_de_queued_members = enumerate_de_queued_members c;
  streaming_enumerate_trashed_members = streaming_enumerate_trashed_members c;
  enumerate_trashed_members = enumerate_trashed_members c;
  move_member_to_trash = move_member_to_trash c now;
  move_new_member_to_full_member = move_new_member_to_full_member c;
  move_deleted_member_to_archive = move_deleted_member_to_archive c;
  move_applicant_to_new_member = move_applicant_to_new_member c now;
  move_applicant_to_trash = move_applicant_to_trash c now;
  move_queued_record_to_trash = move_queued_record_to_trash c now;
  store_membership_agreement = store_membership_agreement c;
}
