-- ===== src/Cassandra/Writes.antt =====
-- The calls of MembershipDB that change a Cassandra database, as data, and runs of them.
pub mod Signed
pub mod Usernames
use membersys.Base.{
  ℕ, Bool, List, [], ◌∷◌, Text, Bytes, Action, Result, ok, err, panic, ◌>>=◌, pure, All,
}
use membersys.Membership.{Member, MembershipMetadata, MemberWithKey}
use membersys.Cassandra.Session.{Session}
use membersys.Cassandra.Edit.{set_member_fee, set_long_value, set_bool_value, set_text_value}
use membersys.Cassandra.Move.{
  store_membership_request, store_membership_agreement, move_applicant_to_new_member,
  move_applicant_to_trash, move_queued_record_to_trash, move_member_to_trash,
  move_new_member_to_full_member, move_deleted_member_to_archive,
}

-- A call with its arguments; a number in front is the time of the call, where the code reads the
-- clock.
pub data Write : Type 0 where
  member_fee : Text → ℕ → Bool → Write
  long_value : Text → Text → ℕ → Write
  bool_value : Text → Text → Bool → Write
  text_value : Text → Text → Text → Write
  request : ℕ → Member → MembershipMetadata → Write
  agreement : Text → Bytes → Write
  applicant_to_new_member applicant_to_trash queued_record_to_trash : ℕ → Text → Text → Write
  member_to_trash : ℕ → Text → Text → Text → Write
  new_member_to_full_member deleted_member_to_archive : MemberWithKey → Write

module _ (c : Session) where
  abbrev pub forget : {A : Type 0} → Action c.State A → Action c.State (Unit {0})
  forget m = m >>= λ _. pure tt

  unfoldable pub run_write : Write → Action c.State (Unit {0})
  run_write (member_fee id fee yearly) = set_member_fee c id fee yearly
  run_write (long_value id field value) = set_long_value c id field value
  run_write (bool_value id field value) = set_bool_value c id field value
  run_write (text_value id field value) = set_text_value c id field value
  run_write (request now m meta) = forget (store_membership_request c now m meta)
  run_write (agreement id pdf) = store_membership_agreement c id pdf
  run_write (applicant_to_new_member now id who) = move_applicant_to_new_member c now id who
  run_write (applicant_to_trash now id who) = move_applicant_to_trash c now id who
  run_write (queued_record_to_trash now id who) = move_queued_record_to_trash c now id who
  run_write (member_to_trash now id who reason) = move_member_to_trash c now id who reason
  run_write (new_member_to_full_member m) = move_new_member_to_full_member c m
  run_write (deleted_member_to_archive m) = move_deleted_member_to_archive c m

  -- The state after a sequence of calls, whatever each of them returned.
  pub after_writes : List Write → c.State → c.State
  unfolding run_write
  after_writes [] s = s
  after_writes (w ∷ ws) s = after_writes ws (run_write w s).1
