-- ===== src/Postgres/Moves.antt =====
-- The methods of db/pgsql.go that change the status of a record.
use membersys.Base.{[], ◌∷◌, Text, codes, Action}
use membersys.Membership.{MemberWithKey}
use membersys.Postgres.Sql.{Sql, text, now}
use membersys.Postgres.Edits.{update}

module _ (p : Sql) where
  open p use {State}

  unfoldable pub update_member_status : MemberWithKey → Text → Action State (Unit {0})
  update_member_status member status =
      update p ((codes "membership_status", text status) ∷ []) member.key

  unfoldable pub update_member_status_with_initiator : Text → Text → Text → Action State (Unit {0})
  update_member_status_with_initiator id initiator status =
      update p
        ((codes "membership_status", text status)
          ∷ (codes "approver_uid", text initiator)
          ∷ (codes "approval_timestamp", now)
          ∷ [])
        id

  unfoldable pub move_member_to_trash : Text → Text → Text → Action State (Unit {0})
  move_member_to_trash id initiator reason =
      update p
        ((codes "membership_status", text (codes "IN_DELETION"))
          ∷ (codes "goodbye_initiator", text initiator)
          ∷ (codes "goodbye_reason", text reason)
          ∷ (codes "goodbye_timestamp", now)
          ∷ [])
        id

  unfoldable pub move_new_member_to_full_member : MemberWithKey → Action State (Unit {0})
  move_new_member_to_full_member member = update_member_status member (codes "ACTIVE")

  unfoldable pub move_deleted_member_to_archive : MemberWithKey → Action State (Unit {0})
  move_deleted_member_to_archive member = update_member_status member (codes "ARCHIVED")

  unfoldable pub move_applicant_to_new_member : Text → Text → Action State (Unit {0})
  move_applicant_to_new_member id initiator =
      update_member_status_with_initiator id initiator (codes "IN_CREATION")

  unfoldable pub move_applicant_to_trash : Text → Text → Action State (Unit {0})
  move_applicant_to_trash id initiator =
      update_member_status_with_initiator id initiator (codes "ARCHIVED")

  unfoldable pub move_queued_record_to_trash : Text → Text → Action State (Unit {0})
  move_queued_record_to_trash id initiator =
      update_member_status_with_initiator id initiator (codes "ARCHIVED")
