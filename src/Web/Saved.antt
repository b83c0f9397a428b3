-- ===== src/Web/Saved.antt =====
-- The handlers over db/cassandra.go: what the answer 200 says of the rows of the database.
use membersys.Base.{ℕ, ◌≡◌, refl, Bool, false, some, ◌++◌, codes, arith, ok, ◌<◌, ◌^◌}
use membersys.Membership.{Member}
use membersys.Cassandra.Session.{Session, application, membership_queue}
use membersys.Cassandra.Access.{application_prefix, queue_prefix}
use membersys.Cassandra.Move.{move_applicant_to_new_member}
use membersys.Cassandra.Move.Moving.{Approved, move_record_to_table-ok}
use membersys.Cassandra.Edit.Fields.{TextField, IsFree, column, put}
use membersys.Cassandra.Edit.Setters.{Replaced, set_member_fee_saves, set_text_value_saves}
use membersys.Cassandra.Laws.{Laws}
use membersys.Database.{MembershipDb, cassandra_db}
use membersys.Web.Handler.{Request, Site, is_outsider, answer}
use membersys.Web.Applicants.{accept_member}
use membersys.Web.Fields.{change_text_field, change_fee}
use membersys.Web.Reports.{text_field_reports, fee_reports}
use membersys.Web.Numbers.{parse_uint-lt}

module _ (db : MembershipDb) (site : Site) (req : Request) (s : db.State) where
  accept_reports :
      answer (accept_member db site req s) ≡ some 200
      → (is_outsider site req ≡ false)
        × (db.move_applicant_to_new_member (req.post_form (codes "uuid")) req.user s
            ≡ (ok tt, (accept_member db site req s).2))
  unfolding accept_member
  accept_reports h = (ground arith, ground arith)

module _ (c : Session) (l : Laws c) (now : ℕ) (site : Site) (req : Request) (s : c.State) where
  -- The answer 200 to an acceptance means that the user is no outsider (nobody is one where there is no
  -- group of administrators) and that the record of the form's id has moved from the applications to the
  -- queue, carries a scan of the signed agreement and names that user and the time as its approval; no
  -- other row has changed.
  pub accepted_applicant_is_signed :
      answer (accept_member (cassandra_db c now) site req s) ≡ some 200
      → (is_outsider site req ≡ false)
        × Approved c l now req.user application
            (application_prefix ++ req.post_form (codes "uuid"))
            membership_queue
            (queue_prefix ++ req.post_form (codes "uuid"))
            s
            (accept_member (cassandra_db c now) site req s).2
  unfolding move_applicant_to_new_member
  accepted_applicant_is_signed h =
      let (inside, done) = accept_reports (cassandra_db c now) site req s h in
      (
        inside,
        move_record_to_table-ok c l now (req.post_form (codes "uuid")) req.user application
            application_prefix membership_queue queue_prefix s refl done,
      )

  -- The answer 200 to a change of a text field means that the field is one of the seven, no user name
  -- that was set before, and holds the form's value now in both rows of the member; nothing else of
  -- the member and no other row has changed.
  pub changed_text_is_saved :
      answer (change_text_field (cassandra_db c now) site req s) ≡ some 200
      → (f : TextField) × (old : Member) × (req.form (codes "field") ≡ column f)
        × IsFree f old
        × Replaced c l
            (req.form (codes "email"))
            old
            (put f (req.form (codes "value")) old)
            s
            (change_text_field (cassandra_db c now) site req s).2
  changed_text_is_saved h =
      set_text_value_saves c l (req.form (codes "email")) (req.form (codes "field"))
        (req.form (codes "value")) s (text_field_reports (cassandra_db c now) site req s h)

  -- The answer 200 to a change of the fee means that the form's fee and period are saved in both rows
  -- of the member, the fee below 2^64; nothing else of the member and no other row has changed.
  pub changed_fee_is_saved :
      answer (change_fee (cassandra_db c now) site req s) ≡ some 200
      → (fee : ℕ) × (yearly : Bool) × (old : Member) × (fee < 2 ^ 64)
        × Replaced c l
            (req.form (codes "email"))
            old
            (record old { fee = some fee; fee_yearly = some yearly })
            s
            (change_fee (cassandra_db c now) site req s).2
  changed_fee_is_saved h =
      let (fee, yearly, number, flag, done) = fee_reports (cassandra_db c now) site req s h in
      let (old, saved) = set_member_fee_saves c l (req.form (codes "email")) fee yearly s done in
      (fee, yearly, old, parse_uint-lt (req.form (codes "fee")) fee number, saved)
