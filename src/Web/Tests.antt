-- ===== src/Web/Tests.antt =====
-- The theorems about the handlers at concrete requests, over the database in memory.
use membersys.Base.{
  ◌≡◌, ◌⊎◌, refl, Bool, true, false, Option, some, List, [], ◌∷◌, ◌++◌, Text, Bytes, codes, text_eq,
  if◌then◌else◌, All, pos,
}
use membersys.Membership.{Member, MembershipAgreement}
use membersys.Database.{MembershipDb, cassandra_db}
use membersys.Cassandra.Session.{application, membership_queue}
use membersys.Cassandra.Access.{application_prefix, queue_prefix, get_member_detail}
use membersys.Cassandra.Edit.{set_text_value, edit_text}
use membersys.Cassandra.Move.{move_applicant_to_new_member}
use membersys.Cassandra.Move.Moving.{Approved}
use membersys.Cassandra.Edit.Fields.{TextField, IsFree, column, put}
use membersys.Cassandra.Edit.Setters.{Replaced}
use membersys.Cassandra.Tests.Store.{test_laws}
use membersys.Cassandra.Tests.Sample.{email, admin, raw_uuid, session, one_applicant, one_member}
use membersys.Web.Handler.{Request, Site, file, weak_protection, is_outsider, answer}
use membersys.Web.Applicants.{accept_member, reject_member, upload_agreement, list_applicants}
use membersys.Web.Queues.{cancel_queued, list_queued, list_dequeued, list_trash}
use membersys.Web.Members.{say_goodbye_to_member, show_member, show_total, list_members}
use membersys.Web.Fields.{change_long_field, change_bool_field, change_text_field, change_fee}
use membersys.Web.Guards.{
  IsVerified, Verified, Overridden, accept_needs_insider, writes_need_token,
  forbidden_writes_go_through,
}
use membersys.Web.Edits.{
  Permitted, lacks_value, lacks_fee, TakesNumber, TakesFlag, TakesText, TakesFee,
  edits_need_insider,
}
use membersys.Web.Saved.{accepted_applicant_is_signed, changed_text_is_saved}
use membersys.Web.Private.{
  values, IsFit, IsGranted, Restricted, show_member-IsFit, show_total-IsGranted, lists_need_scope,
}

abbrev pub field_of : List (Text × Text) → Text → Text
field_of [] name = []
field_of ((n, v) ∷ rest) name = if text_eq n name then v else field_of rest name

abbrev fields : List (Text × Text)
fields =
    (codes "uuid", raw_uuid)
    ∷ (codes "id", email)
    ∷ (codes "email", email)
    ∷ (codes "field", codes "city")
    ∷ (codes "value", codes "Bern")
    ∷ (codes "fee", codes "30")
    ∷ (codes "fee_yearly", codes "true")
    ∷ (codes "start", codes "7")
    ∷ (codes "single", codes "true")
    ∷ []

abbrev pub request : Bool → List (Text × Text) → Request
request inside given = record {
  user = admin;
  in_scope = λ group. inside;
  verify_csrf = λ token. (true, some weak_protection);
  gen_csrf = λ url. some (codes "t");
  form = field_of given;
  post_form = field_of given;
  upload = file (codes "%PDF-1.5");
  delivers = true;
}

abbrev pub by_admin : Request
by_admin = request true fields

abbrev by_outsider : Request
by_outsider = request false fields

abbrev odd_period : Request
odd_period = request true ((codes "fee_yearly", codes "yes") ∷ fields)

abbrev pub site : Site
site = record { admingroup = codes "admins"; pagesize = pos 25 }

abbrev pub db : MembershipDb
db = cassandra_db session 5

verified :
    (given : List (Text × Text)) (inside : Bool) (token : Text)
    → IsVerified (request inside given) token
verified given inside token = record { logged_in = refl; accepted = refl; sound = refl }

accept_needs_insider_example :
    ((accept_member db site by_admin one_applicant).2 ≡ one_applicant)
    ⊎ IsVerified by_admin (by_admin.post_form (codes "csrf_token"))
      × (is_outsider site by_admin ≡ false)
      × ((accept_member db site by_admin one_applicant).2
          ≡ (db.move_applicant_to_new_member
              (by_admin.post_form (codes "uuid"))
              admin
              one_applicant).1)
accept_needs_insider_example = accept_needs_insider db site by_admin one_applicant

writes_need_token_example :
    Verified db site by_admin one_applicant
      (by_admin.post_form (codes "csrf_token"))
      (reject_member db site by_admin one_applicant).2
      (db.move_applicant_to_trash (by_admin.post_form (codes "uuid")) admin one_applicant).1
    × Verified db site by_admin one_applicant
        (by_admin.post_form (codes "csrf_token"))
        (cancel_queued db site by_admin one_applicant).2
        (db.move_queued_record_to_trash (by_admin.post_form (codes "uuid")) admin one_applicant).1
    × Verified db site by_admin one_applicant
        (by_admin.post_form (codes "csrf_token"))
        (say_goodbye_to_member db site by_admin one_applicant).2
        (db.move_member_to_trash
          (by_admin.post_form (codes "id"))
          admin
          (by_admin.post_form (codes "reason"))
          one_applicant).1
    × Verified db site by_admin one_applicant
        (by_admin.form (codes "csrf_token"))
        (upload_agreement db site by_admin one_applicant).2
        (db.store_membership_agreement
          (by_admin.form (codes "uuid"))
          (codes "%PDF-1.5")
          one_applicant).1
writes_need_token_example = writes_need_token db site by_admin one_applicant (codes "%PDF-1.5") refl

forbidden_writes_go_through_example :
    Overridden db site by_outsider one_applicant
      (reject_member db site by_outsider one_applicant)
      (db.move_applicant_to_trash (by_outsider.post_form (codes "uuid")) admin one_applicant).1
    × Overridden db site by_outsider one_applicant
        (cancel_queued db site by_outsider one_applicant)
        (db.move_queued_record_to_trash
          (by_outsider.post_form (codes "uuid"))
          admin
          one_applicant).1
    × Overridden db site by_outsider one_applicant
        (say_goodbye_to_member db site by_outsider one_applicant)
        (db.move_member_to_trash
          (by_outsider.post_form (codes "id"))
          admin
          (by_outsider.post_form (codes "reason"))
          one_applicant).1
    × Overridden db site by_outsider one_applicant
        (upload_agreement db site by_outsider one_applicant)
        (db.store_membership_agreement
          (by_outsider.form (codes "uuid"))
          (codes "%PDF-1.5")
          one_applicant).1
forbidden_writes_go_through_example =
    forbidden_writes_go_through db site by_outsider one_applicant (codes "%PDF-1.5") refl refl
      (verified fields false _) (verified fields false _)

edits_need_insider_example :
    Permitted db site by_admin one_member
      (lacks_value db site by_admin one_member)
      (TakesNumber db site by_admin one_member)
      (λ v.
        (db.set_long_value
          (by_admin.form (codes "email"))
          (by_admin.form (codes "field"))
          v
          one_member).1)
      (change_long_field db site by_admin one_member).2
    × Permitted db site by_admin one_member
        (lacks_value db site by_admin one_member)
        (TakesFlag db site by_admin one_member)
        (λ v.
          (db.set_bool_value
            (by_admin.form (codes "email"))
            (by_admin.form (codes "field"))
            v
            one_member).1)
        (change_bool_field db site by_admin one_member).2
    × Permitted db site by_admin one_member
        (lacks_value db site by_admin one_member)
        (TakesText db site by_admin one_member)
        (λ v.
          (db.set_text_value
            (by_admin.form (codes "email"))
            (by_admin.form (codes "field"))
            v
            one_member).1)
        (change_text_field db site by_admin one_member).2
    × Permitted db site by_admin one_member
        (lacks_fee db site by_admin one_member)
        (TakesFee db site by_admin one_member)
        (λ v. (db.set_member_fee (by_admin.form (codes "email")) v.0 v.1 one_member).1)
        (change_fee db site by_admin one_member).2
edits_need_insider_example = edits_need_insider db site by_admin one_member

accepted_applicant_is_signed_example :
    (is_outsider site by_admin ≡ false)
    × Approved session
        (test_laws [])
        5
        admin
        application
        (application_prefix ++ by_admin.post_form (codes "uuid"))
        membership_queue
        (queue_prefix ++ by_admin.post_form (codes "uuid"))
        one_applicant
        (accept_member db site by_admin one_applicant).2
unfolding accept_member move_applicant_to_new_member text_eq
accepted_applicant_is_signed_example =
    accepted_applicant_is_signed session (test_laws []) 5 site by_admin one_applicant refl

changed_text_is_saved_example :
    (f : TextField) × (old : Member) × (by_admin.form (codes "field") ≡ column f)
    × IsFree f old
    × Replaced session
        (test_laws [])
        (by_admin.form (codes "email"))
        old
        (put f (by_admin.form (codes "value")) old)
        one_member
        (change_text_field db site by_admin one_member).2
unfolding change_text_field set_text_value edit_text text_eq
changed_text_is_saved_example =
    changed_text_is_saved session (test_laws []) 5 site by_admin one_member refl

show_member-IsFit_example :
    All (IsFit db site by_admin one_member) (values (show_member db site by_admin one_member).0)
show_member-IsFit_example = show_member-IsFit db site by_admin one_member

show_total-IsGranted_example :
    All
      (IsGranted db site by_outsider one_member)
      (values (show_total db site by_outsider one_member).0)
show_total-IsGranted_example = show_total-IsGranted db site by_outsider one_member

abbrev uuid_text : Bytes → Option Text
uuid_text bytes = some (codes "uuid")

abbrev pub merge : MembershipAgreement → MembershipAgreement → MembershipAgreement
merge dst src = src

lists_need_scope_example :
    ((values (list_applicants uuid_text merge db site by_admin one_member).0 ≡ [])
      ⊎ (by_admin.in_scope site.admingroup ≡ true))
    × Restricted db site by_admin one_member (list_queued db site by_admin one_member)
    × Restricted db site by_admin one_member (list_dequeued db site by_admin one_member)
    × Restricted db site by_admin one_member (list_trash db site by_admin one_member)
    × Restricted db site by_admin one_member (list_members db site by_admin one_member)
lists_need_scope_example = lists_need_scope db site by_admin one_member uuid_text merge

-- A member's record is read by the member's address, and shown without the hash and the scan.
detail_answers : answer (show_member db site by_admin one_member) ≡ some 200
unfolding show_member get_member_detail text_eq
detail_answers = refl
