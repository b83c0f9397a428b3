-- ===== src/Web/Members.antt =====
-- The handlers of membersys/memberlist.go that list members, show one, and end a membership.
use membersys.Base.{
  ◌&&◌, not, Option, none, some, List, [], ◌∷◌, Text, codes, text_eq, is_empty, if◌then◌else◌, ℤ,
  Action, Result, ok, err, panic,
}
use membersys.Membership.{
  Member, MembershipAgreement, MemberWithKey, MembershipAgreementWithKey, text_or_empty,
}
use membersys.Database.{MembershipDb}
use membersys.Web.Handler.{
  Request, Site, Handler, ◌>>=◌, ◌>>◌, emit, stop_if, emit_if, or_refuse, attempt, listed,
  encode_json, check_csrf, is_outsider, write_header, empty_object, content_type, refuse, encoded,
  go, returned, panicked,
}
use membersys.Web.Applicants.{approval_url, rejection_url, agreement_upload_url}
use membersys.Web.Queues.{queue_cancel_url}

-- The memberListType.
pub record MemberPage : Type 0 where
  pub members : List Member
  pub csrf_token : Text

-- The TotalRecordList.
pub record TotalRecordList : Type 0 where
  pub applicants : List MembershipAgreementWithKey
  pub members : List Member
  pub queue : List MemberWithKey
  pub dequeue : List MemberWithKey
  pub trash : List MemberWithKey
  pub approval_csrf_token : Text
  pub rejection_csrf_token : Text
  pub upload_csrf_token : Text
  pub cancel_csrf_token : Text
  pub goodbye_csrf_token : Text
  pub page_size : ℤ

-- What TotalListHandler hands to a template, or the login of RequestAuthorization.
pub data TotalPage : Type 0 where
  login : TotalPage
  own_detail : Option Member → TotalPage
  everything : TotalRecordList → TotalPage

abbrev pub goodbye_url : Text
goodbye_url = codes "/admin/api/goodbye-member"

-- `GetUsername()` on a *Member that may be nil.
abbrev pub username_of : Option Member → Text
username_of none = []
username_of (some m) = text_or_empty m.username

-- `member.AgreementPdf = make([]byte, 0); member.MemberData.Pwhash = nil`: the second panics on
-- a nil MemberData.
abbrev pub redact : MembershipAgreement → Option Member → Result MembershipAgreement
redact a none = panic
redact a (some m) =
    ok (record a { agreement_pdf = []; member_data = some (record m { pwhash = none }) })

-- A result that cannot be an error.
abbrev pub run : {S O A : Type 0} → Result A → Handler S O A
run (ok a) s = ([], go a, s)
run (err e) s = ([], returned, s)
run panic s = ([], panicked, s)

module _ (db : MembershipDb) (site : Site) (req : Request) where
  -- The member's own page. A failed read is only logged: the response stays empty.
  abbrev pub own_page : Action db.State MembershipAgreement → Handler db.State TotalPage (Unit {0})
  own_page read s =
      let (r, s') = read s in
      elim r [
        | ok a ↦ (encoded (own_detail a.member_data) ∷ [], returned, s')
        | err e ↦ ([], returned, s')
        | panic ↦ ([], panicked, s')
      ]

  abbrev pub token_for : Text → Text
  token_for url = text_or_empty (req.gen_csrf url)

  -- The errors of the lists and of the tokens are only logged.
  abbrev pub all_records : db.State → TotalRecordList
  all_records s = record {
    applicants =
        (db.enumerate_membership_requests (req.form (codes "applicant_criterion"))
          (req.form (codes "applicant_start")) site.pagesize s).items;
    members = (db.enumerate_members (req.form (codes "member_start")) site.pagesize s).items;
    queue = (db.enumerate_queued_members (req.form (codes "queued_start")) site.pagesize s).items;
    dequeue =
        (db.enumerate_de_queued_members (req.form (codes "queued_start")) site.pagesize s).items;
    trash = (db.enumerate_trashed_members (req.form (codes "trashed_start")) site.pagesize s).items;
    approval_csrf_token = token_for approval_url;
    rejection_csrf_token = token_for rejection_url;
    upload_csrf_token = token_for agreement_upload_url;
    cancel_csrf_token = token_for queue_cancel_url;
    goodbye_csrf_token = token_for goodbye_url;
    page_size = site.pagesize;
  }

  unfoldable pub show_total : Handler db.State TotalPage (Unit {0})
  show_total = do
    stop_if (is_empty req.user) (encoded login ∷ [])
    if is_outsider site req
        then own_page (db.get_member_detail_by_username req.user)
        else (λ s. (encoded (everything (all_records s)) ∷ [], go tt, s))

  unfoldable pub list_members : Handler db.State MemberPage (Unit {0})
  list_members = do
    stop_if (not (req.in_scope site.admingroup)) (write_header 401 ∷ [])
    members ← listed (db.enumerate_members (req.form (codes "start")) site.pagesize)
    token ← or_refuse (req.gen_csrf goodbye_url) 500
    encode_json req (record { members = members; csrf_token = token })

  -- The answer 403 does not end the handler.
  unfoldable pub say_goodbye_to_member : Handler db.State (Unit {0}) (Unit {0})
  say_goodbye_to_member = do
    stop_if (is_empty req.user) (write_header 401 ∷ [])
    emit_if (is_outsider site req) (write_header 403 ∷ [])
    check_csrf req (req.post_form (codes "csrf_token"))
    attempt
        (db.move_member_to_trash (req.post_form (codes "id")) req.user
          (req.post_form (codes "reason")))
        411
    emit (content_type ∷ write_header 200 ∷ empty_object ∷ [])

  unfoldable pub show_member : Handler db.State MembershipAgreement (Unit {0})
  show_member = do
    stop_if (is_empty req.user) (write_header 401 ∷ [])
    stop_if (is_empty (req.form (codes "email"))) (refuse 411)
    member ← attempt (db.get_member_detail (req.form (codes "email"))) 500
    stop_if (not (text_eq (username_of member.member_data) req.user) && is_outsider site req)
        (refuse 403)
    shown ← run (redact member member.member_data)
    encode_json req shown
