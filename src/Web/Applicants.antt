-- ===== src/Web/Applicants.antt =====
-- The handlers of membersys/applicantlist.go.
use membersys.Base.{
  ℕ, ◌&&◌, not, Option, List, [], ◌∷◌, Text, Bytes, codes, text_eq, is_empty, if◌then◌else◌,
}
use membersys.Membership.{MembershipAgreement, MembershipAgreementWithKey, empty_agreement}
use membersys.Database.{MembershipDb}
use membersys.Web.Numbers.{parse_big, has_128_bits, be_bytes}
use membersys.Web.Handler.{
  Request, Site, Upload, no_file, unreadable, file, Handler, ◌>>=◌, ◌>>◌, emit, stop_if, emit_if,
  or_refuse, attempt, listed, refuse, encode_json, check_csrf, is_outsider, write_header,
  content_type, empty_object, go, Flow,
}

-- The applicantListType, with the tokens of uploads, approvals and rejections.
pub record ApplicantPage : Type 0 where
  pub applicants : List MembershipAgreementWithKey
  pub approval_csrf_token : Text
  pub rejection_csrf_token : Text
  pub agreement_upload_csrf_token : Text

abbrev pub approval_url : Text
approval_url = codes "/admin/api/accept"

abbrev pub rejection_url : Text
rejection_url = codes "/admin/api/reject"

abbrev pub agreement_upload_url : Text
agreement_upload_url = codes "/admin/api/agreement-upload"

-- What remains of a file that was read.
abbrev pub uploaded : {S O : Type 0} → Upload → Handler S O Bytes
uploaded no_file s = (refuse 400, Flow.returned, s)
uploaded unreadable s = (refuse 500, Flow.returned, s)
uploaded (file bytes) s = ([], go bytes, s)

-- gocql.UUIDFromBytes followed by String, none where the bytes are no UUID, and proto.Merge.
module _ (uuid_text : Bytes → Option Text)
    (merge : MembershipAgreement → MembershipAgreement → MembershipAgreement) (db : MembershipDb)
    (site : Site) (req : Request) where
  -- A start that is a number of another length leaves the list empty.
  abbrev pub single_applicant : ℕ → Handler db.State ApplicantPage (List MembershipAgreementWithKey)
  single_applicant n =
      if has_128_bits n
      then (do
        key ← or_refuse (uuid_text (be_bytes 16 n)) 400
        agreement ← attempt (db.get_membership_request key) 500
        λ s. ([], go (record { key = key; agreement = merge empty_agreement agreement } ∷ []), s))
      else (λ s. ([], go [], s))

  abbrev pub applicants_shown : Handler db.State ApplicantPage (List MembershipAgreementWithKey)
  applicants_shown =
      let start = req.form (codes "start") in
      if text_eq (req.form (codes "single")) (codes "true") && not (is_empty start)
      then or_refuse (parse_big start) 500 >>= single_applicant
      else listed
          (db.enumerate_membership_requests (req.form (codes "criterion")) start site.pagesize)

  unfoldable pub list_applicants : Handler db.State ApplicantPage (Unit {0})
  list_applicants = do
    stop_if (not (req.in_scope site.admingroup)) (write_header 401 ∷ [])
    applicants ← applicants_shown
    upload_token ← or_refuse (req.gen_csrf agreement_upload_url) 500
    approval_token ← or_refuse (req.gen_csrf approval_url) 500
    rejection_token ← or_refuse (req.gen_csrf rejection_url) 500
    encode_json req (record {
      applicants = applicants;
      approval_csrf_token = approval_token;
      rejection_csrf_token = rejection_token;
      agreement_upload_csrf_token = upload_token;
    })

module _ (db : MembershipDb) (site : Site) (req : Request) where
  unfoldable pub accept_member : Handler db.State (Unit {0}) (Unit {0})
  accept_member = do
    stop_if (is_empty req.user) (write_header 401 ∷ [])
    stop_if (is_outsider site req) (refuse 403)
    check_csrf req (req.post_form (codes "csrf_token"))
    attempt (db.move_applicant_to_new_member (req.post_form (codes "uuid")) req.user) 411
    emit (write_header 200 ∷ empty_object ∷ [])

  -- The answer 403 does not end the handler.
  unfoldable pub reject_member : Handler db.State (Unit {0}) (Unit {0})
  reject_member = do
    stop_if (is_empty req.user) (write_header 401 ∷ [])
    emit_if (is_outsider site req) (write_header 403 ∷ [])
    check_csrf req (req.post_form (codes "csrf_token"))
    attempt (db.move_applicant_to_trash (req.post_form (codes "uuid")) req.user) 411
    emit (write_header 200 ∷ empty_object ∷ [])

  unfoldable pub upload_agreement : Handler db.State (Unit {0}) (Unit {0})
  upload_agreement = do
    stop_if (is_empty req.user) (write_header 401 ∷ [])
    emit_if (is_outsider site req) (write_header 403 ∷ [])
    check_csrf req (req.form (codes "csrf_token"))
    agreement_data ← uploaded req.upload
    attempt (db.store_membership_agreement (req.form (codes "uuid")) agreement_data) 500
    emit (content_type ∷ write_header 200 ∷ empty_object ∷ [])
