-- ===== src/Web/Takeout.antt =====
-- The handlers of membersys/takeout.go, by which a member gets the own data: as a page, as the scan of
-- the signed agreement, and as a vCard.
use membersys.Base.{true, false, Option, List, [], ◌∷◌, Text, Bytes, is_empty, ok, err, panic}
use membersys.Membership.{Member, MembershipAgreement}
use membersys.Database.{MembershipDb}
use membersys.Web.Handler.{
  Request, Part, Handler, ◌>>=◌, ◌>>◌, emit, stop_if, write_header, content_type, refuse, encoded,
  go, returned, panicked,
}

-- The login of RequestAuthorization, the template memberdetail.html, the scan, and the
-- template of a vCard with the user whom its file is named after.
pub data Takeout : Type 0 where
  login : Takeout
  detail : Option Member → Takeout
  scan : Bytes → Takeout
  vcard : Text → Option Member → Takeout

-- The answer with the scan, or 404 where there is none.
unfoldable pub scan_parts : Bytes → List (Part Takeout)
scan_parts pdf = elim (is_empty pdf) [
  | true ↦ content_type ∷ refuse 404
  | false ↦ content_type ∷ write_header 200 ∷ encoded (scan pdf) ∷ []
]

module _ (db : MembershipDb) (req : Request) where
  -- GetMemberDetailByUsername of the user who is logged in, and the answer to its error.
  abbrev pub own_agreement : Handler db.State Takeout MembershipAgreement
  own_agreement s =
      let (r, s') = db.get_member_detail_by_username req.user s in
      elim r [
        | ok a ↦ ([], go a, s')
        | err e ↦ (content_type ∷ refuse 500, returned, s')
        | panic ↦ ([], panicked, s')
      ]

  unfoldable pub show_takeout : Handler db.State Takeout (Unit {0})
  show_takeout = do
    stop_if (is_empty req.user) (encoded login ∷ [])
    agreement ← own_agreement
    emit (encoded (detail agreement.member_data) ∷ [])

  unfoldable pub download_pdf : Handler db.State Takeout (Unit {0})
  download_pdf = do
    stop_if (is_empty req.user) (encoded login ∷ [])
    agreement ← own_agreement
    emit (scan_parts agreement.agreement_pdf)

  unfoldable pub download_vcf : Handler db.State Takeout (Unit {0})
  download_vcf = do
    stop_if (is_empty req.user) (encoded login ∷ [])
    agreement ← own_agreement
    emit (content_type ∷ write_header 200 ∷ encoded (vcard req.user agreement.member_data) ∷ [])
