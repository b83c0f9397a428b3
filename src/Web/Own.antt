-- ===== src/Web/Own.antt =====
-- What the handlers of membersys/takeout.go show, and to whom.
use membersys.Base.{
  ◌≡◌, ◌∙◌, refl, ◌⊎◌, inl, inr, true, false, Bool-cases, List, [], ◌∷◌, is_empty, ok, arith,
  Result-cases, if◌then◌else◌,
}
use membersys.Membership.{MembershipAgreement}
use membersys.Database.{MembershipDb}
use membersys.Web.Handler.{
  Request, Part, Flow, Handler, ◌>>=◌, ◌>>◌, stop_if, emit, encoded, content_type, write_header,
}
use membersys.Web.Takeout.{
  Takeout, login, detail, scan, vcard, scan_parts, own_agreement, show_takeout, download_pdf,
  download_vcf,
}
use membersys.Web.Private.{values}

-- The scan of a record, if it has one.
abbrev pub scans : MembershipAgreement → List Takeout
scans a = if is_empty a.agreement_pdf then [] else scan a.agreement_pdf ∷ []

module _ (db : MembershipDb) (req : Request) (s : db.State) where
  -- The login for nobody; otherwise nothing, or what `shown` takes from the record that the database
  -- has under the user's own name.
  abbrev pub IsOwn : (MembershipAgreement → List Takeout) → List Takeout → Type 0
  IsOwn shown out =
      ((is_empty req.user ≡ true) × (out ≡ login ∷ []))
      ⊎ ((is_empty req.user ≡ false)
          × ((out ≡ [])
              ⊎ ((a : MembershipAgreement) × ((db.get_member_detail_by_username req.user s).0
                    ≡ ok a)
                  × (out ≡ shown a))))

  -- The state after a handler: that after its one read.
  abbrev pub Reads : List (Part Takeout) × Flow (Unit {0}) × db.State → Type 0
  Reads (_, _, s') =
      s' ≡ (if is_empty req.user then s else (db.get_member_detail_by_username req.user s).1)

  abbrev pub Takes :
      (MembershipAgreement → List Takeout)
      → List (Part Takeout) × Flow (Unit {0}) × db.State
      → Type 0
  Takes shown result = IsOwn shown (values result.0) × Reads result

  -- A handler that answers to nobody with the login, and to a user with what `parts` makes of the record.
  abbrev serve : (MembershipAgreement → List (Part Takeout)) → Handler db.State Takeout (Unit {0})
  serve parts =
      stop_if (is_empty req.user) (encoded login ∷ [])
      >> (own_agreement db req >>= λ a. emit (parts a))

  shown_parts :
      (parts : MembershipAgreement → List (Part Takeout)) (a : MembershipAgreement)
      → is_empty req.user ≡ false
      → (db.get_member_detail_by_username req.user s).0 ≡ ok a
      → values (serve parts s).0 ≡ values (parts a)
  shown_parts parts a e got = ground arith

  serve-Takes :
      (shown : MembershipAgreement → List Takeout)
      (parts : MembershipAgreement → List (Part Takeout))
      → ((a : MembershipAgreement) → values (parts a) ≡ shown a)
      → Takes shown (serve parts s)
  serve-Takes shown parts agree = elim (Bool-cases (is_empty req.user)) [
    | inl e ↦ (inl (e, ground arith), ground arith)
    | inr e ↦ elim (Result-cases (db.get_member_detail_by_username req.user s).0) [
      | inl (a, got) ↦ (inr (e, inr (a, got, shown_parts parts a e got ∙ agree a)), ground arith)
      | inr (inl (x, got)) ↦ (inr (e, inl (ground arith)), ground arith)
      | inr (inr got) ↦ (inr (e, inl (ground arith)), ground arith)
    ]
  ]

  scan_parts-scans : (a : MembershipAgreement) → values (scan_parts a.agreement_pdf) ≡ scans a
  unfolding scan_parts
  scan_parts-scans a = elim (Bool-cases (is_empty a.agreement_pdf)) [
    | inl f ↦ ground arith
    | inr f ↦ ground arith
  ]

  -- The three takeout handlers show the login to somebody who is not logged in. To a user they show
  -- nothing, or only what they take from the record that the database returns for the name
  -- of that user: the member's data on a page, the scan if there is one, the member's data in
  -- a vCard. That read is their only call of the database.
  pub takeout-IsOwn :
      Takes (λ a. detail a.member_data ∷ []) (show_takeout db req s)
      × Takes scans (download_pdf db req s)
      × Takes (λ a. vcard req.user a.member_data ∷ []) (download_vcf db req s)
  unfolding show_takeout download_pdf download_vcf
  takeout-IsOwn = (
    serve-Takes (λ a. detail a.member_data ∷ []) (λ a. encoded (detail a.member_data) ∷ [])
        (λ a. refl),
    serve-Takes scans (λ a. scan_parts a.agreement_pdf) scan_parts-scans,
    serve-Takes (λ a. vcard req.user a.member_data ∷ [])
        (λ a. content_type ∷ write_header 200 ∷ encoded (vcard req.user a.member_data) ∷ [])
        (λ a. refl),
  )
