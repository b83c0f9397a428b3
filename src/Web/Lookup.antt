-- ===== src/Web/Lookup.antt =====
-- From the barcode of an application, which membersys/barcode.go draws, back to the application,
-- which membersys/applicantlist.go looks up by the number in it.
use membersys.Base.{
  ℕ, ◌≡◌, ◌∙◌, refl, ap, Bool, true, false, Bool-cases, Option, some, Option-cases, List, [], ◌∷◌,
  Text, Bytes, codes, text_eq, is_empty, if◌then◌else◌, leb, inl, inr, length, All, ok, arith,
}
use membersys.Membership.{MembershipAgreement, MembershipAgreementWithKey, empty_agreement}
use membersys.Database.{MembershipDb}
use membersys.Web.Handler.{Request, Site}
use membersys.Web.Numbers.{parse_big, has_128_bits, be_bytes}
use membersys.Web.Applicants.{
  ApplicantPage, list_applicants, approval_url, rejection_url, agreement_upload_url,
}
use membersys.Web.Barcode.{Barcodes, Picture, be_value, uuid_number, make_barcode}
use membersys.Web.Private.{values}
use membersys.Web.Scanned.{IsByte, uuid_number-reads_back}

-- A reader of barcodes, which reads the text that was encoded off the scaled picture.
pub record Reader (c : Barcodes) : Type 0 where
  pub read : c.Image → Text
  pub reads :
      (t : Text) (code scaled : c.Image)
      → c.encode t ≡ some code
      → c.scale code ≡ some scaled
      → read scaled ≡ t

module _ {S : Type 0} (c : Barcodes) (r : Reader c) (req : Request) (s : S) where
  -- What is read off a picture that MakeBarcode sends is the number of the UUID that it was asked for.
  make_barcode-reads :
      (p : Picture c.Image) (uuid : c.Uuid)
      → values (make_barcode c req s).0 ≡ p ∷ []
      → c.parse_uuid (req.form (codes "id")) ≡ some uuid
      → r.read p.image ≡ uuid_number (c.uuid_bytes uuid)
  unfolding make_barcode
  make_barcode-reads p uuid shown asked = elim (Bool-cases (is_empty (req.form (codes "id")))) [
    | inl n ↦ absurd (ground arith)
    | inr n ↦ elim (Option-cases (c.encode (uuid_number (c.uuid_bytes uuid)))) [
      | inl e ↦ absurd (ground arith)
      | inr (code, e) ↦ elim (Option-cases (c.scale code)) [
        | inl f ↦ absurd (ground arith)
        | inr (scaled, f) ↦
            let same : p.image ≡ scaled = elim (Bool-cases req.delivers) [
              | inl d ↦ ground arith
              | inr d ↦ ground arith
            ] in
            rw same (r.reads (uuid_number (c.uuid_bytes uuid)) code scaled e f)
      ]
    ]
  ]

-- The page of the applicants `found`.
abbrev pub page : Text → Text → Text → List MembershipAgreementWithKey → ApplicantPage
page upload approval rejection found = record {
  applicants = found;
  approval_csrf_token = approval;
  rejection_csrf_token = rejection;
  agreement_upload_csrf_token = upload;
}

number_given : (t : Text) (n : ℕ) → parse_big t ≡ some n → is_empty t ≡ false
unfolding parse_big
number_given [] n h = absurd (cc h)
number_given (ch ∷ t) n h = refl

module _ (uuid_text : Bytes → Option Text)
    (merge : MembershipAgreement → MembershipAgreement → MembershipAgreement) (db : MembershipDb)
    (site : Site) (req : Request) (s : db.State) where
  -- A request of an administrator for one application, whose three tokens are made.
  pub record AsksFor (upload approval rejection : Text) : Type 0 where
    pub inside : req.in_scope site.admingroup ≡ true
    pub single : text_eq (req.form (codes "single")) (codes "true") ≡ true
    pub upload_token : req.gen_csrf agreement_upload_url ≡ some upload
    pub approval_token : req.gen_csrf approval_url ≡ some approval
    pub rejection_token : req.gen_csrf rejection_url ≡ some rejection

  shown_of_number :
      (n : ℕ) (bytes : Bytes) (long : Bool) (upload approval rejection key : Text)
      (a : MembershipAgreement)
      → AsksFor upload approval rejection
      → parse_big (req.form (codes "start")) ≡ some n
      → has_128_bits n ≡ long
      → be_bytes 16 n ≡ bytes
      → uuid_text bytes ≡ some key
      → (db.get_membership_request key s).0 ≡ ok a
      → values (list_applicants uuid_text merge db site req s).0
        ≡ page upload approval rejection
            (if long then record { key = key; agreement = merge empty_agreement a } ∷ [] else [])
          ∷ []
  unfolding list_applicants
  shown_of_number n bytes true upload approval rejection key a asks parsed bits same named got =
      let given = number_given (req.form (codes "start")) n parsed in
      let found : uuid_text (be_bytes 16 n) ≡ some key = rw same named in
      elim (Bool-cases req.delivers) [ inl d ↦ ground arith | inr d ↦ ground arith ]
  shown_of_number n bytes false upload approval rejection key a asks parsed bits same named got =
      let given = number_given (req.form (codes "start")) n parsed in
      elim (Bool-cases req.delivers) [ inl d ↦ ground arith | inr d ↦ ground arith ]

  -- An administrator who asks for the single application whose number was read off a picture that
  -- MakeBarcode has sent sees, given the sixteen bytes of its UUID, their text, the record that
  -- the database returns for it, and the three tokens: that application, if the first byte of the UUID
  -- is 128 or more, and otherwise a page without an application.
  pub barcode_leads_back :
      (c : Barcodes) (r : Reader c) (label : Request) (p : Picture c.Image) (uuid : c.Uuid) (b : ℕ)
      (bs : Bytes) (upload approval rejection key : Text) (a : MembershipAgreement)
      → values (make_barcode c label s).0 ≡ p ∷ []
      → c.parse_uuid (label.form (codes "id")) ≡ some uuid
      → c.uuid_bytes uuid ≡ b ∷ bs
      → IsByte b
      → All IsByte bs
      → length bs ≡ 15
      → req.form (codes "start") ≡ r.read p.image
      → AsksFor upload approval rejection
      → uuid_text (b ∷ bs) ≡ some key
      → (db.get_membership_request key s).0 ≡ ok a
      → values (list_applicants uuid_text merge db site req s).0
        ≡ page upload approval rejection (
            if leb 128 b
            then record { key = key; agreement = merge empty_agreement a } ∷ []
            else [])
          ∷ []
  barcode_leads_back c r label p uuid b bs upload approval rejection key a sent asked raw h hs e
        scanned asks named got =
      let (parsed, bits, bytes) = uuid_number-reads_back b bs h hs e in
      let number : req.form (codes "start") ≡ uuid_number (b ∷ bs) =
        scanned ∙ make_barcode-reads c r label s p uuid sent asked ∙ ap uuid_number raw in
      shown_of_number (be_value 0 (b ∷ bs)) (b ∷ bs) (leb 128 b) upload approval rejection key a
        asks (ap parse_big number ∙ parsed) bits bytes named got
