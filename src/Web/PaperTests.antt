-- ===== src/Web/PaperTests.antt =====
-- The theorems about the takeout and the barcodes at concrete requests.
use membersys.Base.{
  ℕ, zero, suc, ◌≡◌, refl, true, some, [], ◌∷◌, ◌++◌, Text, Bytes, codes, text_eq, All, arith,
}
use membersys.Membership.{empty_agreement}
use membersys.Cassandra.Session.{application}
use membersys.Cassandra.Access.{application_prefix, get_membership_request}
use membersys.Cassandra.Tests.Store.{Cells, cells, zeros}
use membersys.Cassandra.Tests.Sample.{agreement, stored, one_member, admin}
use membersys.Decimal.{digits}
use membersys.Web.Handler.{Request}
use membersys.Web.Applicants.{list_applicants}
use membersys.Web.Barcode.{Barcodes, make_barcode, uuid_number}
use membersys.Web.Private.{values}
use membersys.Web.Scanned.{IsByte}
use membersys.Web.Lookup.{Reader, page, barcode_leads_back}
use membersys.Web.Takeout.{detail, vcard, show_takeout, download_pdf, download_vcf}
use membersys.Web.Own.{Takes, scans, takeout-IsOwn}
use membersys.Web.Tests.{request, site, db, by_admin, merge}

takeout-IsOwn_example :
    Takes db by_admin one_member
      (λ a. detail a.member_data ∷ [])
      (show_takeout db by_admin one_member)
    × Takes db by_admin one_member scans (download_pdf db by_admin one_member)
    × Takes db by_admin one_member
        (λ a. vcard admin a.member_data ∷ [])
        (download_vcf db by_admin one_member)
takeout-IsOwn_example = takeout-IsOwn db by_admin one_member

-- A UUID whose first byte is 200, and its text.
abbrev high_bytes : Bytes
high_bytes = 200 ∷ zeros 15

abbrev high_text : Text
high_text = 200 ∷ zeros 35

abbrev one_high_applicant : Cells
one_high_applicant = cells ((application, application_prefix ++ high_bytes, stored) ∷ [])

-- A barcode that is the text itself.
abbrev plain_codes : Barcodes
plain_codes = record {
  Uuid = Bytes;
  Image = Text;
  parse_uuid = λ t. some high_bytes;
  uuid_bytes = λ u. u;
  uuid_string = λ u. high_text;
  encode = λ t. some t;
  scale = λ t. some t;
}

same_text : {t code scaled : Text} → some t ≡ some code → some code ≡ some scaled → scaled ≡ t
same_text e f = cc

plain_reader : Reader plain_codes
plain_reader = record { read = λ t. t; reads = λ t code scaled. same_text }

abbrev label : Request
label = request true ((codes "id", high_text) ∷ [])

abbrev scanned : Request
scanned =
    request true ((codes "single", codes "true") ∷ (codes "start", uuid_number high_bytes) ∷ [])

zeros-AreBytes : (k : ℕ) → All IsByte (zeros k)
zeros-AreBytes zero = tt
zeros-AreBytes (suc k) = (omega arith, zeros-AreBytes k)

barcode_leads_back_example :
    values (list_applicants (λ bytes. some high_text) merge db site scanned one_high_applicant).0
    ≡ page
        (codes "t")
        (codes "t")
        (codes "t")
        (record { key = high_text; agreement = merge empty_agreement agreement } ∷ [])
      ∷ []
unfolding list_applicants make_barcode get_membership_request text_eq uuid_number plain_reader
    digits
barcode_leads_back_example =
    barcode_leads_back (λ bytes. some high_text) merge db site scanned one_high_applicant
      plain_codes plain_reader label
      (record { file_name = high_text; image = uuid_number high_bytes }) high_bytes 200 (zeros 15)
      (codes "t") (codes "t") (codes "t") high_text agreement refl refl refl (omega arith)
      (zeros-AreBytes 15) refl refl
      (record {
        inside = refl;
        single = refl;
        upload_token = refl;
        approval_token = refl;
        rejection_token = refl;
      })
      refl refl
