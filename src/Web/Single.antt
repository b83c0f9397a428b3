-- ===== src/Web/Single.antt =====
-- The single application that ApplicantListHandler is asked for by a decimal number.
use membersys.Base.{
  ℕ, zero, suc, ◌+◌, ◌*◌, ◌/◌, ◌%◌, ◌^◌, ◌<◌, ◌≡◌, refl, true, false, Bool-cases, Option, some, [],
  ◌∷◌, ◌++◌, Text, Bytes, codes, text_eq, is_empty, inl, inr, length, length-append, arith,
}
use membersys.Membership.{MembershipAgreement}
use membersys.Database.{MembershipDb}
use membersys.Web.Handler.{Request, Site}
use membersys.Web.Numbers.{parse_big, has_128_bits, be_bytes}
use membersys.Web.Applicants.{list_applicants, approval_url, rejection_url, agreement_upload_url}
use membersys.Web.Private.{values}
use membersys.Web.Barcode.{be_value}

pub be_value-append :
    (acc : ℕ) (xs : Bytes) (b : ℕ) → be_value acc (xs ++ b ∷ []) ≡ be_value acc xs * 256 + b
be_value-append acc [] b = refl
be_value-append acc (x ∷ xs) b = be_value-append (acc * 256 + x) xs b

div_below : (n m : ℕ) → n < 256 * m → n / 256 < m
div_below n m h = omega arith

-- The `k` bytes of a number below 256^k stand for it.
be_value-be_bytes : (k n : ℕ) → n < 256 ^ k → be_value 0 (be_bytes k n) ≡ n
unfolding be_bytes
be_value-be_bytes zero n h = omega arith
be_value-be_bytes (suc k) n h =
    let ih : be_value 0 (be_bytes k (n / 256)) ≡ n / 256 =
      be_value-be_bytes k (n / 256) (div_below n (256 ^ k) (omega (arith, h))) in
    omega (arith, be_value-append 0 (be_bytes k (n / 256)) (n % 256), ih)

length-be_bytes : (k n : ℕ) → length (be_bytes k n) ≡ k
unfolding be_bytes
length-be_bytes zero n = refl
length-be_bytes (suc k) n =
    omega (arith, length-append (be_bytes k (n / 256)) (n % 256 ∷ []), length-be_bytes k (n / 256))

-- A number of 128 bits is asked for as sixteen bytes that stand for it.
pub uuid_of_number :
    (n : ℕ)
    → has_128_bits n ≡ true
    → (length (be_bytes 16 n) ≡ 16) × (be_value 0 (be_bytes 16 n) ≡ n)
uuid_of_number n h = (length-be_bytes 16 n, be_value-be_bytes 16 n (ground arith))

module _ (uuid_text : Bytes → Option Text)
    (merge : MembershipAgreement → MembershipAgreement → MembershipAgreement) (db : MembershipDb)
    (site : Site) (req : Request) (s : db.State) where
  -- ApplicantListHandler that an administrator asks for one application by a number below 2^127,
  -- as that of any UUID whose first byte is below 128 is, shows a page without an applicant, as if
  -- there were no such application, and leaves the database alone, given that all three tokens are
  -- made.
  pub low_uuid_shows_nobody :
      (n : ℕ) (upload approval rejection : Text)
      → req.in_scope site.admingroup ≡ true
      → text_eq (req.form (codes "single")) (codes "true") ≡ true
      → is_empty (req.form (codes "start")) ≡ false
      → parse_big (req.form (codes "start")) ≡ some n
      → n < 2 ^ 127
      → req.gen_csrf agreement_upload_url ≡ some upload
      → req.gen_csrf approval_url ≡ some approval
      → req.gen_csrf rejection_url ≡ some rejection
      → (values (list_applicants uuid_text merge db site req s).0
          ≡ record {
            applicants = [];
            approval_csrf_token = approval;
            rejection_csrf_token = rejection;
            agreement_upload_csrf_token = upload;
          }
            ∷ [])
        × ((list_applicants uuid_text merge db site req s).2 ≡ s)
  unfolding list_applicants
  low_uuid_shows_nobody n upload approval rejection inside single start number low u a r =
      let short : has_128_bits n ≡ false = ground arith in
      elim (Bool-cases req.delivers) [
        | inl d ↦ (ground arith, ground arith)
        | inr d ↦ (ground arith, ground arith)
      ]
