-- ===== src/Membership.antt =====
-- The records of member.proto and db.go. A field of a proto2 message is a pointer in Go, so each is
-- an option, also those that member.proto marks as required: the marshaller checks these, not
-- the types.
use membersys.Base.{ℕ, Bool, false, Option, none, some, Text, Bytes, []}

pub record MembershipMetadata : Type 0 where
  pub request_timestamp : Option ℕ
  pub request_source_ip : Option Text
  pub verification_email : Option Text
  pub approval_timestamp : Option ℕ
  pub approver_uid : Option Text
  pub comment : Option Text
  pub user_agent : Option Text
  pub goodbye_timestamp : Option ℕ
  pub goodbye_initiator : Option Text
  pub goodbye_reason : Option Text

pub record Member : Type 0 where
  pub id : Option ℕ
  pub name : Option Text
  pub street : Option Text
  pub city : Option Text
  pub zipcode : Option Text
  pub country : Option Text
  pub email : Option Text
  pub email_verified : Option Bool
  pub phone : Option Text
  pub fee : Option ℕ
  pub username : Option Text
  pub pwhash : Option Text
  pub fee_yearly : Option Bool
  pub has_key : Option Bool
  pub payments_caught_up_to : Option ℕ

-- `agreement_pdf` is a byte slice: nil and empty are not told apart by the program.
pub record MembershipAgreement : Type 0 where
  pub agreement_pdf : Bytes
  pub member_data : Option Member
  pub metadata : Option MembershipMetadata

pub record MemberWithKey : Type 0 where
  pub key : Text
  pub member : Member

pub record MembershipAgreementWithKey : Type 0 where
  pub key : Text
  pub agreement : MembershipAgreement

-- What `new(Member)`, `new(MembershipMetadata)` and `new(MembershipAgreement)` hold.
abbrev pub empty_member : Member
empty_member = record {
  id = none;
  name = none;
  street = none;
  city = none;
  zipcode = none;
  country = none;
  email = none;
  email_verified = none;
  phone = none;
  fee = none;
  username = none;
  pwhash = none;
  fee_yearly = none;
  has_key = none;
  payments_caught_up_to = none;
}

abbrev pub empty_metadata : MembershipMetadata
empty_metadata = record {
  request_timestamp = none;
  request_source_ip = none;
  verification_email = none;
  approval_timestamp = none;
  approver_uid = none;
  comment = none;
  user_agent = none;
  goodbye_timestamp = none;
  goodbye_initiator = none;
  goodbye_reason = none;
}

abbrev pub empty_agreement : MembershipAgreement
empty_agreement = record { agreement_pdf = []; member_data = none; metadata = none }

-- The generated getters `GetName()`, `GetFee()` and `GetFeeYearly()`: the value or its default.
abbrev pub text_or_empty : Option Text → Text
text_or_empty none = []
text_or_empty (some t) = t

abbrev pub number_or_zero : Option ℕ → ℕ
number_or_zero none = 0
number_or_zero (some n) = n

abbrev pub bool_or_false : Option Bool → Bool
bool_or_false none = false
bool_or_false (some b) = b

-- `GetName()` on a `*Member` that may be nil.
abbrev pub name_of : Option Member → Text
name_of none = []
name_of (some m) = text_or_empty m.name
