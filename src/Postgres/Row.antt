-- ===== src/Postgres/Row.antt =====
-- The columns of a member's row and fullRowToMembershipAgreement of db/pgsql.go.
use membersys.Base.{Option, none, some, List, [], ◌∷◌, Text, codes, ℤ}
use membersys.Membership.{Member, MembershipMetadata, MembershipAgreement}
use membersys.Postgres.Sql.{Sql}

abbrev pub all_columns : List Text
all_columns =
    codes "id"
    ∷ codes "name"
    ∷ codes "street"
    ∷ codes "city"
    ∷ codes "zipcode"
    ∷ codes "country"
    ∷ codes "email"
    ∷ codes "email_verified"
    ∷ codes "phone"
    ∷ codes "fee"
    ∷ codes "fee_yearly"
    ∷ codes "username"
    ∷ codes "pwhash"
    ∷ codes "has_key"
    ∷ codes "payments_caught_up_to"
    ∷ codes "request_timestamp"
    ∷ codes "request_source_ip"
    ∷ codes "verification_email"
    ∷ codes "approval_timestamp"
    ∷ codes "approver_uid"
    ∷ codes "request_comment"
    ∷ codes "user_agent"
    ∷ codes "goodbye_timestamp"
    ∷ codes "goodbye_initiator"
    ∷ codes "goodbye_reason"
    ∷ codes "agreement_scan_id"
    ∷ []

-- One argument of Scan after another; each takes the next cell.
abbrev pub Scan : Type 0 → Type 0 → Type 0
Scan C A = List C → Option (A × List C)

infixl 5 ◌>>=◌
unfoldable pub ◌>>=◌ : {C A B : Type 0} → Scan C A → (A → Scan C B) → Scan C B
◌>>=◌ m f cells = elim (m cells) [ none ↦ none | some r ↦ f r.0 r.1 ]

unfoldable pub take : {C A : Type 0} → (C → Option A) → Scan C A
take convert [] = none
take convert (c ∷ cells) = elim (convert c) [ none ↦ none | some a ↦ some (a, cells) ]

abbrev pub give : {C A : Type 0} → A → Scan C A
give a cells = some (a, cells)

-- Scan wants as many arguments as there are cells.
abbrev pub complete : {C A : Type 0} → Option (A × List C) → Option A
complete none = none
complete (some (a, [])) = some a
complete (some (a, c ∷ cells)) = none

module _ (p : Sql) where
  open p use {Cell, to_text, to_uint, to_bool, to_int}

  unfoldable pub scan_member : Scan Cell Member
  scan_member = do
    id ← take to_uint
    name ← take to_text
    street ← take to_text
    city ← take to_text
    zipcode ← take to_text
    country ← take to_text
    email ← take to_text
    email_verified ← take to_bool
    phone ← take to_text
    fee ← take to_uint
    fee_yearly ← take to_bool
    username ← take to_text
    pwhash ← take to_text
    has_key ← take to_bool
    payments_caught_up_to ← take to_uint
    give (record {
      id = id;
      name = name;
      street = street;
      city = city;
      zipcode = zipcode;
      country = country;
      email = email;
      email_verified = email_verified;
      phone = phone;
      fee = fee;
      username = username;
      pwhash = pwhash;
      fee_yearly = fee_yearly;
      has_key = has_key;
      payments_caught_up_to = payments_caught_up_to;
    })

  unfoldable pub scan_metadata : Scan Cell MembershipMetadata
  scan_metadata = do
    request_timestamp ← take to_uint
    request_source_ip ← take to_text
    verification_email ← take to_text
    approval_timestamp ← take to_uint
    approver_uid ← take to_text
    comment ← take to_text
    user_agent ← take to_text
    goodbye_timestamp ← take to_uint
    goodbye_initiator ← take to_text
    goodbye_reason ← take to_text
    give (record {
      request_timestamp = request_timestamp;
      request_source_ip = request_source_ip;
      verification_email = verification_email;
      approval_timestamp = approval_timestamp;
      approver_uid = approver_uid;
      comment = comment;
      user_agent = user_agent;
      goodbye_timestamp = goodbye_timestamp;
      goodbye_initiator = goodbye_initiator;
      goodbye_reason = goodbye_reason;
    })

  unfoldable pub scan_columns : Scan Cell (MembershipAgreement × ℤ)
  scan_columns = do
    member ← scan_member
    metadata ← scan_metadata
    agreement_scan_id ← take to_int
    give (
      record { agreement_pdf = []; member_data = some member; metadata = some metadata },
      agreement_scan_id,
    )

  -- The member and the id of the scan, none for an error of Scan.
  unfoldable pub full_row_to_membership_agreement : List Cell → Option (MembershipAgreement × ℤ)
  full_row_to_membership_agreement cells = complete (scan_columns cells)
