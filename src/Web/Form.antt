-- ===== src/Web/Form.antt =====
-- FormInputHandler of membersys/formvalidator.go: the check of an application for membership, and
-- what is stored of it. The texts of the field errors and the counters are left out.
pub mod Matching
pub mod Checked
pub mod Missing
mod Tests
use membersys.Base.{
  ℕ, Bool, true, false, ◌&&◌, ◌||◌, not, Option, none, some, List, [], ◌∷◌, ◌++◌, Text, codes,
  text_eq, is_empty, has_prefix, to_lower, if◌then◌else◌, Result, ok, err, panic,
}
use membersys.Membership.{Member, MembershipMetadata, empty_member, empty_metadata}
use membersys.Database.{MembershipDb}
use membersys.Web.Handler.{Handler, Part, encoded, go, returned, panicked}
use membersys.Web.Form.Matching.{email_matches, phone_matches}

-- Of float64: ParseFloat, with whether it reports an error, `<` against a whole number, and the
-- conversion to uint64.
pub record Floats : Type 1 where
  pub Float : Type 0
  pub zero_value : Float
  pub parse_float : Text → Float × Bool
  pub is_below : Float → ℕ → Bool
  pub to_uint64 : Float → ℕ

pub record FormRequest : Type 0 where
  pub path : Text
  -- Whether ParseForm fails, and whether PostForm is empty after it.
  pub is_malformed : Bool
  pub is_blank : Bool
  pub post_form : Text → Text
  pub header : Text → Text
  pub remote_addr : Text

-- The FormInputData, with the fields that have an error.
pub record FormInputData : Type 0 where
  pub member_data : Member
  pub metadata : Option MembershipMetadata
  pub key : Text
  pub common_err : Bool
  pub field_err : List Text

-- What the handler hands on: the request to the files, or the data to one of the two templates.
pub data FormPage : Type 0 where
  passthrough : FormPage
  application_form print_form : FormInputData → FormPage

-- The member and the field errors so far, and the variable `ok`.
pub record Draft : Type 0 where
  pub member : Member
  pub field_err : List Text
  pub valid : Bool

abbrev pub blank_draft : Draft
blank_draft = record { member = empty_member; field_err = []; valid = true }

-- A field that is set if the test holds, and has an error otherwise. The error of `required` does not
-- make the form invalid.
unfoldable pub required : Bool → Text → (Member → Member) → Draft → Draft
required test field set d =
    if test
    then record d { member = set d.member }
    else record d { field_err = field ∷ d.field_err }

unfoldable pub checked : Bool → Text → (Member → Member) → Draft → Draft
checked test field set d =
    if test
    then record d { member = set d.member }
    else record d { field_err = field ∷ d.field_err; valid = false }

abbrev pub is_yearly : (Text → Text) → Bool
is_yearly form = text_eq (form (codes "mr[yearly]")) (codes "yes")

abbrev pub min_fee : Bool → ℕ
min_fee yearly = if yearly then 200 else 20

-- `fmt.Sprintf("SFr. %d.--", int64(minfee))`.
abbrev pub min_fee_text : Bool → Text
min_fee_text yearly = if yearly then codes "SFr. 200.--" else codes "SFr. 20.--"

module _ (form : Text → Text) where
  abbrev pub is_given : Text → Bool
  is_given field = not (is_empty (form field))

  abbrev pub is_accepted : Text → Bool
  is_accepted field = text_eq (form field) (codes "accepted")

  unfoldable pub check_address : Draft → Draft
  unfolding required
  check_address d =
      let d =
        required (is_given (codes "mr[name]")) (codes "name")
          (λ m. record m { name = some (form (codes "mr[name]")) }) d in
      let d =
        required (is_given (codes "mr[address]")) (codes "address")
          (λ m. record m { street = some (form (codes "mr[address]")) }) d in
      let d =
        required (is_given (codes "mr[city]")) (codes "city")
          (λ m. record m { city = some (form (codes "mr[city]")) }) d in
      let d =
        required (is_given (codes "mr[zip]")) (codes "zip")
          (λ m. record m { zipcode = some (form (codes "mr[zip]")) }) d in
      required (is_given (codes "mr[country]")) (codes "country")
        (λ m. record m { country = some (form (codes "mr[country]")) }) d

  -- `if len(username) > 0 { data.MemberData.Username = &username }`.
  abbrev pub take_username : Draft → Draft
  take_username d =
      let username = to_lower (form (codes "mr[username]")) in
      if is_empty username
      then d
      else record d { member = record d.member { username = some username } }

  abbrev pub phone_passes : Bool
  phone_passes =
      is_empty (form (codes "mr[telephone]")) || phone_matches (form (codes "mr[telephone]"))

  abbrev pub passwords_agree : Bool
  passwords_agree = text_eq (form (codes "mr[password]")) (form (codes "mr[passwordConfirm]"))

  -- `hash_password` is the text of the SHA-1 hash.
  unfoldable pub check_contact : (Text → Text) → Draft → Draft
  unfolding checked
  check_contact hash_password d =
      let d =
        checked (email_matches (form (codes "mr[email]"))) (codes "email")
          (λ m. record m { email = some (form (codes "mr[email]")) }) d in
      let d =
        checked phone_passes (codes "telephone")
          (λ m. record m { phone = some (form (codes "mr[telephone]")) }) d in
      let d = take_username d in
      checked passwords_agree (codes "password")
        (λ m. record m { pwhash = some (hash_password (form (codes "mr[password]"))) }) d

  unfoldable pub check_consent : Draft → Draft
  unfolding checked
  check_consent d =
      let d = checked (is_accepted (codes "mr[statutes]")) (codes "statutes") (λ m. m) d in
      let d = checked (is_accepted (codes "mr[ipay]")) (codes "ipay") (λ m. m) d in
      let d = checked (is_accepted (codes "mr[rules]")) (codes "rules") (λ m. m) d in
      let d = checked (is_accepted (codes "mr[privacy_ok]")) (codes "privacy_ok") (λ m. m) d in
      let d = checked (is_accepted (codes "mr[email_ok]")) (codes "email_ok") (λ m. m) d in
      checked (text_eq (form (codes "mr[gt18]")) (codes "yes")) (codes "gt18") (λ m. m) d

  module _ (f : Floats) where
    -- The fee of the form and whether it is a number: an empty text leaves the zero value.
    abbrev pub custom_fee : f.Float × Bool
    custom_fee =
        if is_given (codes "mr[customFee]")
        then f.parse_float (form (codes "mr[customFee]"))
        else (f.zero_value, false)

    abbrev pub is_custom : Bool
    is_custom = text_eq (form (codes "mr[fee]")) (codes "custom")

    abbrev pub is_too_low : Bool
    is_too_low =
        f.is_below custom_fee.0 (min_fee (is_yearly form))
        && not (text_eq (form (codes "mr[reduction]")) (codes "requested"))

    unfoldable pub check_fee : Draft → Draft
    unfolding checked
    check_fee d =
        let yearly = is_yearly form in
        let d = record d { member = record d.member { fee_yearly = some yearly } } in
        let d = checked (not custom_fee.1) (codes "customFee") (λ m. m) d in
        if is_custom
        then checked (not is_too_low && is_given (codes "mr[customFee]")) (codes "customFee")
            (λ m. record m { fee = some (f.to_uint64 custom_fee.0) }) d
        else checked (text_eq (form (codes "mr[fee]")) (min_fee_text yearly)) (codes "fee")
            (λ m. record m { fee = some (min_fee yearly) }) d

    unfoldable pub check_form : (Text → Text) → Draft
    unfolding check_address check_contact check_consent check_fee
    check_form hash_password =
        check_fee (check_consent (check_contact hash_password (check_address blank_draft)))

module _ (db : MembershipDb) (f : Floats) (hash_password : Text → Text) (use_proxy_real_ip : Bool)
    (req : FormRequest) where
  abbrev pub is_file : Bool
  is_file =
      has_prefix req.path (codes "/css/")
      || (has_prefix req.path (codes "/js/")
          || (has_prefix req.path (codes "/img/") || text_eq req.path (codes "/favicon.ico")))

  abbrev pub request_metadata : MembershipMetadata
  request_metadata = record empty_metadata {
    comment = some (req.post_form (codes "mr[comments]"));
    request_source_ip =
        some (if use_proxy_real_ip then req.header (codes "X-Real-IP") else req.remote_addr);
    user_agent = some (req.header (codes "User-Agent"));
  }

  abbrev pub blank_data : Bool → FormInputData
  blank_data failed = record {
    member_data = empty_member;
    metadata = none;
    key = [];
    common_err = failed;
    field_err = [];
  }

  abbrev pub filled : Draft → Text → Bool → FormInputData
  filled d key failed = record {
    member_data = d.member;
    metadata = some request_metadata;
    key = key;
    common_err = failed;
    field_err = d.field_err;
  }

  -- `if ok { … } else { … }` at the end of the handler.
  unfoldable pub finish : Draft → Handler db.State FormPage (Unit {0})
  finish d s =
      if d.valid
      then (let (r, s') = db.store_membership_request d.member request_metadata s in
          elim r [
            | ok key ↦ (encoded (print_form (filled d key false)) ∷ [], go tt, s')
            | err e ↦ (encoded (application_form (filled d [] true)) ∷ [], go tt, s')
            | panic ↦ ([], panicked, s')
          ])
      else (encoded (application_form (filled d [] false)) ∷ [], go tt, s)

  unfoldable pub submit_form : Handler db.State FormPage (Unit {0})
  unfolding finish check_form
  submit_form s =
      if is_file
      then (encoded passthrough ∷ [], returned, s)
      else if req.is_malformed
      then (encoded (application_form (blank_data true)) ∷ [], returned, s)
      else if req.is_blank
      then (encoded (application_form (blank_data false)) ∷ [], returned, s)
      else finish (check_form req.post_form f hash_password) s
