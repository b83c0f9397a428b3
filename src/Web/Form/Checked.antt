-- ===== src/Web/Form/Checked.antt =====
-- What has been checked of an application that FormInputHandler stores.
use membersys.Base.{◌≡◌, ◌⊎◌, inl, inr, Bool, true, false, Bool-cases, Text, codes, arith, text_eq}
use membersys.Database.{MembershipDb}
use membersys.Web.Form.Matching.{IsAddress, email_matches, email_matches-IsAddress}
use membersys.Web.Form.{
  Floats, FormRequest, Draft, check_address, check_contact, check_consent, check_fee, check_form,
  is_accepted, phone_passes, passwords_agree, custom_fee, is_custom, is_too_low, is_given,
  min_fee_text, is_yearly, finish, submit_form, request_metadata, blank_draft, is_file,
}

module _ (form : Text → Text) where
  -- The applicant has accepted the statutes and all else, and is of age.
  pub record HasConsented : Type 0 where
    pub statutes : is_accepted form (codes "mr[statutes]") ≡ true
    pub payment : is_accepted form (codes "mr[ipay]") ≡ true
    pub rules : is_accepted form (codes "mr[rules]") ≡ true
    pub privacy : is_accepted form (codes "mr[privacy_ok]") ≡ true
    pub mail : is_accepted form (codes "mr[email_ok]") ≡ true
    pub of_age : text_eq (form (codes "mr[gt18]")) (codes "yes") ≡ true

  -- There is an e-mail address of the right form and, if anything, a telephone number of the right form,
  -- and the password is repeated.
  pub record IsReachable : Type 0 where
    pub address : IsAddress (form (codes "mr[email]"))
    pub phone : phone_passes form ≡ true
    pub password : passwords_agree form ≡ true

  -- The fee of the form is a number if there is one, and it is a custom fee, which is not too low or
  -- for which a reduction was asked, or the fixed one.
  abbrev pub IsPayable : Floats → Type 0
  IsPayable f =
      ((custom_fee form f).1 ≡ false)
      × (((is_custom form f ≡ true)
            × (is_too_low form f ≡ false)
            × (is_given form (codes "mr[customFee]") ≡ true))
          ⊎ ((is_custom form f ≡ false)
              × (text_eq (form (codes "mr[fee]")) (min_fee_text (is_yearly form)) ≡ true)))

  consent-valid :
      (d : Draft) → (check_consent form d).valid ≡ true → HasConsented × (d.valid ≡ true)
  unfolding check_consent
  consent-valid d h = (
    record {
      statutes = ground arith;
      payment = ground arith;
      rules = ground arith;
      privacy = ground arith;
      mail = ground arith;
      of_age = ground arith;
    },
    ground arith,
  )

  contact-valid :
      (hash_password : Text → Text) (d : Draft)
      → (check_contact form hash_password d).valid ≡ true
      → IsReachable × (d.valid ≡ true)
  unfolding check_contact
  contact-valid hash_password d h =
      let address : email_matches (form (codes "mr[email]")) ≡ true = ground arith in
      (
        record {
          address = email_matches-IsAddress (form (codes "mr[email]")) address;
          phone = ground arith;
          password = ground arith;
        },
        ground arith,
      )

  fee-valid :
      (f : Floats) (d : Draft) → (check_fee form f d).valid ≡ true → IsPayable f × (d.valid ≡ true)
  unfolding check_fee
  fee-valid f d h = elim (Bool-cases (is_custom form f)) [
    | inl e ↦ ((ground arith, inl (e, ground arith, ground arith)), ground arith)
    | inr e ↦ ((ground arith, inr (e, ground arith)), ground arith)
  ]

  form-valid :
      (f : Floats) (hash_password : Text → Text)
      → (check_form form f hash_password).valid ≡ true
      → IsReachable × HasConsented × IsPayable f
  unfolding check_form
  form-valid f hash_password h =
      let addressed = check_address form blank_draft in
      let contacted = check_contact form hash_password addressed in
      let (payable, h) = fee-valid f (check_consent form contacted) h in
      let (consented, h) = consent-valid contacted h in
      let (reachable, h) = contact-valid hash_password addressed h in
      (reachable, consented, payable)

module _ (db : MembershipDb) (f : Floats) (hash_password : Text → Text) (proxy : Bool)
    (req : FormRequest) (s : db.State) where
  -- FormInputHandler leaves the database alone, or it called StoreMembershipRequest once, with the
  -- member that it made of the form, and the form has an e-mail address of the right form, no telephone number
  -- of a wrong form, the password twice, all six consents and a fee that is custom and high enough
  -- (or asked to be reduced) or the fixed one.
  pub submit_stores_checked :
      ((submit_form db f hash_password proxy req s).2 ≡ s)
      ⊎ IsReachable req.post_form
        × HasConsented req.post_form
        × IsPayable req.post_form f
        × ((submit_form db f hash_password proxy req s).2
            ≡ (db.store_membership_request
                (check_form req.post_form f hash_password).member
                (request_metadata db f hash_password proxy req)
                s).1)
  unfolding submit_form finish
  submit_stores_checked =
      let d = check_form req.post_form f hash_password in
      elim (Bool-cases d.valid) [
        | inl valid ↦ elim (Bool-cases (is_file db f hash_password proxy req)) [
          | inl e ↦ inl (ground arith)
          | inr e ↦ elim (Bool-cases req.is_malformed) [
            | inl g ↦ inl (ground arith)
            | inr g ↦ elim (Bool-cases req.is_blank) [
              | inl h ↦ inl (ground arith)
              | inr h ↦
                  let (reachable, consented, payable) =
                    form-valid req.post_form f hash_password valid in
                  inr (reachable, consented, payable, ground arith)
            ]
          ]
        ]
        | inr invalid ↦ inl (ground arith)
      ]
