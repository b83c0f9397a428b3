-- ===== src/Web/Form/Missing.antt =====
-- The fields of an application whose absence FormInputHandler reports but does not mind.
use membersys.Base.{
  ◌≡◌, refl, sym, ap, ◌∙◌, Bool, false, List, [], ◌∷◌, Text, codes, text_eq, if◌then◌else◌, arith,
  ◌||◌,
}
use membersys.Membership.{Member, empty_member}
use membersys.Web.Form.{
  Floats, Draft, check_address, check_contact, check_consent, check_fee, check_form, blank_draft,
}

abbrev pub is_among : Text → List Text → Bool
is_among field [] = false
is_among field (f ∷ fields) = text_eq f field || is_among field fields

abbrev pub address_fields : List Text
address_fields =
    codes "mr[name]"
    ∷ codes "mr[address]"
    ∷ codes "mr[city]"
    ∷ codes "mr[zip]"
    ∷ codes "mr[country]"
    ∷ []

-- The form with the five fields of the address left empty.
abbrev pub without_address : (Text → Text) → Text → Text
without_address form field = if is_among field address_fields then [] else form field

-- The address has no say in whether a form is valid.
address-valid : (form : Text → Text) (d : Draft) → (check_address form d).valid ≡ d.valid
unfolding check_address
address-valid form d = ground arith

-- The rest of the check sees of a draft only whether it is valid.
contact-valid :
    (form : Text → Text) (hash_password : Text → Text) (d e : Draft)
    → d.valid ≡ e.valid
    → (check_contact form hash_password d).valid ≡ (check_contact form hash_password e).valid
unfolding check_contact
contact-valid form hash_password d e h = ground arith

consent-valid :
    (form : Text → Text) (d e : Draft)
    → d.valid ≡ e.valid
    → (check_consent form d).valid ≡ (check_consent form e).valid
unfolding check_consent
consent-valid form d e h = ground arith

fee-valid :
    (form : Text → Text) (f : Floats) (d e : Draft)
    → d.valid ≡ e.valid
    → (check_fee form f d).valid ≡ (check_fee form f e).valid
unfolding check_fee
fee-valid form f d e h = ground arith

-- The address of a member's data, and nothing else of it.
abbrev pub address_of : Member → Member
address_of m = record empty_member {
  name = m.name;
  street = m.street;
  city = m.city;
  zipcode = m.zipcode;
  country = m.country;
}

no_address :
    (form : Text → Text) → (check_address (without_address form) blank_draft).member ≡ empty_member
unfolding check_address text_eq
no_address form = refl

contact-address_of :
    (form : Text → Text) (hash_password : Text → Text) (d : Draft)
    → address_of (check_contact form hash_password d).member ≡ address_of d.member
unfolding check_contact
contact-address_of form hash_password d = ground arith

consent-address_of :
    (form : Text → Text) (d : Draft)
    → address_of (check_consent form d).member ≡ address_of d.member
unfolding check_consent
consent-address_of form d = ground arith

fee-address_of :
    (form : Text → Text) (f : Floats) (d : Draft)
    → address_of (check_fee form f d).member ≡ address_of d.member
unfolding check_fee
fee-address_of form f d = ground arith

-- The fields outside the address are those of the form.
same_contact :
    (form : Text → Text) (hash_password : Text → Text) (d : Draft)
    → check_contact (without_address form) hash_password d ≡ check_contact form hash_password d
unfolding check_contact text_eq
same_contact form hash_password d = refl

same_consent :
    (form : Text → Text) (d : Draft) → check_consent (without_address form) d ≡ check_consent form d
unfolding check_consent text_eq
same_consent form d = refl

same_fee :
    (form : Text → Text) (f : Floats) (d : Draft)
    → check_fee (without_address form) f d ≡ check_fee form f d
unfolding check_fee text_eq
same_fee form f d = refl

-- The checks behind that of the address, in their order.
abbrev later_checks : (Text → Text) → Floats → (Text → Text) → Draft → Draft
later_checks form f hash_password d =
    check_fee form f (check_consent form (check_contact form hash_password d))

later-valid :
    (form : Text → Text) (f : Floats) (hash_password : Text → Text) (d e : Draft)
    → d.valid ≡ e.valid
    → (later_checks form f hash_password d).valid ≡ (later_checks form f hash_password e).valid
later-valid form f hash_password d e h =
    fee-valid form f _ _ (consent-valid form _ _ (contact-valid form hash_password d e h))

later-address_of :
    (form : Text → Text) (f : Floats) (hash_password : Text → Text) (d : Draft)
    → address_of (later_checks form f hash_password d).member ≡ address_of d.member
later-address_of form f hash_password d =
    fee-address_of form f _ ∙ consent-address_of form _ ∙ contact-address_of form hash_password d

same_later :
    (form : Text → Text) (f : Floats) (hash_password : Text → Text) (d : Draft)
    → later_checks (without_address form) f hash_password d ≡ later_checks form f hash_password d
same_later form f hash_password d =
    same_fee form f _
    ∙ ap (check_fee form f)
        (same_consent form _ ∙ ap (check_consent form) (same_contact form hash_password d))

-- A form without a name, a street, a city, a zip code and a country is as valid as the same form with
-- them, and the member that is made of it has none of the five.
pub missing_address_is_valid :
    (form : Text → Text) (f : Floats) (hash_password : Text → Text)
    → ((check_form (without_address form) f hash_password).valid
        ≡ (check_form form f hash_password).valid)
      × (address_of (check_form (without_address form) f hash_password).member ≡ empty_member)
unfolding check_form
missing_address_is_valid form f hash_password =
    let blank = check_address (without_address form) blank_draft in
    let given = check_address form blank_draft in
    let same = same_later form f hash_password blank in
    (
      ap (λ d. d.valid) same
          ∙ later-valid form f hash_password blank given (
              address-valid (without_address form) blank_draft
              ∙ sym (address-valid form blank_draft)),
      ap (λ d. address_of d.member) same
          ∙ later-address_of form f hash_password blank
          ∙ ap address_of (no_address form),
    )
