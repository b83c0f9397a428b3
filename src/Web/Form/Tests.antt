-- ===== src/Web/Form/Tests.antt =====
-- The theorems about the application form at concrete forms, with whole numbers in the place of
-- floating-point numbers.
use membersys.Base.{
  ℕ, ◌≡◌, ◌⊎◌, refl, Bool, true, false, Option, none, some, List, [], ◌∷◌, Text, codes, text_eq,
  if◌then◌else◌, ltb, to_lower,
}
use membersys.Database.{cassandra_db}
use membersys.Cassandra.Tests.Sample.{session, one_member}
use membersys.Web.Numbers.{parse_uint}
use membersys.Web.Form.{Floats, FormRequest, check_form, submit_form, request_metadata}
use membersys.Web.Form.Matching.{email_matches, phone_matches}
use membersys.Web.Form.Checked.{HasConsented, IsReachable, IsPayable, submit_stores_checked}

abbrev whole : Option ℕ → ℕ × Bool
whole none = (0, true)
whole (some n) = (n, false)

abbrev whole_numbers : Floats
whole_numbers = record {
  Float = ℕ;
  zero_value = 0;
  parse_float = λ t. whole (parse_uint t);
  is_below = ltb;
  to_uint64 = λ n. n;
}

abbrev field_of : List (Text × Text) → Text → Text
field_of [] name = []
field_of ((n, v) ∷ rest) name = if text_eq n name then v else field_of rest name

abbrev accepted : Text
accepted = codes "accepted"

-- A form without an address that passes.
abbrev bare_form : Text → Text
bare_form = field_of (
    (codes "mr[email]", codes "ada@example.org")
    ∷ (codes "mr[statutes]", accepted)
    ∷ (codes "mr[ipay]", accepted)
    ∷ (codes "mr[rules]", accepted)
    ∷ (codes "mr[privacy_ok]", accepted)
    ∷ (codes "mr[email_ok]", accepted)
    ∷ (codes "mr[gt18]", codes "yes")
    ∷ (codes "mr[fee]", codes "SFr. 20.--")
    ∷ [])

abbrev bare_request : FormRequest
bare_request = record {
  path = codes "/";
  is_malformed = false;
  is_blank = false;
  post_form = bare_form;
  header = λ name. [];
  remote_addr = codes "[::1]:80";
}

bare_form_passes : (check_form bare_form whole_numbers (λ t. t)).valid ≡ true
unfolding check_form text_eq email_matches to_lower
bare_form_passes = refl

submit_stores_checked_example :
    ((submit_form (cassandra_db session 5) whole_numbers (λ t. t) false bare_request one_member).2
      ≡ one_member)
    ⊎ IsReachable bare_form
      × HasConsented bare_form
      × IsPayable bare_form whole_numbers
      × ((submit_form
            (cassandra_db session 5)
            whole_numbers
            (λ t. t)
            false
            bare_request
            one_member).2
          ≡ ((cassandra_db session 5).store_membership_request
              (check_form bare_form whole_numbers (λ t. t)).member
              (request_metadata (cassandra_db session 5) whole_numbers (λ t. t) false bare_request)
              one_member).1)
submit_stores_checked_example =
    submit_stores_checked (cassandra_db session 5) whole_numbers (λ t. t) false bare_request
      one_member

-- The class [0-9 -\.] of the telephone numbers is a range from the space to the dot.
odd_number_matches : phone_matches (codes "!#&()") ≡ true
unfolding phone_matches
odd_number_matches = refl

-- A second @ is refused.
two_ats : email_matches (codes "a@b@c") ≡ false
unfolding email_matches
two_ats = refl
