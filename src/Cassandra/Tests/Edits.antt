-- ===== src/Cassandra/Tests/Edits.antt =====
-- The theorems about the setters of db/cassandra.go and about sequences of writes, at concrete
-- inputs.
use membersys.Base.{◌≡◌, refl, ap, true, some, none, [], ◌∷◌, codes, ok, Result, text_eq, List}
use membersys.Membership.{Member}
use membersys.Cassandra.Edit.{
  edit_fee, edit_long, edit_bool, edit_text, set_member_fee, set_long_value, set_bool_value,
  set_text_value,
}
use membersys.Cassandra.Edit.Fields.{
  TextField, IsFree, IsUnlisted, column, put, street, city, zipcode, country, phone, username,
}
use membersys.Cassandra.Session.{text, ulong, boolean}
use membersys.Cassandra.Edit.Setters.{Replaced}
use membersys.Cassandra.Edit.Written.{Written, set_member_fee-Written, set_text_value-Written}
use membersys.Cassandra.Tests.Wide.{Wide, wide_session, wide_laws, wide_columns}
use membersys.Cassandra.Writes.{
  Write, applicant_to_new_member, member_fee, text_value, after_writes,
}
use membersys.Cassandra.Writes.Signed.{QueueIsSigned, after_writes-QueueIsSigned}
use membersys.Cassandra.Writes.Usernames.{HasUsername, after_writes-HasUsername}
use membersys.Cassandra.Tests.Store.{Cells, test_laws}
use membersys.Cassandra.Tests.Sample.{
  ada, email, admin, raw_uuid, session, one_applicant, one_member, agreement, stored,
}

-- The member without the values of the other columns.
abbrev wide_member : Wide
wide_member = (one_member, λ t k col. none)

abbrev fee_set : Result (Unit {0}) × Wide
fee_set = set_member_fee wide_session email 30 true wide_member

fee_set-ok : fee_set.0 ≡ ok tt
unfolding set_member_fee edit_fee text_eq
fee_set-ok = refl

set_member_fee-Written_example :
    (old : Member) × Replaced wide_session wide_laws email old
      (record old { fee = some 30; fee_yearly = some true })
      wide_member
      fee_set.1
    × Written wide_session wide_laws wide_columns email
        ((codes "fee", ulong 30) ∷ (codes "fee_yearly", boolean true) ∷ [])
        wide_member
        fee_set.1
set_member_fee-Written_example =
    set_member_fee-Written wide_session wide_laws wide_columns email 30 true wide_member
      (ap (λ r. (r, fee_set.1)) fee_set-ok)

abbrev payments_set : Result (Unit {0}) × Cells
payments_set = set_long_value session email (codes "payments_caught_up_to") 1700000000 one_member

payments_set-ok : payments_set.0 ≡ ok tt
unfolding set_long_value edit_long text_eq
payments_set-ok = refl

abbrev key_set : Result (Unit {0}) × Cells
key_set = set_bool_value session email (codes "has_key") true one_member

key_set-ok : key_set.0 ≡ ok tt
unfolding set_bool_value edit_bool text_eq
key_set-ok = refl

abbrev city_set : Result (Unit {0}) × Wide
city_set = set_text_value wide_session email (codes "city") (codes "Bern") wide_member

city_set-ok : city_set.0 ≡ ok tt
unfolding set_text_value edit_text text_eq
city_set-ok = refl

set_text_value-Written_example :
    (f : TextField) × (old : Member) × (codes "city" ≡ column f)
    × IsFree f old
    × Replaced wide_session wide_laws email old (put f (codes "Bern") old) wide_member city_set.1
    × Written wide_session wide_laws wide_columns email
        ((codes "city", text (codes "Bern")) ∷ [])
        wide_member
        city_set.1
set_text_value-Written_example =
    set_text_value-Written wide_session wide_laws wide_columns email (codes "city") (codes "Bern")
      wide_member (ap (λ r. (r, city_set.1)) city_set-ok)

pwhash-IsUnlisted : IsUnlisted (codes "pwhash")
unfolding text_eq
pwhash-IsUnlisted = elim [
  | TextField.name ↦ refl
  | street ↦ refl
  | city ↦ refl
  | zipcode ↦ refl
  | country ↦ refl
  | phone ↦ refl
  | username ↦ refl
]

-- An applicant is accepted, and the fee of somebody unknown set, with an error.
abbrev accepting : List Write
accepting = applicant_to_new_member 5 raw_uuid admin ∷ member_fee email 30 true ∷ []

nobody_queued : QueueIsSigned session (test_laws []) one_applicant
nobody_queued k pb a e d = absurd (cc)

after_writes-QueueIsSigned_example :
    QueueIsSigned session (test_laws []) (after_writes session accepting one_applicant)
after_writes-QueueIsSigned_example =
    after_writes-QueueIsSigned session (test_laws []) accepting one_applicant nobody_queued

-- A second user name is refused; the city is changed.
abbrev renaming : List Write
renaming =
    text_value email (codes "username") (codes "eve")
    ∷ text_value email (codes "city") (codes "Bern")
    ∷ []

ada_named : HasUsername session (test_laws []) email (codes "ada") refl one_member
unfolding text_eq
ada_named = record {
  stored = stored;
  row = refl;
  agreement = agreement;
  decodes = refl;
  member = ada;
  present = refl;
  named = refl;
}

after_writes-HasUsername_example :
    HasUsername session
      (test_laws [])
      email
      (codes "ada")
      refl
      (after_writes session renaming one_member)
after_writes-HasUsername_example =
    after_writes-HasUsername session (test_laws []) email (codes "ada") refl renaming one_member
      (tt, (tt, tt)) ada_named
