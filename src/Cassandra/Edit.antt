-- ===== src/Cassandra/Edit.antt =====
-- The setters of db/cassandra.go: SetMemberFee, SetLongValue, SetBoolValue, SetTextValue. Each reads
-- the encoded agreement at QUORUM, changes a field of its member data, and writes the columns and
-- the encoded agreement back in one logged batch.
pub mod Saving
pub mod Fields
pub mod Columns
pub mod Setters
pub mod Written
use membersys.Base.{
  ℕ, Bool, true, false, Option, none, some, List, [], ◌∷◌, Text, Bytes, codes, text_eq, is_empty,
  if◌then◌else◌, Action, Result, ok, err, panic, Code, status, plain, not_found, internal,
  data_loss, or_throw, lift, ◌>>=◌,
}
use membersys.Membership.{Member, MembershipAgreement}
use membersys.Cassandra.Session.{
  Session, members, member_agreements, quorum, Value, text, boolean, ulong, blob, Statement, update,
}
use membersys.Cassandra.Access.{member_key, fetch, decode}

abbrev pub with_member : MembershipAgreement → Member → MembershipAgreement
with_member agreement m = record agreement { member_data = some m }

-- The assignment to the member data, which panics where that is nil.
abbrev pub edit_member : Option Member → (Member → Member) → Result Member
edit_member none f = panic
edit_member (some m) f = ok (f m)

-- The chain of tests on `field` in each setter; the last else is "Unknown field specified".
unfoldable pub edit_long : Text → ℕ → Option Member → Result Member
edit_long field value m =
    if text_eq field (codes "payments_caught_up_to")
    then edit_member m (λ d. record d { payments_caught_up_to = some value })
    else err (status not_found)

unfoldable pub edit_bool : Text → Bool → Option Member → Result Member
edit_bool field value m =
    if text_eq field (codes "has_key")
    then edit_member m (λ d. record d { has_key = some value })
    else err (status not_found)

abbrev pub is_set : Option Text → Bool
is_set none = false
is_set (some t) = if is_empty t then false else true

-- A user name that is set stays.
abbrev pub edit_username : Text → Option Member → Result Member
edit_username value none = panic
edit_username value (some d) =
    if is_set d.username then err (status internal) else ok (record d { username = some value })

unfoldable pub edit_text : Text → Text → Option Member → Result Member
edit_text field value m =
    if text_eq field (codes "name")
    then edit_member m (λ d. record d { name = some value })
    else if text_eq field (codes "street")
    then edit_member m (λ d. record d { street = some value })
    else if text_eq field (codes "city")
    then edit_member m (λ d. record d { city = some value })
    else if text_eq field (codes "zipcode")
    then edit_member m (λ d. record d { zipcode = some value })
    else if text_eq field (codes "country")
    then edit_member m (λ d. record d { country = some value })
    else if text_eq field (codes "phone")
    then edit_member m (λ d. record d { phone = some value })
    else if text_eq field (codes "username")
    then edit_username value m
    else err (status not_found)

unfoldable pub edit_fee : ℕ → Bool → Option Member → Result Member
edit_fee fee yearly m = edit_member m (λ d. record d { fee = some fee; fee_yearly = some yearly })

-- The two updates of the batch; `columns` are the columns set beside the key.
unfoldable pub write_back_batch : Text → List (Text × Value) → Bytes → List Statement
write_back_batch id columns pb =
    update members columns (member_key id)
    ∷ update member_agreements ((codes "pb_data", blob pb) ∷ []) (member_key id)
    ∷ []

module _ (c : Session) where
  open c use {State, marshal, execute_batch}

  -- `ExecuteBatch`, with the error that its caller makes of a failure: codes.Internal in each.
  abbrev pub run_batch : List Statement → Action State (Unit {0})
  run_batch batch s =
      let (done, s') = execute_batch batch s in (if done then ok tt else err (status internal), s')

  abbrev pub encode : MembershipAgreement → Code → Action State Bytes
  encode agreement code = or_throw (marshal agreement) (status code)

  -- What the setters share: read, decode, change the member data, encode, write back. `edit` is the
  -- change, `code` the error code of a failed encoding, `columns` the columns of the first update.
  unfoldable pub set_value :
      Text
      → (Option Member → Result Member)
      → Code
      → (Bytes → List (Text × Value))
      → Action State (Unit {0})
  set_value id edit code columns = do
    stored ← fetch c quorum members (member_key id)
    agreement ← decode c stored plain
    d ← lift (edit agreement.member_data)
    pb ← encode (with_member agreement d) code
    run_batch (write_back_batch id (columns pb) pb)

  unfoldable pub set_member_fee : Text → ℕ → Bool → Action State (Unit {0})
  unfolding set_value
  set_member_fee id fee yearly = set_value id (edit_fee fee yearly) data_loss λ pb.
      (codes "pb_data", blob pb)
      ∷ (codes "fee", ulong fee)
      ∷ (codes "fee_yearly", boolean yearly)
      ∷ []

  unfoldable pub set_long_value : Text → Text → ℕ → Action State (Unit {0})
  unfolding set_value
  set_long_value id field value =
      set_value id (edit_long field value) internal
        λ pb. (field, ulong value) ∷ (codes "pb_data", blob pb) ∷ []

  unfoldable pub set_bool_value : Text → Text → Bool → Action State (Unit {0})
  unfolding set_value
  set_bool_value id field value =
      set_value id (edit_bool field value) internal
        λ pb. (field, boolean value) ∷ (codes "pb_data", blob pb) ∷ []

  unfoldable pub set_text_value : Text → Text → Text → Action State (Unit {0})
  unfolding set_value
  set_text_value id field value =
      set_value id (edit_text field value) internal
        λ pb. (field, text value) ∷ (codes "pb_data", blob pb) ∷ []
