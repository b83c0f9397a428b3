-- ===== src/Cassandra/Edit/Setters.antt =====
-- What SetMemberFee, SetLongValue, SetBoolValue and SetTextValue of db/cassandra.go change.
use membersys.Base.{
  ℕ, ◌≡◌, ◌⊎◌, Bool, false, Option, some, Text, codes, text_eq, Result, ok, status, IsOk, not_found,
  internal, data_loss, subst,
}
use membersys.Membership.{Member, MembershipAgreement}
use membersys.Cassandra.Session.{Session}
use membersys.Cassandra.Laws.{Laws}
use membersys.Cassandra.Laws.Batches.{Unchanged}
use membersys.Cassandra.Edit.{
  edit_long, edit_bool, edit_text, edit_fee, set_member_fee, set_long_value, set_bool_value,
  set_text_value, with_member,
}
use membersys.Cassandra.Edit.Saving.{
  Edited, Holds, Saved, set_value-Edited, set_value_atomic, set_value_refused,
}
use membersys.Cassandra.Edit.Fields.{
  TextField, column, put, IsFree, IsUnlisted, edit_text-IsPut, edit_text_unlisted,
}
use membersys.Cassandra.Edit.Columns.{
  fee_carries, long_listed, fee_listed, bool_listed, long_carries, bool_carries, text_carries,
}

module _ (c : Session) (l : Laws c) where
  -- A setter saved its edit in both rows of the member and touched no other row, or it changed no
  -- row at all.
  abbrev pub Settles : Text → (Option Member → Result Member) → c.State → c.State → Type 0
  Settles id edit s s' = Edited c l id edit s s' ⊎ Unchanged c l s s'

  pub set_member_fee-Settles :
      (id : Text) (fee : ℕ) (yearly : Bool) (s : c.State)
      → Settles id (edit_fee fee yearly) s (set_member_fee c id fee yearly s).1
  unfolding set_member_fee
  set_member_fee-Settles id fee yearly s =
      set_value_atomic c l id (edit_fee fee yearly) data_loss _ s
        (λ m d pb h. fee_carries fee yearly pb)

  pub set_long_value-Settles :
      (id field : Text) (value : ℕ) (s : c.State)
      → Settles id (edit_long field value) s (set_long_value c id field value s).1
  unfolding set_long_value
  set_long_value-Settles id field value s =
      set_value_atomic c l id (edit_long field value) internal _ s (long_carries field value)

  pub set_bool_value-Settles :
      (id field : Text) (value : Bool) (s : c.State)
      → Settles id (edit_bool field value) s (set_bool_value c id field value s).1
  unfolding set_bool_value
  set_bool_value-Settles id field value s =
      set_value_atomic c l id (edit_bool field value) internal _ s (bool_carries field value)

  pub set_text_value-Settles :
      (id field value : Text) (s : c.State)
      → Settles id (edit_text field value) s (set_text_value c id field value s).1
  unfolding set_text_value
  set_text_value-Settles id field value s =
      set_value_atomic c l id (edit_text field value) internal _ s (text_carries field value)

  -- The member `id` held the data `old`, and now holds `new` in its place in both of its rows; the
  -- rest of its agreement and every other row are as before.
  pub record Replaced (id : Text) (old new : Member) (s s' : c.State) : Type 0 where
    pub agreement : MembershipAgreement
    pub present : agreement.member_data ≡ some old
    pub before : Holds c l id agreement s
    pub after : Saved c l id (with_member agreement new) s s'

  Replaced-intro :
      {id : Text} {edit : Option Member → Result Member} {s s' : c.State}
      (e : Edited c l id edit s s') (old new : Member)
      → e.agreement.member_data ≡ some old
      → e.edited ≡ new
      → Replaced id old new s s'
  Replaced-intro {id} {s} {s'} e old new present result = record {
    agreement = e.agreement;
    present = present;
    before = e.before;
    after = subst (λ d. Saved c l id (with_member e.agreement d) s s') result e.after;
  }

  -- SetMemberFee that returns nil has set the fee and its period of the member in both rows; the
  -- rest of the member and every other row are as before.
  pub set_member_fee_saves :
      (id : Text) (fee : ℕ) (yearly : Bool) (s : c.State) {s' : c.State}
      → set_member_fee c id fee yearly s ≡ (ok tt, s')
      → (old : Member) × Replaced id old
          (record old { fee = some fee; fee_yearly = some yearly })
          s
          s'
  unfolding set_member_fee
  set_member_fee_saves id fee yearly s h =
      let e =
        set_value-Edited c l id (edit_fee fee yearly) data_loss _ s
          (λ m d pb h. fee_carries fee yearly pb) h in
      let (old, present, result) = fee_listed fee yearly _ _ e.by_edit in
      (old, Replaced-intro e old _ present result)

  -- SetLongValue that returns nil was called for payments_caught_up_to, and has set that field of
  -- the member in both rows; the rest of the member and every other row are as before.
  pub set_long_value_saves :
      (id field : Text) (value : ℕ) (s : c.State) {s' : c.State}
      → set_long_value c id field value s ≡ (ok tt, s')
      → (old : Member) × (field ≡ codes "payments_caught_up_to")
        × Replaced id old (record old { payments_caught_up_to = some value }) s s'
  unfolding set_long_value
  set_long_value_saves id field value s h =
      let e =
        set_value-Edited c l id (edit_long field value) internal _ s (long_carries field value) h in
      let (old, listed, present, result) = long_listed field value _ _ e.by_edit in
      (old, listed, Replaced-intro e old _ present result)

  -- SetBoolValue that returns nil was called for has_key, and has set that field of the member in
  -- both rows; the rest of the member and every other row are as before.
  pub set_bool_value_saves :
      (id field : Text) (value : Bool) (s : c.State) {s' : c.State}
      → set_bool_value c id field value s ≡ (ok tt, s')
      → (old : Member) × (field ≡ codes "has_key")
        × Replaced id old (record old { has_key = some value }) s s'
  unfolding set_bool_value
  set_bool_value_saves id field value s h =
      let e =
        set_value-Edited c l id (edit_bool field value) internal _ s (bool_carries field value) h in
      let (old, listed, present, result) = bool_listed field value _ _ e.by_edit in
      (old, listed, Replaced-intro e old _ present result)

  -- SetTextValue that returns nil was called for one of the seven text columns, which is not a
  -- user name that was set before, and has set that field of the member in both rows; the rest of
  -- the member and every other row are as before.
  pub set_text_value_saves :
      (id field value : Text) (s : c.State) {s' : c.State}
      → set_text_value c id field value s ≡ (ok tt, s')
      → (f : TextField) × (old : Member) × (field ≡ column f)
        × IsFree f old
        × Replaced id old (put f value old) s s'
  unfolding set_text_value
  set_text_value_saves id field value s h =
      let e =
        set_value-Edited c l id (edit_text field value) internal _ s (text_carries field value) h in
      let p = edit_text-IsPut field value _ _ e.by_edit in
      (p.which, p.old, p.listed, p.free, Replaced-intro e p.old _ p.present p.result)

-- A field that is none of the listed ones is refused by each setter before anything is written,
-- whatever the database answers.
pub unknown_field_writes_nothing :
    (c : Session) (id field value : Text) (number : ℕ) (flag : Bool) (s : c.State)
    → IsUnlisted field
    → text_eq field (codes "payments_caught_up_to") ≡ false
    → text_eq field (codes "has_key") ≡ false
    → ((set_text_value c id field value s).1 ≡ s)
      × ((set_long_value c id field number s).1 ≡ s)
      × ((set_bool_value c id field flag s).1 ≡ s)
      × ¬ IsOk (set_text_value c id field value s).0
      × ¬ IsOk (set_long_value c id field number s).0
      × ¬ IsOk (set_bool_value c id field flag s).0
unfolding set_text_value set_long_value set_bool_value edit_long edit_bool
unknown_field_writes_nothing c id field value number flag s unlisted no_long no_bool =
    let t =
      set_value_refused c id (edit_text field value) internal _ s (status not_found)
        (λ m. edit_text_unlisted field value m unlisted) in
    let n =
      set_value_refused c id (edit_long field number) internal _ s (status not_found)
        (λ m. rw no_long) in
    let b =
      set_value_refused c id (edit_bool field flag) internal _ s (status not_found)
        (λ m. rw no_bool) in
    (t.0, n.0, b.0, t.1, n.1, b.1)
