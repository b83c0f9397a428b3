-- ===== src/Cassandra/Writes/Usernames.antt =====
-- A user name that is set stays as it is while a member is edited.
use mathlib.Core.Option.{some-injective}
use membersys.Base.{
  ℕ, ◌≡◌, refl, sym, ◌∙◌, inl, inr, Bool, true, Bool-cases, Option, some, List, [], ◌∷◌, Text,
  Bytes, text_eq, text_eq_iff, arith, ok, ap, subst, All, Result,
}
use membersys.Membership.{Member, MembershipAgreement}
use membersys.Cassandra.Session.{Session, members}
use membersys.Cassandra.Access.{member_key}
use membersys.Cassandra.Laws.{Laws}
use membersys.Cassandra.Edit.{is_set, edit_fee, edit_long, edit_bool, edit_text, with_member}
use membersys.Cassandra.Edit.Fields.{TextField, name, username, put, IsFree, edit_text-IsPut}
use membersys.Cassandra.Edit.Saving.{Edited}
use membersys.Cassandra.Edit.Setters.{
  Settles, set_member_fee-Settles, set_long_value-Settles, set_bool_value-Settles,
  set_text_value-Settles,
}
use membersys.Cassandra.Writes.{
  Write, member_fee, long_value, bool_value, text_value, run_write, after_writes,
}

-- The calls that edit a member in place.
abbrev pub IsEdit : Write → Type 0
IsEdit (member_fee _ _ _) = Unit
IsEdit (long_value _ _ _) = Unit
IsEdit (bool_value _ _ _) = Unit
IsEdit (text_value _ _ _) = Unit
IsEdit _ = ⊥

-- An edit that leaves a user name that is set alone.
abbrev Keeps : (Option Member → Result Member) → Type 0
Keeps edit =
    (old d : Member) (u : Text)
    → edit (some old) ≡ ok d
    → old.username ≡ some u
    → is_set (some u) ≡ true
    → d.username ≡ some u

edit_fee-Keeps : (fee : ℕ) (yearly : Bool) → Keeps (edit_fee fee yearly)
unfolding edit_fee
edit_fee-Keeps fee yearly old d u e h _ = ground arith

edit_long-Keeps : (field : Text) (value : ℕ) → Keeps (edit_long field value)
unfolding edit_long
edit_long-Keeps field value old d u e h _ = ground arith

edit_bool-Keeps : (field : Text) (value : Bool) → Keeps (edit_bool field value)
unfolding edit_bool
edit_bool-Keeps field value old d u e h _ = ground arith

put_keeps :
    (f : TextField) (v : Text) (old : Member) (u : Text)
    → IsFree f old
    → old.username ≡ some u
    → is_set (some u) ≡ true
    → (put f v old).username ≡ some u
put_keeps username v old u free h set = ground arith
put_keeps name v old u free h set = h
put_keeps _ v old u free h set = h

edit_text-Keeps : (field value : Text) → Keeps (edit_text field value)
edit_text-Keeps field value old d u e h set =
    let p = edit_text-IsPut field value (some old) d e in
    let same : old ≡ p.old = some-injective _ _ p.present in
    subst (λ x. x.username ≡ some u) (sym p.result)
      (put_keeps p.which value p.old u p.free (subst (λ x. x.username ≡ some u) same h) set)

module _ (c : Session) (l : Laws c) (id u : Text) (set : is_set (some u) ≡ true) where
  -- The row of the member `id` decodes to a member with the user name `u`.
  pub record HasUsername (s : c.State) : Type 0 where
    pub stored : Bytes
    pub row : l.pb_data s members (member_key id) ≡ some stored
    pub agreement : MembershipAgreement
    pub decodes : c.unmarshal stored ≡ some agreement
    pub member : Member
    pub present : agreement.member_data ≡ some member
    pub named : member.username ≡ some u

  Edited-HasUsername :
      (id' : Text) (edit : Option Member → Result Member) (s s' : c.State)
      → Keeps edit
      → Edited c l id' edit s s'
      → HasUsername s
      → HasUsername s'
  Edited-HasUsername id' edit s s' keeps e h =
      elim (Bool-cases (text_eq (member_key id') (member_key id))) [
        | inl same ↦
            let key = (text_eq_iff (member_key id') (member_key id)).0 same in
            let row : l.pb_data s members (member_key id) ≡ some e.before.stored =
              subst (λ k. l.pb_data s members k ≡ some e.before.stored) key e.before.in_members in
            let stored : h.stored ≡ e.before.stored = some-injective _ _ (sym h.row ∙ row) in
            let loaded : e.agreement ≡ h.agreement =
              some-injective _ _ (sym e.before.decodes ∙ ap c.unmarshal (sym stored) ∙ h.decodes) in
            let by_edit : edit (some h.member) ≡ ok e.edited =
              ap edit (sym h.present ∙ ap (λ a. a.member_data) (sym loaded)) ∙ e.by_edit in
            record {
              stored = e.after.stored;
              row =
                  subst (λ k. l.pb_data s' members k ≡ some e.after.stored) key e.after.in_members;
              agreement = with_member e.agreement e.edited;
              decodes = e.after.decodes;
              member = e.edited;
              present = refl;
              named = keeps h.member e.edited u by_edit h.named set;
            }
        | inr other ↦ record {
          stored = h.stored;
          row = e.after.frame members (member_key id) other refl ∙ h.row;
          agreement = h.agreement;
          decodes = h.decodes;
          member = h.member;
          present = h.present;
          named = h.named;
        }
      ]

  Settles-HasUsername :
      (id' : Text) (edit : Option Member → Result Member) (s s' : c.State)
      → Keeps edit
      → Settles c l id' edit s s'
      → HasUsername s
      → HasUsername s'
  Settles-HasUsername id' edit s s' keeps (inl e) h = Edited-HasUsername id' edit s s' keeps e h
  Settles-HasUsername id' edit s s' keeps (inr same) h = record {
    stored = h.stored;
    row = same members (member_key id) ∙ h.row;
    agreement = h.agreement;
    decodes = h.decodes;
    member = h.member;
    present = h.present;
    named = h.named;
  }

  run_write-HasUsername :
      (w : Write) (s : c.State) → IsEdit w → HasUsername s → HasUsername (run_write c w s).1
  unfolding run_write
  run_write-HasUsername (member_fee id' fee yearly) s _ h =
      Settles-HasUsername id' (edit_fee fee yearly) s _ (edit_fee-Keeps fee yearly)
        (set_member_fee-Settles c l id' fee yearly s) h
  run_write-HasUsername (long_value id' field v) s _ h =
      Settles-HasUsername id' (edit_long field v) s _ (edit_long-Keeps field v)
        (set_long_value-Settles c l id' field v s) h
  run_write-HasUsername (bool_value id' field v) s _ h =
      Settles-HasUsername id' (edit_bool field v) s _ (edit_bool-Keeps field v)
        (set_bool_value-Settles c l id' field v s) h
  run_write-HasUsername (text_value id' field v) s _ h =
      Settles-HasUsername id' (edit_text field v) s _ (edit_text-Keeps field v)
        (set_text_value-Settles c l id' field v s) h
  run_write-HasUsername _ s edit h = absurd edit

  -- A user name that is set and not empty is the member's user name still after any sequence of
  -- the calls that edit members, whether or not they return errors.
  pub after_writes-HasUsername :
      (ws : List Write) (s : c.State)
      → All IsEdit ws
      → HasUsername s
      → HasUsername (after_writes c ws s)
  unfolding after_writes
  after_writes-HasUsername [] s _ h = h
  after_writes-HasUsername (w ∷ ws) s (e, es) h =
      after_writes-HasUsername ws (run_write c w s).1 es (run_write-HasUsername w s e h)
