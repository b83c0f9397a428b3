-- ===== src/Cassandra/Edit/Written.antt =====
-- Which columns SetMemberFee and SetTextValue of db/cassandra.go write, beside the encoded agreement.
use membersys.Base.{
  ℕ, ◌≡◌, refl, ◌∙◌, Bool, false, Bool-cases, inl, inr, Option, none, some, List, [], ◌∷◌, Text,
  Bytes, codes, text_eq, Result, ok, All, data_loss, internal, Code, ap,
}
use membersys.Membership.{Member}
use membersys.Cassandra.Session.{
  Session, Table, members, member_agreements, Value, text, boolean, ulong,
}
use membersys.Cassandra.Cast.{lookup}
use membersys.Cassandra.Access.{member_key}
use membersys.Cassandra.Laws.{Laws, same_row}
use membersys.Cassandra.Laws.Batches.{text_eq_self}
use membersys.Cassandra.Laws.Columns.{ColumnLaws, bound_or, apply_to_columns}
use membersys.Cassandra.Edit.{
  edit_text, edit_fee, set_value, write_back_batch, set_member_fee, set_text_value,
}
use membersys.Cassandra.Edit.Fields.{TextField, column, put, IsFree}
use membersys.Cassandra.Edit.Saving.{set_value_steps, separate}
use membersys.Cassandra.Edit.Setters.{Replaced, set_member_fee_saves, set_text_value_saves}

-- A column that is neither pb_data nor among `columns`.
abbrev pub IsBeside : Text → List (Text × Value) → Type 0
IsBeside col columns =
    (text_eq (codes "pb_data") col ≡ false) × All (λ p. text_eq p.0 col ≡ false) columns

module _ (c : Session) (l : Laws c) (k : ColumnLaws c) where
  -- The row of the member `id` has the values of `columns`; beside these and pb_data no column of any
  -- row of any table has changed.
  pub record Written (id : Text) (columns : List (Text × Value)) (s s' : c.State) : Type 0 where
    pub set : All (λ p. k.column s' members (member_key id) p.0 ≡ some p.1) columns
    pub kept :
        (col : Text)
        → IsBeside col columns
        → k.column s' members (member_key id) col ≡ k.column s members (member_key id) col
    pub frame :
        (t : Table) (key : Bytes) (col : Text)
        → same_row members (member_key id) t key ≡ false
        → text_eq (codes "pb_data") col ≡ false
        → k.column s' t key col ≡ k.column s t key col

  batch_row :
      (id : Text) (columns : List (Text × Value)) (pb : Bytes) (col : Text) (old : Option Value)
      → apply_to_columns (write_back_batch id columns pb) members (member_key id) col old
        ≡ bound_or (lookup col columns) old
  unfolding write_back_batch
  batch_row id columns pb col old = rw (text_eq_self (member_key id)) refl

  batch_others :
      (id : Text) (columns : List (Text × Value)) (pb : Bytes) (t : Table) (key : Bytes)
      (col : Text) (old : Option Value)
      → same_row members (member_key id) t key ≡ false
      → text_eq (codes "pb_data") col ≡ false
      → apply_to_columns (write_back_batch id columns pb) t key col old ≡ old
  unfolding write_back_batch lookup
  batch_others id columns pb t key col old other plain =
      elim (Bool-cases (same_row member_agreements (member_key id) t key)) [
        | inl e ↦ rw (e, other, plain) refl
        | inr e ↦ rw (e, other) refl
      ]

  -- A call of `set_value` that returned nil has written its columns.
  set_value-columns :
      (id : Text) (edit : Option Member → Result Member) (code : Code)
      (columns : Bytes → List (Text × Value)) (s : c.State) {s' : c.State}
      → set_value c id edit code columns s ≡ (ok tt, s')
      → (pb : Bytes) × ((t : Table) (key : Bytes) (col : Text)
          → k.column s' t key col
            ≡ apply_to_columns
                (write_back_batch id (columns pb) pb)
                t
                key
                col
                (k.column s t key col))
  set_value-columns id edit code columns s {s'} h =
      let (stored, a, d, pb, scan, decoded, by_edit, encoded, done) =
        set_value_steps c l id edit code columns s h in
      (pb, k.batch_columns _ s s' (separate id (columns pb) pb) done)

  set-All :
      (id : Text) (columns : List (Text × Value)) (pb : Bytes) (s s' : c.State)
      → ((col : Text)
          → k.column s' members (member_key id) col
            ≡ bound_or (lookup col columns) (k.column s members (member_key id) col))
      → (named : List (Text × Value)) → All (λ p. lookup p.0 columns ≡ some p.1) named
      → All (λ p. k.column s' members (member_key id) p.0 ≡ some p.1) named
  set-All id columns pb s s' row [] h = tt
  set-All id columns pb s s' row ((col, v) ∷ named) (h, hs) = (
    row col ∙ ap (λ x. bound_or x (k.column s members (member_key id) col)) h,
    set-All id columns pb s s' row named hs,
  )

  set_value-Written :
      (id : Text) (edit : Option Member → Result Member) (code : Code)
      (columns : Bytes → List (Text × Value)) (named : List (Text × Value)) (s : c.State)
      {s' : c.State}
      → ((pb : Bytes) → All (λ p. lookup p.0 (columns pb) ≡ some p.1) named)
      → ((pb : Bytes) (col : Text) → IsBeside col named → lookup col (columns pb) ≡ none)
      → set_value c id edit code columns s ≡ (ok tt, s')
      → Written id named s s'
  set_value-Written id edit code columns named s {s'} listed others h =
      let (pb, effect) = set_value-columns id edit code columns s h in
      let row : (col : Text)
          → k.column s' members (member_key id) col
            ≡ bound_or (lookup col (columns pb)) (k.column s members (member_key id) col) =
        λ col.
          effect members (member_key id) col
          ∙ batch_row id (columns pb) pb col (k.column s members (member_key id) col) in
      record {
        set = set-All id (columns pb) pb s s' row named (listed pb);
        kept = λ col beside.
            row col
            ∙ ap (λ x. bound_or x (k.column s members (member_key id) col)) (others pb col beside);
        frame = λ t key col other plain.
            effect t key col
            ∙ batch_others id (columns pb) pb t key col (k.column s t key col) other plain;
      }

  -- SetMemberFee that returns nil has set the fee and its period in the encoded agreement of both rows of
  -- the member, and in the columns fee and fee_yearly of its row in members. The rest of the agreement,
  -- every other row, and every other column but pb_data are as before.
  pub set_member_fee-Written :
      (id : Text) (fee : ℕ) (yearly : Bool) (s : c.State) {s' : c.State}
      → set_member_fee c id fee yearly s ≡ (ok tt, s')
      → (old : Member) × Replaced c l id old
          (record old { fee = some fee; fee_yearly = some yearly })
          s
          s'
        × Written id ((codes "fee", ulong fee) ∷ (codes "fee_yearly", boolean yearly) ∷ []) s s'
  unfolding set_member_fee lookup text_eq
  set_member_fee-Written id fee yearly s h =
      let (old, replaced) = set_member_fee_saves c l id fee yearly s h in
      (
        old,
        replaced,
        set_value-Written id (edit_fee fee yearly) data_loss _ _ s (λ pb. (refl, (refl, tt)))
            (λ pb col beside. rw (beside.0, beside.1.0, beside.1.1.0) refl) h,
      )

  -- SetTextValue that returns nil was called for one of the seven text columns, which is not a user
  -- name that was set before. It has set that field in the encoded agreement of both rows of the member,
  -- and that column of its row in members. The rest of the agreement, every other row, and every other
  -- column but pb_data are as before.
  pub set_text_value-Written :
      (id field value : Text) (s : c.State) {s' : c.State}
      → set_text_value c id field value s ≡ (ok tt, s')
      → (f : TextField) × (old : Member) × (field ≡ column f)
        × IsFree f old
        × Replaced c l id old (put f value old) s s'
        × Written id ((field, text value) ∷ []) s s'
  unfolding set_text_value lookup
  set_text_value-Written id field value s h =
      let (f, old, listed, free, replaced) = set_text_value_saves c l id field value s h in
      (
        f,
        old,
        listed,
        free,
        replaced,
        set_value-Written id (edit_text field value) internal _ ((field, text value) ∷ []) s
            (λ pb. (rw (text_eq_self field) refl, tt))
            (λ pb col beside. rw (beside.1.0, beside.0) refl) h,
      )
