-- ===== src/Postgres/Refinement.antt =====
-- The methods of db/pgsql.go refine the register of statuses.
use membersys.Base.{
  ◌≡◌, refl, sym, ap, ◌∙◌, Bool, true, false, Bool-cases, Option, none, some, Option-cases, inl,
  inr, List, [], ◌∷◌, Text, Bytes, codes, text_eq, text_eq_iff, if◌then◌else◌, ℤ, Result, ok, err,
  panic,
}
use membersys.Decimal.{parse_int}
use membersys.Postgres.Sql.{Sql, Param, text, unsigned, signed, boolean, update_member, insert_scan}
use membersys.Postgres.Edits.{
  update, update_at, parsed, refer_to, store_scan, set_field, set_member_fee, set_long_value,
  set_bool_value, set_text_value, store_membership_agreement, is_long_column, is_bool_column,
  is_text_column,
}
use membersys.Postgres.Moves.{
  update_member_status, update_member_status_with_initiator, move_member_to_trash,
  move_new_member_to_full_member, move_deleted_member_to_archive, move_applicant_to_new_member,
  move_applicant_to_trash, move_queued_record_to_trash,
}
use membersys.Postgres.Register.{
  same_id, set_status, StatusLaws, Change, call, calls, after_change, after_changes, is_ok, renew,
  after_move, to_trash, to_full_member, to_archive, to_new_member, applicant_to_trash,
  queued_to_trash, fee, long_value, bool_value, text_value, agreement,
}

-- The row `k` after an UPDATE of the row `id` that succeeded or not.
abbrev updated : Result ℤ → List (Text × Param) → Bool → ℤ → Option Text → Option Text
updated (ok id) columns true k old = if same_id id k then set_status columns old else old
updated _ columns _ k old = old

updated-move :
    (columns : List (Text × Param)) (status : Text)
    → ((old : Option Text) → set_status columns old ≡ renew status old)
    → (id : Text) (b : Bool) (k : ℤ) (old : Option Text)
    → updated (parsed (parse_int id)) columns b k old ≡ after_move b (some (id, status)) k old
updated-move columns status sets id false k old = elim (Option-cases (parse_int id)) [
  | inl e ↦ rw e refl
  | inr (v, e) ↦ rw e refl
]
updated-move columns status sets id true k old = elim (Option-cases (parse_int id)) [
  | inl e ↦ rw e refl
  | inr (v, e) ↦ rw (e, sets old) refl
]

updated-keeps :
    (columns : List (Text × Param))
    → ((old : Option Text) → set_status columns old ≡ old)
    → (id : Result ℤ) (b : Bool) (k : ℤ) (old : Option Text) → updated id columns b k old ≡ old
updated-keeps columns keeps (err e) b k old = refl
updated-keeps columns keeps panic b k old = refl
updated-keeps columns keeps (ok v) false k old = refl
updated-keeps columns keeps (ok v) true k old = elim (Bool-cases (same_id v k)) [
  | inl e ↦ rw (e, keeps old) refl
  | inr e ↦ rw e refl
]

after_move-none : (b : Bool) (k : ℤ) (old : Option Text) → after_move b none k old ≡ old
after_move-none false k old = refl
after_move-none true k old = refl

-- The setters' columns do not include the status.
other_column :
    (is_column : Text → Bool) (field : Text)
    → is_column (codes "membership_status") ≡ false
    → is_column field ≡ true
    → text_eq field (codes "membership_status") ≡ false
other_column is_column field unlisted listed =
    elim (Bool-cases (text_eq field (codes "membership_status"))) [
      | inl e ↦ absurd (
          cc (
            sym unlisted
            ∙ ap is_column (sym ((text_eq_iff field (codes "membership_status")).0 e))
            ∙ listed))
      | inr e ↦ e
    ]

is_long_column-free :
    (field : Text) → is_long_column field ≡ true → text_eq field (codes "membership_status") ≡ false
unfolding is_long_column text_eq
is_long_column-free field e = other_column is_long_column field refl e

is_bool_column-free :
    (field : Text) → is_bool_column field ≡ true → text_eq field (codes "membership_status") ≡ false
unfolding is_bool_column text_eq
is_bool_column-free field e = other_column is_bool_column field refl e

is_text_column-free :
    (field : Text) → is_text_column field ≡ true → text_eq field (codes "membership_status") ≡ false
unfolding is_text_column text_eq
is_text_column-free field e = other_column is_text_column field refl e

module _ (p : Sql) (status_at : p.State → ℤ → Option Text) (laws : StatusLaws p status_at) where
  update_at-status :
      (columns : List (Text × Param)) (id : Result ℤ) (s : p.State) (k : ℤ)
      → status_at (update_at p columns id s).1 k
        ≡ updated id columns (is_ok (update_at p columns id s).0) k (status_at s k)
  update_at-status columns (err e) s k = refl
  update_at-status columns panic s k = refl
  update_at-status columns (ok id) s k =
      elim (Option-cases (p.exec (update_member columns id) s).0) [
        | inl f ↦ rw f (laws.fails (update_member columns id) s k f)
        | inr (r, f) ↦ rw f (laws.updates columns id s r k f)
      ]

  -- The UPDATE of a move.
  move-status :
      (columns : List (Text × Param)) (status : Text)
      → ((old : Option Text) → set_status columns old ≡ renew status old)
      → (id : Text) (s : p.State) (k : ℤ)
      → let (r, s') = update p columns id s in
        status_at s' k ≡ after_move (is_ok r) (some (id, status)) k (status_at s k)
  unfolding update
  move-status columns status sets id s k =
      update_at-status columns (parsed (parse_int id)) s k
      ∙ updated-move columns status sets id
          (is_ok (update_at p columns (parsed (parse_int id)) s).0) k (status_at s k)

  -- Any other UPDATE.
  keeps-status :
      (columns : List (Text × Param))
      → ((old : Option Text) → set_status columns old ≡ old)
      → (id : Result ℤ) (s : p.State) (k : ℤ)
      → status_at (update_at p columns id s).1 k ≡ status_at s k
  keeps-status columns keeps id s k =
      update_at-status columns id s k
      ∙ updated-keeps columns keeps id (is_ok (update_at p columns id s).0) k (status_at s k)

  -- A setter of one column, which is not the status.
  set_field-keeps :
      (is_column : Bool) (id field : Text) (value : Param)
      → (is_column ≡ true → text_eq field (codes "membership_status") ≡ false)
      → (s : p.State) (k : ℤ)
      → status_at (set_field p is_column id field value s).1 k ≡ status_at s k
  unfolding set_field
  set_field-keeps true id field value other s k =
      keeps-status ((field, value) ∷ []) (λ old. rw (other refl) refl) (parsed (parse_int id)) s k
  set_field-keeps false id field value other s k = elim (Option-cases (parse_int id)) [
    | inl e ↦ rw e refl
    | inr (v, e) ↦ rw e refl
  ]

  refer_to-keeps :
      (id : ℤ) (r : Result ℤ) (s : p.State) (k : ℤ)
      → status_at (refer_to p id r s).1 k ≡ status_at s k
  unfolding text_eq
  refer_to-keeps id (ok scan_id) s k =
      keeps-status ((codes "agreement_scan_id", signed scan_id) ∷ []) (λ old. refl) (ok id) s k
  refer_to-keeps id (err e) s k = refl
  refer_to-keeps id panic s k = refl

  insert-keeps :
      (scan : Bytes) (s : p.State) (k : ℤ)
      → status_at (p.exec (insert_scan scan) s).1 k ≡ status_at s k
  insert-keeps scan s k = elim (Option-cases (p.exec (insert_scan scan) s).0) [
    | inl e ↦ laws.fails (insert_scan scan) s k e
    | inr (r, e) ↦ laws.adds_scan scan s r k e
  ]

  store_scan-keeps :
      (scan : Bytes) (id : Result ℤ) (s : p.State) (k : ℤ)
      → status_at (store_scan p scan id s).1 k ≡ status_at s k
  store_scan-keeps scan (ok id) s k =
      refer_to-keeps id _ (p.exec (insert_scan scan) s).1 k ∙ insert-keeps scan s k
  store_scan-keeps scan (err e) s k = refl
  store_scan-keeps scan panic s k = refl

  -- A call moves the record that the specification names, where it succeeds, and no other.
  call-refines :
      (c : Change) (s : p.State) (k : ℤ)
      → status_at (call p c s).1 k ≡ after_change c (is_ok (call p c s).0) k (status_at s k)
  unfolding move_member_to_trash move_new_member_to_full_member move_deleted_member_to_archive
      move_applicant_to_new_member move_applicant_to_trash move_queued_record_to_trash
      update_member_status update_member_status_with_initiator set_member_fee set_long_value
      set_bool_value set_text_value store_membership_agreement update text_eq
  call-refines (to_trash id initiator reason) s k = move-status _ _ (λ old. refl) id s k
  call-refines (to_full_member m) s k = move-status _ _ (λ old. refl) m.key s k
  call-refines (to_archive m) s k = move-status _ _ (λ old. refl) m.key s k
  call-refines (to_new_member id initiator) s k = move-status _ _ (λ old. refl) id s k
  call-refines (applicant_to_trash id initiator) s k = move-status _ _ (λ old. refl) id s k
  call-refines (queued_to_trash id initiator) s k = move-status _ _ (λ old. refl) id s k
  call-refines (fee id value yearly) s k =
      keeps-status _ (λ old. refl) (parsed (parse_int id)) s k
      ∙ sym (after_move-none _ k (status_at s k))
  call-refines (long_value id field value) s k =
      set_field-keeps _ id field (unsigned value) (is_long_column-free field) s k
      ∙ sym (after_move-none _ k (status_at s k))
  call-refines (bool_value id field value) s k =
      set_field-keeps _ id field (boolean value) (is_bool_column-free field) s k
      ∙ sym (after_move-none _ k (status_at s k))
  call-refines (text_value id field value) s k =
      set_field-keeps _ id field (text value) (is_text_column-free field) s k
      ∙ sym (after_move-none _ k (status_at s k))
  call-refines (agreement id scan) s k =
      store_scan-keeps scan (parsed (parse_int id)) s k ∙ sym (after_move-none _ k (status_at s k))

-- Whatever calls are made, of those that change a record: each that succeeds gives the record that it
-- names the one status of its kind, whatever status that had, and touches no other record; and each that
-- fails, and each setter and upload, leaves every status as it was.
pub calls-refine :
    (p : Sql) (status_at : p.State → ℤ → Option Text) (cs : List Change) (s : p.State) (k : ℤ)
    → StatusLaws p status_at
    → let (oks, s') = calls p cs s in status_at s' k ≡ after_changes cs oks k (status_at s k)
unfolding calls after_changes
calls-refine p status_at [] s k laws = refl
calls-refine p status_at (c ∷ cs) s k laws =
    calls-refine p status_at cs (call p c s).1 k laws
    ∙ ap (after_changes cs (calls p cs (call p c s).1).0 k) (call-refines p status_at laws c s k)
