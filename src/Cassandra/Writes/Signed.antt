-- ===== src/Cassandra/Writes/Signed.antt =====
-- Nobody waits in the queue of new members without a signed agreement and an approver.
use membersys.Base.{
  ℕ, ◌≡◌, refl, sym, ◌∙◌, ◌⊎◌, inl, inr, false, Bool-cases, Option, none, some, List, [], ◌∷◌, ◌++◌,
  Text, Bytes, is_empty, text_eq, text_eq_iff, arith, ap, subst, Result,
}
use mathlib.Core.Option.{some-injective}
use membersys.Membership.{Member, MembershipAgreement, MembershipMetadata, MemberWithKey}
use membersys.Cassandra.Session.{Session, application, membership_queue, membership_archive}
use membersys.Cassandra.Access.{application_prefix, queue_prefix, archive_prefix}
use membersys.Cassandra.Laws.{Laws}
use membersys.Cassandra.Edit.Setters.{
  Settles, set_member_fee-Settles, set_long_value-Settles, set_bool_value-Settles,
  set_text_value-Settles,
}
use membersys.Cassandra.Move.{
  approve, with_metadata, move_applicant_to_new_member, move_applicant_to_trash,
  move_queued_record_to_trash,
}
use membersys.Cassandra.Move.Moving.{Approved, move_record_to_table_settles}
use membersys.Cassandra.Move.Leaving.{move_member_to_trash_settles}
use membersys.Cassandra.Move.Joining.{
  Promoted, move_new_member_settles, move_deleted_member_settles,
}
use membersys.Cassandra.Move.Uploading.{
  store_membership_agreement_settles, store_membership_request_fails,
}
use membersys.Cassandra.Writes.{
  Write, member_fee, long_value, bool_value, text_value, request, agreement,
  applicant_to_new_member, applicant_to_trash, queued_record_to_trash, member_to_trash,
  new_member_to_full_member, deleted_member_to_archive, run_write, after_writes,
}

-- The agreement has a scan of the signed form and names its approver.
pub record IsSigned (a : MembershipAgreement) : Type 0 where
  pub scanned : is_empty a.agreement_pdf ≡ false
  pub meta : MembershipMetadata
  pub has_meta : a.metadata ≡ some meta
  pub approver : Text
  pub approved : meta.approver_uid ≡ some approver

-- One cell holds one agreement.
written_once :
    {A : Type 0} (decode : Bytes → Option A) {cell : Option Bytes} {x y : Bytes} {a b : A}
    → cell ≡ some x
    → cell ≡ some y
    → decode x ≡ some a
    → decode y ≡ some b
    → a ≡ b
written_once decode p q d e = ground (arith, some-injective _ _ (sym p ∙ q))

module _ (c : Session) (l : Laws c) where
  -- Every row of the queue of new members that decodes is signed.
  abbrev pub QueueIsSigned : c.State → Type 0
  QueueIsSigned s =
      (k stored : Bytes) (a : MembershipAgreement)
      → l.pb_data s membership_queue k ≡ some stored
      → c.unmarshal stored ≡ some a
      → IsSigned a

  -- A row of the queue is as before, or is empty now.
  abbrev Shrinks : c.State → c.State → Type 0
  Shrinks s s' =
      (k : Bytes)
      → (l.pb_data s' membership_queue k ≡ l.pb_data s membership_queue k)
        ⊎ (l.pb_data s' membership_queue k ≡ none)

  Shrinks-IsSigned : (s s' : c.State) → Shrinks s s' → QueueIsSigned s → QueueIsSigned s'
  Shrinks-IsSigned s s' shrinks signed k stored a row decodes = elim (shrinks k) [
    | inl same ↦ signed k stored a (sym same ∙ row) decodes
    | inr gone ↦ absurd (cc)
  ]

  Settles-Shrinks :
      (id : Text) (edit : Option Member → Result Member) (s s' : c.State)
      → Settles c l id edit s s'
      → Shrinks s s'
  Settles-Shrinks id edit s s' (inl e) k = inl (e.after.frame membership_queue k refl refl)
  Settles-Shrinks id edit s s' (inr same) k = inl (same membership_queue k)

  -- A row that a move emptied.
  emptied :
      (key : Bytes) (s s' : c.State)
      → l.pb_data s' membership_queue key ≡ none
      → ((k : Bytes)
          → text_eq key k ≡ false
          → l.pb_data s' membership_queue k ≡ l.pb_data s membership_queue k)
      → Shrinks s s'
  emptied key s s' gone frame k = elim (Bool-cases (text_eq key k)) [
    | inl same ↦
        inr (subst (λ x. l.pb_data s' membership_queue x ≡ none) ((text_eq_iff key k).0 same) gone)
    | inr other ↦ inl (frame k other)
  ]

  Approved-IsSigned :
      (now : ℕ) (who : Text) (src_key key : Bytes) (s s' : c.State)
      → Approved c l now who application src_key membership_queue key s s'
      → QueueIsSigned s
      → QueueIsSigned s'
  Approved-IsSigned now who src_key key s s' p signed k stored a row decodes =
      elim (Bool-cases (text_eq key k)) [
        | inl same ↦
            let at_key : l.pb_data s' membership_queue key ≡ some stored =
              ap (l.pb_data s' membership_queue) ((text_eq_iff key k).0 same) ∙ row in
            let e : with_metadata p.agreement (approve who now p.meta) ≡ a =
              written_once (c.unmarshal) p.moved.after at_key p.moved.encodes decodes in
            subst IsSigned e (record {
              scanned = p.signed;
              meta = approve who now p.meta;
              has_meta = refl;
              approver = who;
              approved = refl;
            })
        | inr other ↦
            signed k stored a (sym (p.moved.frame membership_queue k refl other) ∙ row) decodes
      ]

  Promoted-Shrinks :
      (m : MemberWithKey) (pb : Bytes) (s s' : c.State) → Promoted c l m pb s s' → Shrinks s s'
  Promoted-Shrinks m pb s s' p =
      emptied (queue_prefix ++ m.key) s s' p.gone (λ k q. p.frame membership_queue k refl refl q)

  request_keeps :
      (now : ℕ) (m : Member) (meta : MembershipMetadata) (s : c.State)
      → (run_write c (request now m meta) s).1 ≡ s
  unfolding run_write
  request_keeps now m meta s = ground (arith, store_membership_request_fails c l now m meta s)

  -- Each call keeps the queue signed, whatever it returns.
  pub run_write-QueueIsSigned :
      (w : Write) (s : c.State) → QueueIsSigned s → QueueIsSigned (run_write c w s).1
  unfolding run_write move_applicant_to_new_member move_applicant_to_trash
      move_queued_record_to_trash
  run_write-QueueIsSigned (member_fee id fee yearly) s h =
      Shrinks-IsSigned s _ (Settles-Shrinks id _ s _ (set_member_fee-Settles c l id fee yearly s)) h
  run_write-QueueIsSigned (long_value id field v) s h =
      Shrinks-IsSigned s _ (Settles-Shrinks id _ s _ (set_long_value-Settles c l id field v s)) h
  run_write-QueueIsSigned (bool_value id field v) s h =
      Shrinks-IsSigned s _ (Settles-Shrinks id _ s _ (set_bool_value-Settles c l id field v s)) h
  run_write-QueueIsSigned (text_value id field v) s h =
      Shrinks-IsSigned s _ (Settles-Shrinks id _ s _ (set_text_value-Settles c l id field v s)) h
  run_write-QueueIsSigned (request now m meta) s h =
      subst QueueIsSigned (sym (request_keeps now m meta s)) h
  run_write-QueueIsSigned (agreement id pdf) s h =
      elim (store_membership_agreement_settles c l id pdf s) [
        | inl (uuid, a, u) ↦ Shrinks-IsSigned s _ (λ k. inl (u.frame membership_queue k refl)) h
        | inr same ↦ Shrinks-IsSigned s _ (λ k. inl (same membership_queue k)) h
      ]
  run_write-QueueIsSigned (applicant_to_new_member now id who) s h =
      elim (move_record_to_table_settles c l now id who application application_prefix
        membership_queue queue_prefix s refl) [
          | inl p ↦ Approved-IsSigned now who _ _ s _ p h
          | inr same ↦ Shrinks-IsSigned s _ (λ k. inl (same membership_queue k)) h
        ]
  run_write-QueueIsSigned (applicant_to_trash now id who) s h =
      elim (move_record_to_table_settles c l now id who application application_prefix
        membership_archive archive_prefix s refl) [
          | inl p ↦ Shrinks-IsSigned s _ (λ k. inl (p.moved.frame membership_queue k refl refl)) h
          | inr same ↦ Shrinks-IsSigned s _ (λ k. inl (same membership_queue k)) h
        ]
  run_write-QueueIsSigned (queued_record_to_trash now id who) s h =
      elim (move_record_to_table_settles c l now id who membership_queue queue_prefix
        membership_archive archive_prefix s refl) [
          | inl p ↦
              Shrinks-IsSigned s _
                (emptied (queue_prefix ++ id) s _ p.moved.gone
                  (λ k q. p.moved.frame membership_queue k q refl))
                h
          | inr same ↦ Shrinks-IsSigned s _ (λ k. inl (same membership_queue k)) h
        ]
  run_write-QueueIsSigned (member_to_trash now id who reason) s h =
      elim (move_member_to_trash_settles c l now id who reason s) [
        | inl p ↦ Shrinks-IsSigned s _ (λ k. inl (p.moved.frame membership_queue k refl refl)) h
        | inr same ↦ Shrinks-IsSigned s _ (λ k. inl (same membership_queue k)) h
      ]
  run_write-QueueIsSigned (new_member_to_full_member m) s h =
      elim (move_new_member_settles c l m s) [
        | inl (pb, p) ↦ Shrinks-IsSigned s _ (Promoted-Shrinks m pb s _ p) h
        | inr same ↦ Shrinks-IsSigned s _ (λ k. inl (same membership_queue k)) h
      ]
  run_write-QueueIsSigned (deleted_member_to_archive m) s h =
      elim (move_deleted_member_settles c l m s) [
        | inl (pb, rest, p) ↦
            Shrinks-IsSigned s _ (λ k. inl (p.frame membership_queue k refl refl)) h
        | inr same ↦ Shrinks-IsSigned s _ (λ k. inl (same membership_queue k)) h
      ]

  -- If every record in the queue of new members that decodes carries a scan of the signed agreement
  -- and names its approver, this still holds after any sequence of the calls of MembershipDB that
  -- write, whether or not they return errors.
  pub after_writes-QueueIsSigned :
      (ws : List Write) (s : c.State) → QueueIsSigned s → QueueIsSigned (after_writes c ws s)
  unfolding after_writes
  after_writes-QueueIsSigned [] s h = h
  after_writes-QueueIsSigned (w ∷ ws) s h =
      after_writes-QueueIsSigned ws (run_write c w s).1 (run_write-QueueIsSigned w s h)
