-- ===== src/Cassandra/Move/Joining.antt =====
-- MoveNewMemberToFullMember and MoveDeletedMemberToArchive of db/cassandra.go: what they write.
use membersys.Base.{
  ◌≡◌, refl, ◌⊎◌, inl, inr, true, false, Option-cases, Result-cases, none, some, List, ◌++◌, Bytes,
  ok, arith, length, ◌+◌, ◌∙◌,
}
use membersys.Membership.{MemberWithKey, text_or_empty}
use membersys.Cassandra.Session.{
  Session, Table, members, member_agreements, membership_queue, membership_dequeue,
  membership_archive, Statement,
}
use membersys.Cassandra.Access.{member_key, queue_prefix, dequeue_prefix, archive_prefix}
use membersys.Cassandra.Move.{
  move_batch, new_member_batch, move_new_member_to_full_member, move_deleted_member_to_archive,
  slice_from,
}
use membersys.Cassandra.Move.Moving.{batch_dst, batch_src, batch_frame, separate}
use membersys.Cassandra.Laws.{Laws, same_row, is_separate}
use membersys.Cassandra.Laws.Batches.{Unchanged, Applied, batch_settles, text_eq_self}

module _ (c : Session) (l : Laws c) (m : MemberWithKey) where
  abbrev email_key : Bytes
  email_key = member_key (text_or_empty m.member.email)

  -- Both rows of the new member hold `pb`; the row of the queue under the member's key is gone.
  pub record Promoted (pb : Bytes) (s s' : c.State) : Type 0 where
    pub encoded : c.marshal_member m.member ≡ some pb
    pub in_members : l.pb_data s' members email_key ≡ some pb
    pub in_agreements : l.pb_data s' member_agreements email_key ≡ some pb
    pub gone : l.pb_data s' membership_queue (queue_prefix ++ m.key) ≡ none
    pub frame :
        (t : Table) (k : Bytes)
        → same_row members email_key t k ≡ false
        → same_row member_agreements email_key t k ≡ false
        → same_row membership_queue (queue_prefix ++ m.key) t k ≡ false
        → l.pb_data s' t k ≡ l.pb_data s t k

  batch-Promoted :
      (pb : Bytes) (s s' : c.State)
      → c.marshal_member m.member ≡ some pb
      → Applied c l (new_member_batch m pb) s s'
      → Promoted pb s s'
  unfolding new_member_batch
  batch-Promoted pb s s' encoded effect = record {
    encoded = encoded;
    in_members = effect members email_key ∙ rw (text_eq_self email_key);
    in_agreements = effect member_agreements email_key ∙ rw (text_eq_self email_key);
    gone =
        effect membership_queue (queue_prefix ++ m.key) ∙ rw (text_eq_self (queue_prefix ++ m.key));
    frame = λ t k p q r. effect t k ∙ rw (r, q, p);
  }

  batch_separate : (pb : Bytes) → is_separate (new_member_batch m pb) ≡ true
  unfolding new_member_batch
  batch_separate pb = refl

  -- Whatever MoveNewMemberToFullMember returns, the encoded member stands in both tables of members, the
  -- queue has no row under the prefix followed by the text of the key of the call, and no further row
  -- has changed, or no row has changed.
  pub move_new_member_settles :
      (s : c.State)
      → let s' = (move_new_member_to_full_member c m s).1 in
        ((pb : Bytes) × Promoted pb s s') ⊎ Unchanged c l s s'
  unfolding move_new_member_to_full_member
  move_new_member_settles s = elim (Option-cases (c.marshal_member m.member)) [
    | inl e ↦ inr (λ t k. ground arith)
    | inr (pb, encoded) ↦
        let ends : (move_new_member_to_full_member c m s).1
            ≡ (c.execute_batch (new_member_batch m pb) s).1 =
          ground arith in
        rw ends (elim (batch_settles c l (new_member_batch m pb) s (batch_separate pb)) [
          | inl applied ↦ inl (pb, batch-Promoted pb s _ encoded applied)
          | inr same ↦ inr same
        ])
  ]

  joining_steps :
      (s : c.State) {s' : c.State}
      → move_new_member_to_full_member c m s ≡ (ok tt, s')
      → (pb : Bytes) × (c.marshal_member m.member ≡ some pb)
        × (c.execute_batch (new_member_batch m pb) s ≡ (true, s'))
  unfolding move_new_member_to_full_member
  joining_steps s h = ground arith

  -- After a MoveNewMemberToFullMember that returns nil the encoded member stands in both tables of
  -- members, the row of the queue under the key of the call is gone, and no further row has
  -- changed.
  pub move_new_member-ok :
      (s : c.State) {s' : c.State}
      → move_new_member_to_full_member c m s ≡ (ok tt, s')
      → (pb : Bytes) × Promoted pb s s'
  move_new_member-ok s {s'} h =
      let (pb, encoded, done) = joining_steps s h in
      (
        pb,
        batch-Promoted pb s s' encoded
            (l.batch_done (new_member_batch m pb) s s' (batch_separate pb) done),
      )

module _ (c : Session) (l : Laws c) (m : MemberWithKey) where
  -- The archive holds `pb` under what is left of the member's key, and the row of the departing
  -- members under that key is gone.
  pub record Archived (pb rest : Bytes) (s s' : c.State) : Type 0 where
    pub encoded : c.marshal_member m.member ≡ some pb
    pub sliced : slice_from (length dequeue_prefix + 1) m.key ≡ ok rest
    pub in_archive : l.pb_data s' membership_archive (archive_prefix ++ rest) ≡ some pb
    pub gone : l.pb_data s' membership_dequeue (dequeue_prefix ++ m.key) ≡ none
    pub frame :
        (t : Table) (k : Bytes)
        → same_row membership_archive (archive_prefix ++ rest) t k ≡ false
        → same_row membership_dequeue (dequeue_prefix ++ m.key) t k ≡ false
        → l.pb_data s' t k ≡ l.pb_data s t k

  abbrev archive_batch : Bytes → Bytes → List Statement
  archive_batch rest pb =
      move_batch membership_dequeue (dequeue_prefix ++ m.key) membership_archive
        (archive_prefix ++ rest) pb

  batch-Archived :
      (pb rest : Bytes) (s s' : c.State)
      → c.marshal_member m.member ≡ some pb
      → slice_from (length dequeue_prefix + 1) m.key ≡ ok rest
      → Applied c l (archive_batch rest pb) s s'
      → Archived pb rest s s'
  batch-Archived pb rest s s' encoded sliced effect =
      let src = dequeue_prefix ++ m.key in
      let dst = archive_prefix ++ rest in
      record {
        encoded = encoded;
        sliced = sliced;
        in_archive =
            effect membership_archive dst
            ∙ batch_dst membership_dequeue src membership_archive dst pb refl _;
        gone =
            effect membership_dequeue src
            ∙ batch_src membership_dequeue src membership_archive dst pb refl _;
        frame = λ t k p q.
            effect t k
            ∙ batch_frame membership_dequeue src membership_archive dst pb refl t k _ q p;
      }

  -- Whatever MoveDeletedMemberToArchive returns, a panic included, the encoded member stands in
  -- the archive under the key of the call without its first nine bytes, the row of the departing
  -- members under that key is gone and no further row has changed, or no row has changed.
  pub move_deleted_member_settles :
      (s : c.State)
      → let s' = (move_deleted_member_to_archive c m s).1 in
        ((pb : Bytes) × (rest : Bytes) × Archived pb rest s s') ⊎ Unchanged c l s s'
  unfolding move_deleted_member_to_archive
  move_deleted_member_settles s = elim (Option-cases (c.marshal_member m.member)) [
    | inl e ↦ inr (λ t k. ground arith)
    | inr (pb, encoded) ↦ elim (Result-cases (slice_from (length dequeue_prefix + 1) m.key)) [
      | inl (rest, sliced) ↦
          let ends : (move_deleted_member_to_archive c m s).1
              ≡ (c.execute_batch (archive_batch rest pb) s).1 =
            ground arith in
          rw ends
            (elim (batch_settles c l (archive_batch rest pb) s (
              separate membership_dequeue (dequeue_prefix ++ m.key) membership_archive
                (archive_prefix ++ rest) pb refl)) [
                  | inl applied ↦ inl (pb, rest, batch-Archived pb rest s _ encoded sliced applied)
                  | inr same ↦ inr same
                ])
      | inr (inl (e, e')) ↦ inr (λ t k. ground arith)
      | inr (inr e) ↦ inr (λ t k. ground arith)
    ]
  ]
