-- ===== src/Cassandra/Move/Leaving.antt =====
-- MoveMemberToTrash of db/cassandra.go: a member that leaves goes to the queue of departing members.
use membersys.Base.{ℕ, ◌≡◌, refl, ◌⊎◌, inl, inr, true, Option-cases, some, Text, Bytes, ok, arith}
use membersys.Membership.{MembershipAgreement, MembershipMetadata}
use membersys.Cassandra.Session.{Session, members, membership_dequeue, found, quorum, Scan-cases}
use membersys.Cassandra.Access.{member_key}
use membersys.Cassandra.Move.{say_goodbye, with_metadata, move_batch, move_member_to_trash}
use membersys.Cassandra.Move.Moving.{Dismissed, batch_moves, batch-Moved, separate}
use membersys.Cassandra.Laws.{Laws}
use membersys.Cassandra.Laws.Batches.{Unchanged}

module _ (c : Session) (l : Laws c) (now : ℕ) (id initiator reason : Text) (s : c.State) where
  abbrev new_key : Bytes
  new_key = c.uuid_bytes (c.uuid_from_time now)

  -- Whatever MoveMemberToTrash returns, the record has moved to the departing members, with who
  -- ended the membership, when and why, and no further row has changed, or no row has changed.
  pub move_member_to_trash_settles :
      let s' = (move_member_to_trash c now id initiator reason s).1 in
      Dismissed c l now initiator reason (member_key id) new_key s s' ⊎ Unchanged c l s s'
  unfolding move_member_to_trash
  move_member_to_trash_settles = elim (Scan-cases (c.scan_key quorum members (member_key id) s)) [
    | inl (stored, scan) ↦ elim (Option-cases (c.unmarshal stored)) [
      | inl e ↦ inr (λ t k. ground arith)
      | inr (a, decoded) ↦ elim (Option-cases a.metadata) [
        | inl e ↦ inr (λ t k. ground arith)
        | inr (meta, has_meta) ↦
            elim (Option-cases
              (c.marshal (with_metadata a (say_goodbye initiator reason now meta)))) [
                | inl e ↦ inr (λ t k. ground arith)
                | inr (pb, encoded) ↦
                    let batch = move_batch members (member_key id) membership_dequeue new_key pb in
                    let ends : (move_member_to_trash c now id initiator reason s).1
                        ≡ (c.execute_batch batch s).1 =
                      ground arith in
                    rw ends
                      (elim (batch_moves members (member_key id) membership_dequeue new_key pb refl
                        c l s stored a (with_metadata a (say_goodbye initiator reason now meta))
                        (l.scan_found members (member_key id) stored s scan) decoded encoded) [
                          | inl moved ↦ inl (record {
                            agreement = a;
                            meta = meta;
                            has_meta = has_meta;
                            moved = moved;
                          })
                          | inr same ↦ inr same
                        ])
              ]
      ]
    ]
    | inr (inl e) ↦ inr (λ t k. ground arith)
    | inr (inr e) ↦ inr (λ t k. ground arith)
  ]

  leaving_steps :
      {s' : c.State}
      → move_member_to_trash c now id initiator reason s ≡ (ok tt, s')
      → (stored : Bytes) × (a : MembershipAgreement) × (meta : MembershipMetadata) × (pb : Bytes)
        × (c.scan_key quorum members (member_key id) s ≡ found stored)
        × (c.unmarshal stored ≡ some a)
        × (a.metadata ≡ some meta)
        × (c.marshal (with_metadata a (say_goodbye initiator reason now meta)) ≡ some pb)
        × (c.execute_batch (move_batch members (member_key id) membership_dequeue new_key pb) s
            ≡ (true, s'))
  unfolding move_member_to_trash
  leaving_steps h = ground arith

  -- MoveMemberToTrash that returns nil has moved the member's record out of the members, with who
  -- ended the membership, when and why in its metadata, and has changed no other row.
  pub move_member_to_trash-ok :
      {s' : c.State}
      → move_member_to_trash c now id initiator reason s ≡ (ok tt, s')
      → Dismissed c l now initiator reason (member_key id) new_key s s'
  move_member_to_trash-ok {s'} h =
      let (stored, a, meta, pb, scan, decoded, has_meta, encoded, done) = leaving_steps h in
      record {
        agreement = a;
        meta = meta;
        has_meta = has_meta;
        moved =
            batch-Moved members (member_key id) membership_dequeue new_key pb refl c l s s' stored a
              _ (l.scan_found members (member_key id) stored s scan) decoded encoded
              (l.batch_done (move_batch members (member_key id) membership_dequeue new_key pb) s s'
                (separate members (member_key id) membership_dequeue new_key pb refl) done);
      }
