-- ===== src/Cassandra/Move/Moving.antt =====
-- What a move of db/cassandra.go from one table to another has read and written, whatever it returns.
use membersys.Base.{
  ℕ, ◌≡◌, ◌∙◌, ◌⊎◌, inl, inr, true, false, ◌&&◌, Option-cases, Bool-cases, Option, none, some, Text,
  Bytes, ok, arith, ◌++◌, is_empty,
}
use membersys.Membership.{MembershipAgreement, MembershipMetadata}
use membersys.Cassandra.Session.{
  Session, Table, members, membership_dequeue, found, quorum, Scan-cases,
}
use membersys.Cassandra.Move.{
  is_queue, approve, say_goodbye, with_metadata, move_batch, move_record_to_table,
}
use membersys.Cassandra.Laws.Batches.{text_eq_self, Unchanged, Applied, batch_settles}
use membersys.Cassandra.Laws.{Laws, same_row, table_eq, apply_batch, is_separate}

module _ (c : Session) (l : Laws c) where
  -- The row `src_key` of `src` held the agreement `a`; the row `dst_key` of `dst` now holds `a'`,
  -- the former is gone, and no other row has changed.
  pub record Moved (src : Table) (src_key : Bytes) (dst : Table) (dst_key : Bytes)
      (a a' : MembershipAgreement) (s s' : c.State) : Type 0 where
    pub stored : Bytes
    pub before : l.pb_data s src src_key ≡ some stored
    pub decodes : c.unmarshal stored ≡ some a
    pub written : Bytes
    pub after : l.pb_data s' dst dst_key ≡ some written
    pub encodes : c.unmarshal written ≡ some a'
    pub gone : l.pb_data s' src src_key ≡ none
    pub frame :
        (t : Table) (k : Bytes)
        → same_row src src_key t k ≡ false
        → same_row dst dst_key t k ≡ false
        → l.pb_data s' t k ≡ l.pb_data s t k

module _ (src : Table) (src_key : Bytes) (dst : Table) (dst_key pb : Bytes)
    (apart : table_eq dst src ≡ false) where
  pub separate : is_separate (move_batch src src_key dst dst_key pb) ≡ true
  unfolding move_batch
  separate = rw apart

  pub batch_dst :
      (old : Option Bytes)
      → apply_batch (move_batch src src_key dst dst_key pb) dst dst_key old ≡ some pb
  unfolding move_batch
  batch_dst old = ground (arith, text_eq_self dst_key)

  pub batch_src :
      (old : Option Bytes)
      → apply_batch (move_batch src src_key dst dst_key pb) src src_key old ≡ none
  unfolding move_batch
  batch_src old = ground (arith, text_eq_self src_key)

  pub batch_frame :
      (t : Table) (k : Bytes) (old : Option Bytes)
      → same_row src src_key t k ≡ false
      → same_row dst dst_key t k ≡ false
      → apply_batch (move_batch src src_key dst dst_key pb) t k old ≡ old
  unfolding move_batch
  batch_frame t k old p q = rw (p, q)

  module _ (c : Session) (l : Laws c) (s s' : c.State) where
    pub batch-Moved :
        (stored : Bytes) (a a' : MembershipAgreement)
        → l.pb_data s src src_key ≡ some stored
        → c.unmarshal stored ≡ some a
        → c.marshal a' ≡ some pb
        → Applied c l (move_batch src src_key dst dst_key pb) s s'
        → Moved c l src src_key dst dst_key a a' s s'
    batch-Moved stored a a' before decodes encoded effect = record {
      stored = stored;
      before = before;
      decodes = decodes;
      written = pb;
      after = effect dst dst_key ∙ batch_dst _;
      encodes = l.unmarshal-marshal a' pb encoded;
      gone = effect src src_key ∙ batch_src _;
      frame = λ t k p q. effect t k ∙ batch_frame t k _ p q;
    }

  -- The batch of a move, once everything before it has gone through.
  pub batch_moves :
      (c : Session) (l : Laws c) (s : c.State) (stored : Bytes) (a a' : MembershipAgreement)
      → l.pb_data s src src_key ≡ some stored
      → c.unmarshal stored ≡ some a
      → c.marshal a' ≡ some pb
      → let s' = (c.execute_batch (move_batch src src_key dst dst_key pb) s).1 in
        Moved c l src src_key dst dst_key a a' s s' ⊎ Unchanged c l s s'
  batch_moves c l s stored a a' before decodes encoded =
      elim (batch_settles c l (move_batch src src_key dst dst_key pb) s separate) [
        | inl applied ↦ inl (batch-Moved c l s _ stored a a' before decodes encoded applied)
        | inr same ↦ inr same
      ]

module _ (c : Session) (l : Laws c) where
  -- A move of moveRecordToTable: the metadata names the approver and the time, and a record goes to
  -- the queue only with a scan of the signed agreement.
  pub record Approved (now : ℕ) (initiator : Text) (src : Table) (src_key : Bytes) (dst : Table)
      (dst_key : Bytes) (s s' : c.State) : Type 0 where
    pub agreement : MembershipAgreement
    pub meta : MembershipMetadata
    pub has_meta : agreement.metadata ≡ some meta
    pub signed : is_queue dst && is_empty agreement.agreement_pdf ≡ false
    pub moved :
        Moved c l src src_key dst dst_key agreement
          (with_metadata agreement (approve initiator now meta))
          s
          s'

  -- A move of MoveMemberToTrash: the metadata says who ended the membership, when and why.
  pub record Dismissed (now : ℕ) (initiator reason : Text) (src_key dst_key : Bytes)
      (s s' : c.State) : Type 0 where
    pub agreement : MembershipAgreement
    pub meta : MembershipMetadata
    pub has_meta : agreement.metadata ≡ some meta
    pub moved :
        Moved c l members src_key membership_dequeue dst_key agreement
          (with_metadata agreement (say_goodbye initiator reason now meta))
          s
          s'

  -- The steps that a successful move went through.
  move_steps :
      (now : ℕ) (id initiator : Text) (src : Table) (src_prefix : Bytes) (dst : Table)
      (dst_prefix : Bytes) (s : c.State) {s' : c.State}
      → move_record_to_table c now id initiator src src_prefix dst dst_prefix s ≡ (ok tt, s')
      → (stored : Bytes) × (a : MembershipAgreement) × (meta : MembershipMetadata) × (pb : Bytes)
        × (c.scan_key quorum src (src_prefix ++ id) s ≡ found stored)
        × (c.unmarshal stored ≡ some a)
        × (is_queue dst && is_empty a.agreement_pdf ≡ false)
        × (a.metadata ≡ some meta)
        × (c.marshal (with_metadata a (approve initiator now meta)) ≡ some pb)
        × (c.execute_batch (move_batch src (src_prefix ++ id) dst (dst_prefix ++ id) pb) s
            ≡ (true, s'))
  unfolding move_record_to_table
  move_steps now id initiator src src_prefix dst dst_prefix s h = ground arith

  -- Whatever moveRecordToTable to another table returns, the record has moved, with its approver
  -- and the time and, to the queue, with a scan, and no further row has changed, or no row has
  -- changed.
  pub move_record_to_table_settles :
      (now : ℕ) (id initiator : Text) (src : Table) (src_prefix : Bytes) (dst : Table)
      (dst_prefix : Bytes) (s : c.State)
      → table_eq dst src ≡ false
      → let s' = (move_record_to_table c now id initiator src src_prefix dst dst_prefix s).1 in
        Approved now initiator src (src_prefix ++ id) dst (dst_prefix ++ id) s s'
        ⊎ Unchanged c l s s'
  unfolding move_record_to_table
  move_record_to_table_settles now id initiator src src_prefix dst dst_prefix s apart =
      elim (Scan-cases (c.scan_key quorum src (src_prefix ++ id) s)) [
        | inl (stored, scan) ↦ elim (Option-cases (c.unmarshal stored)) [
          | inl e ↦ inr (λ t k. ground arith)
          | inr (a, decoded) ↦ elim (Bool-cases (is_queue dst && is_empty a.agreement_pdf)) [
            | inl e ↦ inr (λ t k. ground arith)
            | inr signed ↦ elim (Option-cases a.metadata) [
              | inl e ↦ inr (λ t k. ground arith)
              | inr (meta, has_meta) ↦
                  elim (Option-cases (c.marshal (with_metadata a (approve initiator now meta)))) [
                    | inl e ↦ inr (λ t k. ground arith)
                    | inr (pb, encoded) ↦
                        let batch = move_batch src (src_prefix ++ id) dst (dst_prefix ++ id) pb in
                        let ends : (move_record_to_table c now id initiator src src_prefix dst
                              dst_prefix s).1
                            ≡ (c.execute_batch batch s).1 =
                          ground arith in
                        rw ends
                          (elim (batch_moves src (src_prefix ++ id) dst (dst_prefix ++ id) pb apart
                            c l s stored a (with_metadata a (approve initiator now meta))
                            (l.scan_found src (src_prefix ++ id) stored s scan) decoded encoded) [
                              | inl moved ↦ inl (record {
                                agreement = a;
                                meta = meta;
                                has_meta = has_meta;
                                signed = signed;
                                moved = moved;
                              })
                              | inr same ↦ inr same
                            ])
                  ]
            ]
          ]
        ]
        | inr (inl e) ↦ inr (λ t k. ground arith)
        | inr (inr e) ↦ inr (λ t k. ground arith)
      ]

  -- moveRecordToTable to another table that returns nil has moved the record, with its approver
  -- and the time and, to the queue, with a scan; no further row has changed.
  pub move_record_to_table-ok :
      (now : ℕ) (id initiator : Text) (src : Table) (src_prefix : Bytes) (dst : Table)
      (dst_prefix : Bytes) (s : c.State) {s' : c.State}
      → table_eq dst src ≡ false
      → move_record_to_table c now id initiator src src_prefix dst dst_prefix s ≡ (ok tt, s')
      → Approved now initiator src (src_prefix ++ id) dst (dst_prefix ++ id) s s'
  move_record_to_table-ok now id initiator src src_prefix dst dst_prefix s {s'} apart h =
      let (stored, a, meta, pb, scan, decoded, signed, has_meta, encoded, done) =
        move_steps now id initiator src src_prefix dst dst_prefix s h in
      record {
        agreement = a;
        meta = meta;
        has_meta = has_meta;
        signed = signed;
        moved =
            batch-Moved src (src_prefix ++ id) dst (dst_prefix ++ id) pb apart c l s s' stored a _
              (l.scan_found src (src_prefix ++ id) stored s scan) decoded encoded
              (l.batch_done (move_batch src (src_prefix ++ id) dst (dst_prefix ++ id) pb) s s'
                (separate src (src_prefix ++ id) dst (dst_prefix ++ id) pb apart) done);
      }
