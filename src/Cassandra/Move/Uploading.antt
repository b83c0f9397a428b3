-- ===== src/Cassandra/Move/Uploading.antt =====
-- StoreMembershipAgreement and StoreMembershipRequest of db/cassandra.go: what they write.
use membersys.Base.{
  ℕ, ◌≡◌, refl, ◌⊎◌, inl, inr, false, Option-cases, Result-cases, some, List, [], ◌∷◌, ◌++◌, Text,
  Bytes, ok, err, plain, arith, text_eq, codes, ◌∙◌,
}
use membersys.Membership.{Member, MembershipAgreement, MembershipMetadata}
use membersys.Cassandra.Session.{
  Session, Table, application, one, Scan-cases, Statement, update, blob,
}
use membersys.Cassandra.Access.{application_prefix, get_membership_request}
use membersys.Cassandra.Move.{
  stamp_request, store_membership_agreement, store_membership_request, application_insert,
}
use membersys.Cassandra.Cast.{lookup}
use membersys.Cassandra.Laws.{Laws, same_row}
use membersys.Cassandra.Laws.Batches.{Unchanged, Applied, batch_settles, text_eq_self}

module _ (c : Session) (l : Laws c) (id : Text) (agreement_data : Bytes) where
  -- The application named by the UUID holds an agreement with the uploaded scan; no other row has
  -- changed.
  pub record Uploaded (uuid : c.Uuid) (a : MembershipAgreement) (s s' : c.State) : Type 0 where
    pub parsed : c.parse_uuid id ≡ some uuid
    pub loaded : get_membership_request c id s ≡ (ok a, s)
    pub written : Bytes
    pub after : l.pb_data s' application (application_prefix ++ c.uuid_bytes uuid) ≡ some written
    pub encodes : c.unmarshal written ≡ some (record a { agreement_pdf = agreement_data })
    pub frame :
        (t : Table) (k : Bytes)
        → same_row application (application_prefix ++ c.uuid_bytes uuid) t k ≡ false
        → l.pb_data s' t k ≡ l.pb_data s t k

  abbrev upload_batch : c.Uuid → Bytes → List Statement
  upload_batch uuid pb =
      update application
        ((codes "pb_data", blob pb) ∷ (codes "application_pdf", blob agreement_data) ∷ [])
        (application_prefix ++ c.uuid_bytes uuid)
      ∷ []

  batch-Uploaded :
      (uuid : c.Uuid) (a : MembershipAgreement) (pb : Bytes) (s s' : c.State)
      → c.parse_uuid id ≡ some uuid
      → get_membership_request c id s ≡ (ok a, s)
      → c.marshal (record a { agreement_pdf = agreement_data }) ≡ some pb
      → Applied c l (upload_batch uuid pb) s s'
      → Uploaded uuid a s s'
  unfolding lookup text_eq
  batch-Uploaded uuid a pb s s' parsed loaded encoded effect =
      let key = application_prefix ++ c.uuid_bytes uuid in
      record {
        parsed = parsed;
        loaded = loaded;
        written = pb;
        after = effect application key ∙ rw (text_eq_self (c.uuid_bytes uuid));
        encodes = l.unmarshal-marshal _ pb encoded;
        frame = λ t k p. effect t k ∙ rw p;
      }

  -- A read leaves the state alone.
  get_membership_request_reads : (s : c.State) → (get_membership_request c id s).1 ≡ s
  unfolding get_membership_request
  get_membership_request_reads s = elim (Option-cases (c.parse_uuid id)) [
    | inl e ↦ ground arith
    | inr (uuid, e) ↦
        elim (Scan-cases (c.scan_key one application (application_prefix ++ c.uuid_bytes uuid) s)) [
          | inl (pb, f) ↦ elim (Option-cases (c.unmarshal pb)) [
            | inl g ↦ ground arith
            | inr (a, g) ↦ ground arith
          ]
          | inr (inl f) ↦ ground arith
          | inr (inr f) ↦ ground arith
        ]
  ]

  -- Whatever StoreMembershipAgreement returns, the application that it read for the id holds the
  -- scan now, the rest of it and every other row as before, or no row has changed.
  pub store_membership_agreement_settles :
      (s : c.State)
      → let s' = (store_membership_agreement c id agreement_data s).1 in
        ((uuid : c.Uuid) × (a : MembershipAgreement) × Uploaded uuid a s s') ⊎ Unchanged c l s s'
  unfolding store_membership_agreement
  store_membership_agreement_settles s = elim (Option-cases (c.parse_uuid id)) [
    | inl e ↦ inr (λ t k. ground arith)
    | inr (uuid, parsed) ↦ elim (Result-cases (get_membership_request c id s).0) [
      | inl (a, got) ↦
          let loaded : get_membership_request c id s ≡ (ok a, s) =
            ground (arith, get_membership_request_reads s) in
          elim (Option-cases (c.marshal (record a { agreement_pdf = agreement_data }))) [
            | inl e ↦ inr (λ t k. ground arith)
            | inr (pb, encoded) ↦
                let ends : (store_membership_agreement c id agreement_data s).1
                    ≡ (c.execute_batch (upload_batch uuid pb) s).1 =
                  ground arith in
                rw ends (elim (batch_settles c l (upload_batch uuid pb) s refl) [
                  | inl applied ↦
                      inl (uuid, a, batch-Uploaded uuid a pb s _ parsed loaded encoded applied)
                  | inr same ↦ inr same
                ])
          ]
      | inr (inl (e, got)) ↦ inr (λ t k. ground (arith, get_membership_request_reads s))
      | inr (inr got) ↦ inr (λ t k. ground (arith, get_membership_request_reads s))
    ]
  ]

module _ (c : Session) (l : Laws c) where
  refused :
      (m : Member) (meta : MembershipMetadata) (pb : Bytes) (s : c.State)
      → c.exec (application_insert m meta pb) s ≡ (false, s)
  unfolding application_insert
  refused m meta pb s = l.exec_refuses (application_insert m meta pb) s (omega arith)

  -- StoreMembershipRequest lists fifteen columns and fourteen placeholders, and the server refuses
  -- such a statement: no membership request is ever stored.
  pub store_membership_request_fails :
      (now : ℕ) (m : Member) (meta : MembershipMetadata) (s : c.State)
      → let (r, s') = store_membership_request c now m meta s in (r ≡ err plain) × (s' ≡ s)
  unfolding store_membership_request
  store_membership_request_fails now m meta s =
      let stamped = stamp_request now meta in
      elim (Option-cases (
        c.marshal (record { agreement_pdf = []; member_data = some m; metadata = some stamped }))) [
          | inl e ↦ ground arith
          | inr (pb, e) ↦ ground (arith, refused m stamped pb s)
        ]
