-- ===== src/Cassandra/Edit/Saving.antt =====
-- What a setter of db/cassandra.go that ended without an error has read and written.
use membersys.Base.{
  ◌≡◌, refl, ◌∙◌, ◌⊎◌, inl, inr, true, false, Option-cases, Result-cases, Option, some, List, Text,
  Bytes, codes, text_eq, Result, ok, err, Error, IsOk, Code, arith,
}
use membersys.Membership.{Member, MembershipAgreement}
use membersys.Cassandra.Session.{
  Session, Table, members, member_agreements, found, Value, blob, quorum, Scan-cases,
}
use membersys.Cassandra.Cast.{lookup}
use membersys.Cassandra.Access.{member_key}
use membersys.Cassandra.Edit.{with_member, set_value, write_back_batch}
use membersys.Cassandra.Laws.Batches.{text_eq_self, Unchanged, Applied, batch_settles}
use membersys.Cassandra.Laws.{Laws, same_row, apply_batch, is_separate}

module _ (c : Session) (l : Laws c) where
  -- The row of the member `id` holds the agreement `a`.
  pub record Holds (id : Text) (a : MembershipAgreement) (s : c.State) : Type 0 where
    pub stored : Bytes
    pub in_members : l.pb_data s members (member_key id) ≡ some stored
    pub decodes : c.unmarshal stored ≡ some a

  -- Both rows of the member `id` hold `a`, and no other row has changed since `s`.
  pub record Saved (id : Text) (a : MembershipAgreement) (s s' : c.State) : Type 0 where
    pub stored : Bytes
    pub decodes : c.unmarshal stored ≡ some a
    pub in_members : l.pb_data s' members (member_key id) ≡ some stored
    pub in_agreements : l.pb_data s' member_agreements (member_key id) ≡ some stored
    pub frame :
        (t : Table) (k : Bytes)
        → same_row members (member_key id) t k ≡ false
        → same_row member_agreements (member_key id) t k ≡ false
        → l.pb_data s' t k ≡ l.pb_data s t k

  -- A successful setter loaded an agreement, edited its member data and saved the outcome.
  pub record Edited (id : Text) (edit : Option Member → Result Member) (s s' : c.State)
      : Type 0 where
    pub agreement : MembershipAgreement
    pub edited : Member
    pub before : Holds id agreement s
    pub by_edit : edit agreement.member_data ≡ ok edited
    pub after : Saved id (with_member agreement edited) s s'

module _ (id : Text) (columns : List (Text × Value)) (pb : Bytes)
    (carries : lookup (codes "pb_data") columns ≡ some (blob pb)) (old : Option Bytes) where
  batch_members : apply_batch (write_back_batch id columns pb) members (member_key id) old ≡ some pb
  unfolding write_back_batch
  batch_members = rw (text_eq_self (member_key id)) (rw carries)

  batch_agreements :
      apply_batch (write_back_batch id columns pb) member_agreements (member_key id) old ≡ some pb
  unfolding write_back_batch lookup text_eq
  batch_agreements = rw (text_eq_self id)

  batch_frame :
      (t : Table) (k : Bytes)
      → same_row members (member_key id) t k ≡ false
      → same_row member_agreements (member_key id) t k ≡ false
      → apply_batch (write_back_batch id columns pb) t k old ≡ old
  unfolding write_back_batch
  batch_frame t k p q = rw (q, p)

pub separate :
    (id : Text) (columns : List (Text × Value)) (pb : Bytes)
    → is_separate (write_back_batch id columns pb) ≡ true
unfolding write_back_batch
separate id columns pb = refl

module _ (c : Session) (l : Laws c) (id : Text) (edit : Option Member → Result Member) (code : Code)
    (columns : Bytes → List (Text × Value)) where
  -- What is written when the batch of `set_value` is done.
  batch-Saved :
      (a : MembershipAgreement) (pb : Bytes) (s s' : c.State)
      → lookup (codes "pb_data") (columns pb) ≡ some (blob pb)
      → c.marshal a ≡ some pb
      → Applied c l (write_back_batch id (columns pb) pb) s s'
      → Saved c l id a s s'
  batch-Saved a pb s s' carries encoded effect = record {
    stored = pb;
    decodes = l.unmarshal-marshal a pb encoded;
    in_members = effect members (member_key id) ∙ batch_members id (columns pb) pb carries _;
    in_agreements =
        effect member_agreements (member_key id) ∙ batch_agreements id (columns pb) pb carries _;
    frame = λ t k p q. effect t k ∙ batch_frame id (columns pb) pb carries _ t k p q;
  }

  Edited-by :
      (s s' : c.State)
      → ((m : Option Member) (d : Member) (pb : Bytes)
          → edit m ≡ ok d
          → lookup (codes "pb_data") (columns pb) ≡ some (blob pb))
      → (stored : Bytes) (a : MembershipAgreement) (d : Member) (pb : Bytes)
      → c.scan_key quorum members (member_key id) s ≡ found stored
      → c.unmarshal stored ≡ some a
      → edit a.member_data ≡ ok d
      → c.marshal (with_member a d) ≡ some pb
      → Applied c l (write_back_batch id (columns pb) pb) s s'
      → Edited c l id edit s s'
  Edited-by s s' carries stored a d pb scan decoded by_edit encoded applied = record {
    agreement = a;
    edited = d;
    before = record {
      stored = stored;
      in_members = l.scan_found members (member_key id) stored s scan;
      decodes = decoded;
    };
    by_edit = by_edit;
    after =
        batch-Saved (with_member a d) pb s s' (carries a.member_data d pb by_edit) encoded applied;
  }

  -- The steps that a successful call went through.
  pub set_value_steps :
      (s : c.State) {s' : c.State}
      → set_value c id edit code columns s ≡ (ok tt, s')
      → (stored : Bytes) × (a : MembershipAgreement) × (d : Member) × (pb : Bytes) × (c.scan_key
            quorum members
            (member_key id)
            s
          ≡ found stored)
        × (c.unmarshal stored ≡ some a)
        × (edit a.member_data ≡ ok d)
        × (c.marshal (with_member a d) ≡ some pb)
        × (c.execute_batch (write_back_batch id (columns pb) pb) s ≡ (true, s'))
  unfolding set_value
  set_value_steps s h = ground arith

  pub set_value-Edited :
      (s : c.State) {s' : c.State}
      → ((m : Option Member) (d : Member) (pb : Bytes)
          → edit m ≡ ok d
          → lookup (codes "pb_data") (columns pb) ≡ some (blob pb))
      → set_value c id edit code columns s ≡ (ok tt, s')
      → Edited c l id edit s s'
  set_value-Edited s {s'} carries h =
      let (stored, a, d, pb, scan, decoded, by_edit, encoded, done) = set_value_steps s h in
      let batch = write_back_batch id (columns pb) pb in
      Edited-by s s' carries stored a d pb scan decoded by_edit encoded
        (l.batch_done batch s s' (separate id (columns pb) pb) done)

  -- Whatever a setter returns, it saved its edit in full or changed no row.
  pub set_value_atomic :
      (s : c.State)
      → ((m : Option Member) (d : Member) (pb : Bytes)
          → edit m ≡ ok d
          → lookup (codes "pb_data") (columns pb) ≡ some (blob pb))
      → Edited c l id edit s (set_value c id edit code columns s).1
        ⊎ Unchanged c l s (set_value c id edit code columns s).1
  unfolding set_value
  set_value_atomic s carries = elim (Scan-cases (c.scan_key quorum members (member_key id) s)) [
    | inl (stored, scan) ↦ elim (Option-cases (c.unmarshal stored)) [
      | inl e ↦ inr (λ t k. ground arith)
      | inr (a, decoded) ↦ elim (Result-cases (edit a.member_data)) [
        | inl (d, by_edit) ↦ elim (Option-cases (c.marshal (with_member a d))) [
          | inl e ↦ inr (λ t k. ground arith)
          | inr (pb, encoded) ↦
              let batch = write_back_batch id (columns pb) pb in
              let ends : (set_value c id edit code columns s).1 ≡ (c.execute_batch batch s).1 =
                ground arith in
              rw ends (elim (batch_settles c l batch s (separate id (columns pb) pb)) [
                | inl applied ↦
                    inl (Edited-by s _ carries stored a d pb scan decoded by_edit encoded applied)
                | inr same ↦ inr same
              ])
        ]
        | inr (inl (e, e')) ↦ inr (λ t k. ground arith)
        | inr (inr e) ↦ inr (λ t k. ground arith)
      ]
    ]
    | inr (inl e) ↦ inr (λ t k. ground arith)
    | inr (inr e) ↦ inr (λ t k. ground arith)
  ]

-- An edit that is always refused: nothing is written, whatever the database answers.
pub set_value_refused :
    (c : Session) (id : Text) (edit : Option Member → Result Member) (code : Code)
    (columns : Bytes → List (Text × Value)) (s : c.State) (e : Error)
    → ((m : Option Member) → edit m ≡ err e)
    → ((set_value c id edit code columns s).1 ≡ s) × ¬ IsOk (set_value c id edit code columns s).0
unfolding set_value
set_value_refused c id edit code columns s e refused =
    elim (Scan-cases (c.scan_key quorum members (member_key id) s)) [
      | inl (stored, scan) ↦ elim (Option-cases (c.unmarshal stored)) [
        | inl undecoded ↦ ground arith
        | inr (a, decoded) ↦ ground (arith, refused a.member_data)
      ]
      | inr (inl missed) ↦ ground arith
      | inr (inr broken) ↦ ground arith
    ]
