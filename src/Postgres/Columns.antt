-- ===== src/Postgres/Columns.antt =====
-- fullRowToMembershipAgreement of db/pgsql.go: which column of the table each field comes from.
use membersys.Base.{
  ◌≡◌, refl, ap, sym, subst, ◌∙◌, Option, none, some, List, [], ◌∷◌, map, Text, codes, ℤ,
}
use mathlib.Core.Option.{some_inj}
use membersys.Membership.{Member, MembershipMetadata, MembershipAgreement}
use membersys.Postgres.Sql.{Sql}
use membersys.Postgres.Row.{
  Scan, ◌>>=◌, take, complete, scan_member, scan_metadata, all_columns, scan_columns,
  full_row_to_membership_agreement,
}

module _ (p : Sql) (cell : Text → p.Cell) where
  open p use {to_text, to_uint, to_bool, to_int}

  -- Each field of the member is what the cell of its column converts to.
  pub record MemberColumns (m : Member) : Type 0 where
    pub id_column : to_uint (cell (codes "id")) ≡ some m.id
    pub name_column : to_text (cell (codes "name")) ≡ some m.name
    pub street_column : to_text (cell (codes "street")) ≡ some m.street
    pub city_column : to_text (cell (codes "city")) ≡ some m.city
    pub zipcode_column : to_text (cell (codes "zipcode")) ≡ some m.zipcode
    pub country_column : to_text (cell (codes "country")) ≡ some m.country
    pub email_column : to_text (cell (codes "email")) ≡ some m.email
    pub email_verified_column : to_bool (cell (codes "email_verified")) ≡ some m.email_verified
    pub phone_column : to_text (cell (codes "phone")) ≡ some m.phone
    pub fee_column : to_uint (cell (codes "fee")) ≡ some m.fee
    pub username_column : to_text (cell (codes "username")) ≡ some m.username
    pub pwhash_column : to_text (cell (codes "pwhash")) ≡ some m.pwhash
    pub fee_yearly_column : to_bool (cell (codes "fee_yearly")) ≡ some m.fee_yearly
    pub has_key_column : to_bool (cell (codes "has_key")) ≡ some m.has_key
    pub payments_caught_up_to_column :
        to_uint (cell (codes "payments_caught_up_to")) ≡ some m.payments_caught_up_to

  pub record MetadataColumns (d : MembershipMetadata) : Type 0 where
    pub request_timestamp_column :
        to_uint (cell (codes "request_timestamp")) ≡ some d.request_timestamp
    pub request_source_ip_column :
        to_text (cell (codes "request_source_ip")) ≡ some d.request_source_ip
    pub verification_email_column :
        to_text (cell (codes "verification_email")) ≡ some d.verification_email
    pub approval_timestamp_column :
        to_uint (cell (codes "approval_timestamp")) ≡ some d.approval_timestamp
    pub approver_uid_column : to_text (cell (codes "approver_uid")) ≡ some d.approver_uid
    pub comment_column : to_text (cell (codes "request_comment")) ≡ some d.comment
    pub user_agent_column : to_text (cell (codes "user_agent")) ≡ some d.user_agent
    pub goodbye_timestamp_column :
        to_uint (cell (codes "goodbye_timestamp")) ≡ some d.goodbye_timestamp
    pub goodbye_initiator_column :
        to_text (cell (codes "goodbye_initiator")) ≡ some d.goodbye_initiator
    pub goodbye_reason_column : to_text (cell (codes "goodbye_reason")) ≡ some d.goodbye_reason

  -- The agreement and the scan id that a row is read as.
  abbrev pub ReadsAs : MembershipAgreement → ℤ → Type 0
  ReadsAs a id =
      (m : Member) × (d : MembershipMetadata) × MemberColumns m
      × MetadataColumns d
      × (to_int (cell (codes "agreement_scan_id")) ≡ some id)
      × (a ≡ record { agreement_pdf = []; member_data = some m; metadata = some d })

  -- A scan that succeeds has converted the first cell, or run its first part.
  first_cell :
      {A B G : Type 0} (convert : p.Cell → Option A) (c : p.Cell) (cells : List p.Cell)
      (f : A → Scan p.Cell B) (b : B × List p.Cell)
      → (take convert >>= f) (c ∷ cells) ≡ some b
      → ((a : A) → convert c ≡ some a → f a cells ≡ some b → G)
      → G
  unfolding ◌>>=◌ take
  first_cell {A} {B} {G} convert c cells f b e next = go (convert c) e next
    where
      go :
          (o : Option A)
          → ◌≡◌ {A = Option (B × List p.Cell)}
              (elim (elim o as (λ x. Option (A × List p.Cell)) [
                | none ↦ none
                | some a ↦ some (a, cells)
              ]) [ none ↦ none | some r ↦ f r.0 r.1 ])
              (some b)
          → ((a : A) → o ≡ some a → f a cells ≡ some b → G)
          → G
      go none k next = absurd (cc k)
      go (some a) k next = next a refl k

  first_part :
      {A B G : Type 0} (m : Scan p.Cell A) (cells : List p.Cell) (f : A → Scan p.Cell B)
      (b : B × List p.Cell)
      → (m >>= f) cells ≡ some b
      → ((r : A × List p.Cell) → m cells ≡ some r → f r.0 r.1 ≡ some b → G)
      → G
  unfolding ◌>>=◌
  first_part {A} {B} {G} m cells f b e next = go (m cells) e next
    where
      go :
          (o : Option (A × List p.Cell))
          → ◌≡◌ {A = Option (B × List p.Cell)}
              (elim o [ none ↦ none | some r ↦ f r.0 r.1 ])
              (some b)
          → ((r : A × List p.Cell) → o ≡ some r → f r.0 r.1 ≡ some b → G)
          → G
      go none k next = absurd (cc k)
      go (some r) k next = next r refl k

  columns_of_member :
      (rest : List p.Cell) (r : Member × List p.Cell)
      → scan_member p (
          cell (codes "id")
          ∷ cell (codes "name")
          ∷ cell (codes "street")
          ∷ cell (codes "city")
          ∷ cell (codes "zipcode")
          ∷ cell (codes "country")
          ∷ cell (codes "email")
          ∷ cell (codes "email_verified")
          ∷ cell (codes "phone")
          ∷ cell (codes "fee")
          ∷ cell (codes "fee_yearly")
          ∷ cell (codes "username")
          ∷ cell (codes "pwhash")
          ∷ cell (codes "has_key")
          ∷ cell (codes "payments_caught_up_to")
          ∷ rest)
        ≡ some r
      → MemberColumns r.0 × (r.1 ≡ rest)
  unfolding scan_member
  columns_of_member rest r e = first_cell _ _ _ _ _ e λ v0 k0 e0.
      first_cell _ _ _ _ _ e0 λ v1 k1 e1. first_cell _ _ _ _ _ e1 λ v2 k2 e2.
        first_cell _ _ _ _ _ e2 λ v3 k3 e3. first_cell _ _ _ _ _ e3 λ v4 k4 e4.
          first_cell _ _ _ _ _ e4 λ v5 k5 e5. first_cell _ _ _ _ _ e5 λ v6 k6 e6.
            first_cell _ _ _ _ _ e6 λ v7 k7 e7. first_cell _ _ _ _ _ e7 λ v8 k8 e8.
              first_cell _ _ _ _ _ e8 λ v9 k9 e9. first_cell _ _ _ _ _ e9 λ v10 k10 e10.
                first_cell _ _ _ _ _ e10 λ v11 k11 e11. first_cell _ _ _ _ _ e11 λ v12 k12 e12.
                  first_cell _ _ _ _ _ e12 λ v13 k13 e13. first_cell _ _ _ _ _ e13 λ v14 k14 e14.
                    let q = some_inj.0 e14 in
                    (
                      subst (λ (x : Member × List p.Cell). MemberColumns x.0) q
                          (record {
                            id_column = k0;
                            name_column = k1;
                            street_column = k2;
                            city_column = k3;
                            zipcode_column = k4;
                            country_column = k5;
                            email_column = k6;
                            email_verified_column = k7;
                            phone_column = k8;
                            fee_column = k9;
                            username_column = k11;
                            pwhash_column = k12;
                            fee_yearly_column = k10;
                            has_key_column = k13;
                            payments_caught_up_to_column = k14;
                          }),
                      ap (λ (x : Member × List p.Cell). x.1) (sym q),
                    )

  columns_of_metadata :
      (rest : List p.Cell) (r : MembershipMetadata × List p.Cell)
      → scan_metadata p (
          cell (codes "request_timestamp")
          ∷ cell (codes "request_source_ip")
          ∷ cell (codes "verification_email")
          ∷ cell (codes "approval_timestamp")
          ∷ cell (codes "approver_uid")
          ∷ cell (codes "request_comment")
          ∷ cell (codes "user_agent")
          ∷ cell (codes "goodbye_timestamp")
          ∷ cell (codes "goodbye_initiator")
          ∷ cell (codes "goodbye_reason")
          ∷ rest)
        ≡ some r
      → MetadataColumns r.0 × (r.1 ≡ rest)
  unfolding scan_metadata
  columns_of_metadata rest r e = first_cell _ _ _ _ _ e λ v0 k0 e0.
      first_cell _ _ _ _ _ e0 λ v1 k1 e1. first_cell _ _ _ _ _ e1 λ v2 k2 e2.
        first_cell _ _ _ _ _ e2 λ v3 k3 e3. first_cell _ _ _ _ _ e3 λ v4 k4 e4.
          first_cell _ _ _ _ _ e4 λ v5 k5 e5. first_cell _ _ _ _ _ e5 λ v6 k6 e6.
            first_cell _ _ _ _ _ e6 λ v7 k7 e7. first_cell _ _ _ _ _ e7 λ v8 k8 e8.
              first_cell _ _ _ _ _ e8 λ v9 k9 e9.
                let q = some_inj.0 e9 in
                (
                  subst (λ (x : MembershipMetadata × List p.Cell). MetadataColumns x.0) q
                      (record {
                        request_timestamp_column = k0;
                        request_source_ip_column = k1;
                        verification_email_column = k2;
                        approval_timestamp_column = k3;
                        approver_uid_column = k4;
                        comment_column = k5;
                        user_agent_column = k6;
                        goodbye_timestamp_column = k7;
                        goodbye_initiator_column = k8;
                        goodbye_reason_column = k9;
                      }),
                  ap (λ (x : MembershipMetadata × List p.Cell). x.1) (sym q),
                )

  columns_of_scan :
      (r : (MembershipAgreement × ℤ) × List p.Cell)
      → scan_columns p (map cell all_columns) ≡ some r
      → ReadsAs r.0.0 r.0.1
  unfolding scan_columns
  columns_of_scan r e = first_part (scan_member p) _ _ _ e λ m k e1.
      first_part (scan_metadata p) _ _ _ e1 λ d l e2.
        let (mc, mr) = columns_of_member _ m k in
        let (dc, dr) =
          columns_of_metadata _ d (subst (λ cells. scan_metadata p cells ≡ some d) mr l) in
        first_cell _ _ _ _ _ (rw dr at e2) λ id c e3.
          let q = some_inj.0 e3 in
          (
            m.0,
            d.0,
            mc,
            dc,
            c ∙ ap (λ (x : (MembershipAgreement × ℤ) × List p.Cell). some x.0.1) q,
            ap (λ (x : (MembershipAgreement × ℤ) × List p.Cell). x.0.0) (sym q),
          )

complete-some :
    {C A : Type 0} (o : Option (A × List C)) (a : A)
    → complete o ≡ some a
    → (r : A × List C) × (o ≡ some r) × (r.0 ≡ a)
complete-some none a e = absurd (cc e)
complete-some (some (b, [])) a e = ((b, []), refl, some_inj.0 e)
complete-some (some (b, c ∷ cells)) a e = absurd (cc e)

-- A row that is read has given each field what its own column holds.
pub full_row-ReadsAs :
    (p : Sql) (cell : Text → p.Cell) (a : MembershipAgreement) (id : ℤ)
    → full_row_to_membership_agreement p (map cell all_columns) ≡ some (a, id)
    → ReadsAs p cell a id
unfolding full_row_to_membership_agreement
full_row-ReadsAs p cell a id e =
    let (r, k, q) = complete-some (scan_columns p (map cell all_columns)) (a, id) e in
    subst (λ (x : MembershipAgreement × ℤ). ReadsAs p cell x.0 x.1) q (columns_of_scan p cell r k)
