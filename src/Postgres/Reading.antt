-- ===== src/Postgres/Reading.antt =====
-- What the reads of db/pgsql.go return.
use membersys.Base.{
  ◌≡◌, ◌⊎◌, inl, inr, refl, sym, ap, subst, ◌∙◌, Bool, true, false, Option, none, some,
  Option-cases, List, [], map, Text, Bytes, codes, ℤ, Result, ok, err, panic, status, internal,
}
use membersys.Membership.{MembershipAgreement}
use membersys.Postgres.Sql.{Sql, Key, Found, no_rows, failed, row}
use membersys.Postgres.Row.{all_columns, full_row_to_membership_agreement}
use membersys.Postgres.Columns.{ReadsAs, full_row-ReadsAs}
use membersys.Postgres.Reads.{
  is_zero, scan_member, found_scan, fetch_membership_agreement_pdf, with_scan, with_pdf,
  read_member, get_member, scan_result,
}

-- A row of a SELECT has a cell for each column asked for, in that order.
abbrev pub RowsAreColumns : Sql → Type 0
RowsAreColumns p =
    (columns : List Text) (key : Key) (s : p.State) (cells : List p.Cell)
    → p.select_member columns key s ≡ row cells
    → (cell : Text → p.Cell) × (cells ≡ map cell columns)

-- The scan with this id, or none for the id 0.
abbrev pub IsScan : (p : Sql) → p.State → ℤ → Bytes → Type 0
IsScan p s id pdf = ((is_zero id ≡ true) × (pdf ≡ [])) ⊎ (p.select_scan id s ≡ row pdf)

scan_result-ok : {A : Type 0} (o : Option A) (a : A) → scan_result o ≡ ok a → o ≡ some a
scan_result-ok none a e = absurd (cc e)
scan_result-ok (some b) a e = cc e

scan_member-ok :
    (p : Sql) (found : Found (List p.Cell)) (r : MembershipAgreement × ℤ)
    → scan_member p found ≡ ok r
    → (cells : List p.Cell) × (found ≡ row cells)
      × (full_row_to_membership_agreement p cells ≡ some r)
unfolding scan_member
scan_member-ok p no_rows r e = absurd (cc e)
scan_member-ok p failed r e = absurd (cc e)
scan_member-ok p (row cells) r e = (cells, refl, scan_result-ok _ r e)

found_scan-ok :
    (p : Sql) (found : Found Bytes) (pdf : Bytes) → found_scan p found ≡ ok pdf → found ≡ row pdf
unfolding found_scan
found_scan-ok p no_rows pdf e = absurd (cc e)
found_scan-ok p failed pdf e = absurd (cc e)
found_scan-ok p (row b) pdf e = cc e

module _ (p : Sql) (s : p.State) (a : MembershipAgreement) where
  -- The member of the row, to which only the scan is added.
  abbrev HasRow : MembershipAgreement → ℤ → Type 0
  HasRow m id = IsScan p s id a.agreement_pdf × (m ≡ record a { agreement_pdf = [] })

  no_pdf : (m : MembershipAgreement) → m.agreement_pdf ≡ [] → m ≡ record m { agreement_pdf = [] }
  no_pdf m empty = ap (λ b. record m { agreement_pdf = b }) empty

  with_pdf-ok :
      (m : MembershipAgreement) (id : ℤ) (found : Result Bytes)
      → found_scan p (p.select_scan id s) ≡ found
      → m.agreement_pdf ≡ []
      → with_pdf p m found ≡ ok a
      → HasRow m id
  with_pdf-ok m id (ok pdf) k empty e =
      let q : record m { agreement_pdf = pdf } ≡ a = cc e in
      (
        inr (
            found_scan-ok p (p.select_scan id s) pdf k
            ∙ ap (λ (x : MembershipAgreement). row x.agreement_pdf) q),
        no_pdf m empty ∙ ap (λ (x : MembershipAgreement). record x { agreement_pdf = [] }) q,
      )
  with_pdf-ok m id (err x) k empty e = absurd (cc e)
  with_pdf-ok m id panic k empty e = absurd (cc e)

  with_scan-ok :
      (m : MembershipAgreement) (id : ℤ) (zero_id : Bool)
      → is_zero id ≡ zero_id
      → m.agreement_pdf ≡ []
      → with_scan p m id zero_id s ≡ ok a
      → HasRow m id
  unfolding fetch_membership_agreement_pdf
  with_scan-ok m id true z empty e =
      let q : m ≡ a = cc e in
      (
        inl (z, ap (λ (x : MembershipAgreement). x.agreement_pdf) (sym q) ∙ empty),
        no_pdf m empty ∙ ap (λ (x : MembershipAgreement). record x { agreement_pdf = [] }) q,
      )
  with_scan-ok m id false z empty e = with_pdf-ok m id _ refl empty e

  read_member-ok :
      (r : Result (MembershipAgreement × ℤ))
      → read_member p r s ≡ ok a
      → (m : MembershipAgreement) × (id : ℤ) × (r ≡ ok (m, id))
        × (with_scan p m id (is_zero id) s ≡ ok a)
  read_member-ok (ok r) e = (r.0, r.1, refl, e)
  read_member-ok (err x) e = absurd (cc e)
  read_member-ok panic e = absurd (cc e)

-- A member that is returned is read off a row, each field from its own column, with the scan that the row
-- names or none where it names the id 0.
pub get_member-ReadsAs :
    (p : Sql) (key : Key) (s s' : p.State) (a : MembershipAgreement)
    → RowsAreColumns p
    → get_member p key s ≡ (ok a, s')
    → (cell : Text → p.Cell) × (id : ℤ) × (p.select_member all_columns key s
        ≡ row (map cell all_columns))
      × ReadsAs p cell (record a { agreement_pdf = [] }) id
      × IsScan p s id a.agreement_pdf
unfolding get_member
get_member-ReadsAs p key s s' a law e =
    let found = p.select_member all_columns key s in
    let (m, id, k, f) = read_member-ok p s a (scan_member p found) (cc e) in
    let (cells, g, h) = scan_member-ok p found (m, id) k in
    let (cell, c) = law all_columns key s cells g in
    let reads =
      full_row-ReadsAs p cell m id
        (subst (λ cs. full_row_to_membership_agreement p cs ≡ some (m, id)) c h) in
    let (scan, q) =
      with_scan-ok p s a m id (is_zero id) refl
        (ap (λ (x : MembershipAgreement). x.agreement_pdf) reads.5) f in
    (cell, id, g ∙ ap row c, subst (λ x. ReadsAs p cell x id) q reads, scan)

full_row-none :
    (p : Sql) (cell : Text → p.Cell)
    → (p.to_int (cell (codes "agreement_scan_id")) ≡ none)
      ⊎ (p.to_uint (cell (codes "request_timestamp")) ≡ none)
    → full_row_to_membership_agreement p (map cell all_columns) ≡ none
full_row-none p cell bad =
    elim (Option-cases (full_row_to_membership_agreement p (map cell all_columns))) [
      | inl k ↦ k
      | inr ((a, id), k) ↦ absurd (unread (full_row-ReadsAs p cell a id k) bad)
    ]
  where
    unread :
        {a : MembershipAgreement} {id : ℤ}
        → ReadsAs p cell a id
        → (p.to_int (cell (codes "agreement_scan_id")) ≡ none)
          ⊎ (p.to_uint (cell (codes "request_timestamp")) ≡ none)
        → ⊥
    unread r (inl e) = cc (sym e ∙ r.4)
    unread r (inr e) = cc (sym e ∙ r.3.request_timestamp_column)

-- A row without a scan, whose NULL does not convert to an int64, or with a time of application that
-- does not convert to a uint64, cannot be read: the answer is codes.Internal.
pub member_is_unreadable :
    (p : Sql) (key : Key) (s : p.State) (cell : Text → p.Cell)
    → p.select_member all_columns key s ≡ row (map cell all_columns)
    → (p.to_int (cell (codes "agreement_scan_id")) ≡ none)
      ⊎ (p.to_uint (cell (codes "request_timestamp")) ≡ none)
    → get_member p key s ≡ (err (status internal), s)
unfolding get_member scan_member
member_is_unreadable p key s cell e bad = rw (e, full_row-none p cell bad) refl
