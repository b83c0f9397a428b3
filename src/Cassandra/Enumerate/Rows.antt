-- ===== src/Cassandra/Enumerate/Rows.antt =====
-- What the entries of the lists of db/cassandra.go hold, and which rows they leave out.
use membersys.Base.{
  ◌≡◌, refl, inl, inr, Bool, true, false, ◌||◌, Bool-cases, none, Option-cases, List, [], ◌∷◌, ◌++◌,
  map, Text, ℤ, All, arith, codes, text_eq, text_eq_iff, has_prefix, to_lower, subst,
}
use membersys.Membership.{Member, MembershipAgreement, MembershipAgreementWithKey, name_of}
use membersys.Cassandra.Session.{Session, Row}
use membersys.Cassandra.Cast.{lookup, member_from_row, cast_string, cast_int64_as_uint64, cast_bool}
use membersys.Cassandra.Access.{application_prefix}
use membersys.Cassandra.Enumerate.{
  Decoded, short, broken, good, decode_row, start_key, enumerate_members, list_request,
  list_requests, enumerate_membership_requests, matches, with_key,
}
use membersys.Cassandra.Queries.{select_members, member_columns}

-- A prefix test, as an equation of texts.
has_prefix-append :
    (s prefix : Text) → has_prefix s prefix ≡ true → (rest : Text) × (s ≡ prefix ++ rest)
unfolding has_prefix
has_prefix-append s [] h = (s, refl)
has_prefix-append [] (y ∷ prefix) h = absurd (cc)
has_prefix-append (x ∷ s) (y ∷ prefix) h =
    let (rest, e) = has_prefix-append s prefix (ground arith) in (rest, ground arith)

-- The entry is asked for: its name begins with the criterion, letter case aside.
abbrev pub StartsWith : Text → MembershipAgreementWithKey → Type 0
StartsWith criterion m =
    (rest : Text) × (to_lower (name_of m.agreement.member_data) ≡ to_lower criterion ++ rest)

matches_sound :
    (c : Session) (criterion : Text) (a : MembershipAgreement)
    → matches c criterion a ≡ true
    → (rest : Text) × (to_lower (name_of a.member_data) ≡ to_lower criterion ++ rest)
unfolding to_lower
matches_sound c [] a h = (to_lower (name_of a.member_data), refl)
matches_sound c (x ∷ xs) a h =
    has_prefix-append (to_lower (name_of a.member_data)) (to_lower (x ∷ xs)) h

module _ (c : Session) (criterion : Text) where
  All-append :
      (xs ys : List MembershipAgreementWithKey)
      → All (StartsWith criterion) xs
      → All (StartsWith criterion) ys
      → All (StartsWith criterion) (xs ++ ys)
  All-append [] ys _ h = h
  All-append (x ∷ xs) ys (p, h) k = (p, All-append xs ys h k)

  request-StartsWith : (d : Decoded) → All (StartsWith criterion) (list_request c criterion d)
  unfolding list_request
  request-StartsWith short = tt
  request-StartsWith broken = tt
  request-StartsWith (good key a) =
      let m = with_key c key a in
      elim (Bool-cases (matches c criterion m.agreement)) [
        | inl e ↦ rw e (matches_sound c criterion m.agreement e, tt)
        | inr e ↦ rw e tt
      ]

  requests-StartsWith :
      (rows : List Row) → All (StartsWith criterion) (list_requests c criterion rows)
  unfolding list_requests
  requests-StartsWith [] = tt
  requests-StartsWith (row ∷ rows) =
      All-append _ _ (request-StartsWith (decode_row c application_prefix row))
        (requests-StartsWith rows)

  -- Every application that EnumerateMembershipRequests returns is in the name of somebody whose
  -- name begins with the criterion, letter case aside.
  pub enumerate_requests-StartsWith :
      (prev : Text) (num : ℤ) (s : c.State)
      → All (StartsWith criterion) (enumerate_membership_requests c criterion prev num s).items
  unfolding enumerate_membership_requests
  enumerate_requests-StartsWith prev num s =
      elim (Option-cases (start_key c application_prefix prev)) [
        | inl e ↦ rw (e, enumerate_membership_requests) tt
        | inr (start, e) ↦ rw (e, enumerate_membership_requests) (requests-StartsWith _)
      ]

abbrev pub is_listed : Text → List Text → Bool
is_listed key [] = false
is_listed key (name ∷ names) = text_eq name key || is_listed key names

-- Every column of the row is one of `columns`.
abbrev pub Has : List Text → Row → Type 0
Has columns row = All (λ e. is_listed e.0 columns ≡ true) row

lookup-none :
    (key : Text) (columns : List Text) (row : Row)
    → is_listed key columns ≡ false
    → Has columns row
    → lookup key row ≡ none
unfolding lookup
lookup-none key columns [] h _ = refl
lookup-none key columns ((k, v) ∷ row) h (listed, rest) = elim (Bool-cases (text_eq k key)) [
  | inl same ↦
      absurd (cc (subst (λ x. is_listed x columns ≡ true) ((text_eq_iff k key).0 same) listed))
  | inr other ↦ rw other (lookup-none key columns row h rest)
]

-- The parts of a member's data that a list of members does not show.
pub record IsPublic (m : Member) : Type 0 where
  pub no_pwhash : m.pwhash ≡ none
  pub no_zipcode : m.zipcode ≡ none
  pub no_id : m.id ≡ none
  pub no_email_verified : m.email_verified ≡ none

row-IsPublic : (row : Row) → Has member_columns row → IsPublic (member_from_row row)
unfolding member_from_row cast_string cast_int64_as_uint64 cast_bool text_eq
row-IsPublic row h = record {
  no_pwhash = rw (lookup-none (codes "pwhash") member_columns row refl h);
  no_zipcode = rw (lookup-none (codes "zipcode") member_columns row refl h);
  no_id = rw (lookup-none (codes "id") member_columns row refl h);
  no_email_verified = rw (lookup-none (codes "email_verified") member_columns row refl h);
}

rows-IsPublic :
    (rows : List Row) → All (Has member_columns) rows → All IsPublic (map member_from_row rows)
rows-IsPublic [] _ = tt
rows-IsPublic (row ∷ rows) (p, h) = (row-IsPublic row p, rows-IsPublic rows h)

-- If an iterator's rows have no column beside those selected, EnumerateMembers returns no password
-- hash, and no zip code, member number or verification flag either.
pub enumerate_members-IsPublic :
    (c : Session) (prev : Text) (num : ℤ) (s : c.State)
    → All (Has (select_members prev num).columns) (c.iter (select_members prev num) s).rows
    → All IsPublic (enumerate_members c prev num s).items
unfolding enumerate_members select_members
enumerate_members-IsPublic c prev num s h = rows-IsPublic _ h
