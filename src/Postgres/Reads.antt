-- ===== src/Postgres/Reads.antt =====
-- The methods of db/pgsql.go that read one record.
use membersys.Base.{
  zero, Bool, true, false, Option, none, some, List, Text, Bytes, ℤ, pos, Action, Result, ok, err,
  panic, status, not_found, internal,
}
use membersys.Membership.{MembershipAgreement}
use membersys.Postgres.Sql.{Sql, Key, by_id, by_username, Found, no_rows, failed, row}
use membersys.Postgres.Row.{all_columns, full_row_to_membership_agreement}
use membersys.Decimal.{parse_int}
use membersys.Postgres.Edits.{parsed}

-- `agreementId != 0`.
unfoldable pub is_zero : ℤ → Bool
is_zero (pos zero) = true
is_zero _ = false

-- An error of Scan other than sql.ErrNoRows.
abbrev pub scan_result : {A : Type 0} → Option A → Result A
scan_result none = err (status internal)
scan_result (some a) = ok a

module _ (p : Sql) where
  open p use {State, Cell, select_member, select_scan}

  -- The row and the error of its Scan.
  unfoldable pub scan_member : Found (List Cell) → Result (MembershipAgreement × ℤ)
  scan_member no_rows = err (status not_found)
  scan_member failed = err (status internal)
  scan_member (row cells) = scan_result (full_row_to_membership_agreement p cells)

  unfoldable pub found_scan : Found Bytes → Result Bytes
  found_scan no_rows = err (status not_found)
  found_scan failed = err (status internal)
  found_scan (row pdf) = ok pdf

  unfoldable pub fetch_membership_agreement_pdf : ℤ → State → Result Bytes
  fetch_membership_agreement_pdf id s = found_scan (select_scan id s)

  abbrev pub with_pdf : MembershipAgreement → Result Bytes → Result MembershipAgreement
  with_pdf member (ok pdf) = ok (record member { agreement_pdf = pdf })
  with_pdf member (err e) = err e
  with_pdf member panic = panic

  -- The scan is fetched where the row names one.
  abbrev pub with_scan : MembershipAgreement → ℤ → Bool → State → Result MembershipAgreement
  with_scan member agreement_id true s = ok member
  with_scan member agreement_id false s =
      with_pdf member (fetch_membership_agreement_pdf agreement_id s)

  abbrev pub read_member : Result (MembershipAgreement × ℤ) → State → Result MembershipAgreement
  read_member (ok r) s = with_scan r.0 r.1 (is_zero r.1) s
  read_member (err e) s = err e
  read_member panic s = panic

  -- What GetMemberDetailByUsername and GetMemberDetail have in common. A SELECT changes nothing.
  unfoldable pub get_member : Key → Action State MembershipAgreement
  get_member key s = (read_member (scan_member (select_member all_columns key s)) s, s)

  unfoldable pub get_member_detail_by_username : Text → Action State MembershipAgreement
  get_member_detail_by_username username = get_member (by_username username)

  abbrev pub detail_at : Result ℤ → Action State MembershipAgreement
  detail_at (ok id) s = get_member (by_id id) s
  detail_at (err e) s = (err e, s)
  detail_at panic s = (panic, s)

  unfoldable pub get_member_detail : Text → Action State MembershipAgreement
  get_member_detail id s = detail_at (parsed (parse_int id)) s

  unfoldable pub get_membership_request : Text → Action State MembershipAgreement
  get_membership_request id = get_member_detail id
