-- ===== src/Postgres/Tests.antt =====
-- The theorems about db/pgsql.go over a table in memory, which holds one row, read through `cell`, and the
-- status of each id.
use membersys.Base.{
  ℕ, ◌≡◌, ◌≢◌, inl, inr, refl, Bool, true, false, Option, none, some, List, [], ◌∷◌, map, Text,
  codes, text_eq, if◌then◌else◌, ℤ, pos, ok, err, status, internal,
}
use membersys.Decimal.{parse_int, positive}
use membersys.Membership.{Member, MembershipAgreement, MemberWithKey, empty_member, empty_metadata}
use membersys.Cassandra.Enumerate.{close_items}
use membersys.Web.Numbers.{parse_uint, uint_from, uint_step}
use membersys.Postgres.Sql.{
  Sql, text, unsigned, boolean, Statement, insert_member, update_member, insert_scan, by_id, row,
}
use membersys.Postgres.Row.{
  all_columns, scan_member, scan_metadata, scan_columns, full_row_to_membership_agreement, take,
  ◌>>=◌,
}
use membersys.Postgres.Columns.{ReadsAs}
use membersys.Postgres.Edits.{set_long_value, set_bool_value, set_text_value}
use membersys.Postgres.Reads.{get_member, fetch_membership_agreement_pdf, found_scan, is_zero}
use membersys.Postgres.Reading.{RowsAreColumns, IsScan, get_member-ReadsAs, member_is_unreadable}
use membersys.Postgres.Register.{
  same_id, set_status, StatusLaws, Change, to_new_member, to_full_member, to_trash, text_value,
  calls, after_changes,
}
use membersys.Postgres.Refinement.{calls-refine}
use membersys.Postgres.Lifecycle.{HasMovedOn, record-HasMovedOn}
use membersys.Postgres.Setters.{
  WritesOneOf, long_columns, bool_columns, text_columns, setters-WriteOneOf,
}
use membersys.Postgres.Collect.{
  enumerate_members, Loop, collecting, returned, here, next, default, shut_items, nil_item,
  of_members, lists_return_nothing, closed_channel_never_returns,
}

abbrev Table : Type 0
Table = ℤ → Option Text

-- Every UPDATE and INSERT goes through, without a LastInsertId, as with lib/pq.
abbrev ran : Statement → Table → Option (Option ℤ) × Table
ran (insert_member columns) s = (some none, s)
ran (update_member columns id) s =
    (some none, λ k. if same_id id k then set_status columns (s k) else s k)
ran (insert_scan scan) s = (some none, s)

abbrev number_or_null : Option Text → Option (Option ℕ)
number_or_null none = some none
number_or_null (some t) = elim (parse_uint t) [ none ↦ none | some n ↦ some (some n) ]

abbrev flag_or_null : Option Text → Option (Option Bool)
flag_or_null none = some none
flag_or_null (some t) = some (some (text_eq t (codes "true")))

abbrev not_null : Option Text → Option ℤ
not_null none = none
not_null (some t) = parse_int t

abbrev table : (Text → Option Text) → Sql
table cell = record {
  State = Table;
  Cell = Option Text;
  exec = ran;
  select_member = λ columns key s. row (map cell columns);
  select_scan = λ id s. row (codes "%PDF");
  select_members = λ columns filter s. some (map cell columns ∷ []);
  to_text = λ c. some c;
  to_uint = number_or_null;
  to_bool = flag_or_null;
  to_int = not_null;
  merge_agreement = λ a. a;
  merge_member = λ m. empty_member;
}

abbrev ada_row : Text → Option Text
ada_row column =
    if text_eq column (codes "name")
    then some (codes "Ada")
    else if text_eq column (codes "agreement_scan_id")
    then some (codes "7")
    else none

-- A row whose agreement_scan_id is NULL.
abbrev unsigned_row : Text → Option Text
unsigned_row column = if text_eq column (codes "name") then some (codes "Ada") else none

abbrev status_at : (cell : Text → Option Text) → (table cell).State → ℤ → Option Text
status_at cell s k = s k

-- Ada has the id 1, and has applied.
abbrev one_application : Table
one_application k = if same_id (pos 1) k then some (codes "APPLICATION") else none

table_laws : (cell : Text → Option Text) → StatusLaws (table cell) (status_at cell)
table_laws cell = record {
  fails = λ st s k e. absurd (never st s e);
  updates = λ columns id s r k e. refl;
  adds_scan = λ scan s r k e. refl;
}
  where
    never : (st : Statement) (s : Table) → (ran st s).0 ≢ none
    never (insert_member columns) s e = cc e
    never (update_member columns id) s e = cc e
    never (insert_scan scan) s e = cc e

abbrev ada_key : MemberWithKey
ada_key = record { key = codes "1"; member = empty_member }

-- Ada is accepted, moved to the members, renamed, and leaves.
abbrev changes : List Change
changes =
    to_new_member (codes "1") (codes "admin")
    ∷ to_full_member ada_key
    ∷ text_value (codes "1") (codes "name") (codes "Ada L.")
    ∷ to_trash (codes "1") (codes "admin") (codes "moved")
    ∷ []

calls-refine_example :
    let (oks, s') = calls (table ada_row) changes one_application in
    s' (pos 1) ≡ after_changes changes oks (pos 1) (some (codes "APPLICATION"))
calls-refine_example =
    calls-refine (table ada_row) (status_at ada_row) changes one_application (pos 1)
      (table_laws ada_row)

record-HasMovedOn_example :
    HasMovedOn (codes "APPLICATION") ((calls (table ada_row) changes one_application).1 (pos 1))
record-HasMovedOn_example =
    record-HasMovedOn (table ada_row) (status_at ada_row) changes one_application (pos 1)
      (codes "APPLICATION") (table_laws ada_row) refl

setters-WriteOneOf_example :
    WritesOneOf
      (table ada_row)
      long_columns
      (codes "city")
      (unsigned 3)
      one_application
      (set_long_value (table ada_row) (codes "1") (codes "city") 3 one_application)
    × WritesOneOf
        (table ada_row)
        bool_columns
        (codes "city")
        (boolean true)
        one_application
        (set_bool_value (table ada_row) (codes "1") (codes "city") true one_application)
    × WritesOneOf
        (table ada_row)
        text_columns
        (codes "city")
        (text (codes "Bern"))
        one_application
        (set_text_value (table ada_row) (codes "1") (codes "city") (codes "Bern") one_application)
setters-WriteOneOf_example =
    setters-WriteOneOf (table ada_row) (codes "1") (codes "city") 3 true (codes "Bern")
      one_application

rows_are_columns : (cell : Text → Option Text) → RowsAreColumns (table cell)
rows_are_columns cell columns key s cells e = (cell, cc e)

abbrev ada_agreement : MembershipAgreement
ada_agreement = record {
  agreement_pdf = codes "%PDF";
  member_data = some (record empty_member { name = some (codes "Ada") });
  metadata = some empty_metadata;
}

ada_is_read :
    get_member (table ada_row) (by_id (pos 1)) one_application ≡ (ok ada_agreement, one_application)
unfolding get_member membersys.Postgres.Reads.scan_member full_row_to_membership_agreement
    scan_columns scan_member scan_metadata take ◌>>=◌ is_zero fetch_membership_agreement_pdf
    found_scan parse_int parse_uint uint_from uint_step positive text_eq
ada_is_read = refl

get_member-ReadsAs_example :
    (cell : Text → Option Text) × (id : ℤ) × ((table ada_row).select_member all_columns
        (by_id (pos 1))
        one_application
      ≡ row (map cell all_columns))
    × ReadsAs (table ada_row) cell (record ada_agreement { agreement_pdf = [] }) id
    × IsScan (table ada_row) one_application id (codes "%PDF")
get_member-ReadsAs_example =
    get_member-ReadsAs (table ada_row) (by_id (pos 1)) one_application one_application ada_agreement
      (rows_are_columns ada_row) ada_is_read

member_is_unreadable_example :
    get_member (table unsigned_row) (by_id (pos 1)) one_application
    ≡ (err (status internal), one_application)
unfolding text_eq
member_is_unreadable_example =
    member_is_unreadable (table unsigned_row) (by_id (pos 1)) one_application unsigned_row refl
      (inl refl)

lists_return_nothing_example : ◌≡◌ {A = List (Option (Option Member))} [] []
lists_return_nothing_example =
    lists_return_nothing (table ada_row) one_application (Option Member)
      (enumerate_members (table ada_row) (codes "0") (pos 10) one_application) [] none
      (of_members (codes "0") (pos 10)) (next default here)

closed_channel_never_returns_example :
    ◌≢◌ {A = Loop Member} (collecting [] false false true true (none ∷ []) none) (returned [] none)
closed_channel_never_returns_example =
    closed_channel_never_returns (close_items ∷ []) false false false true [] none
      (collecting [] false false true true (none ∷ []) none) (inr refl)
      (next shut_items (next nil_item here)) [] none
