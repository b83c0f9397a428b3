-- ===== src/Postgres/Register.antt =====
-- The table of members as a register: the status of each id. What the methods of db/pgsql.go promise of
-- it, and what they rely on of PostgreSQL.
use membersys.Base.{
  ℕ, ◌≡◌, Bool, true, false, Option, none, some, List, [], ◌∷◌, Text, Bytes, codes, text_eq, ◌==◌,
  if◌then◌else◌, ℤ, pos, negsuc, Result, ok,
}
use membersys.Decimal.{parse_int}
use membersys.Membership.{MemberWithKey}
use membersys.Postgres.Sql.{Sql, Param, text, Statement, update_member, insert_scan}
use membersys.Postgres.Edits.{
  set_member_fee, set_long_value, set_bool_value, set_text_value, store_membership_agreement,
}
use membersys.Postgres.Moves.{
  move_member_to_trash, move_new_member_to_full_member, move_deleted_member_to_archive,
  move_applicant_to_new_member, move_applicant_to_trash, move_queued_record_to_trash,
}

abbrev pub same_id : ℤ → ℤ → Bool
same_id (pos m) (pos n) = m == n
same_id (negsuc m) (negsuc n) = m == n
same_id _ _ = false

-- A row keeps its status, or has the new one; where there is no row there will be none.
abbrev pub renew : Text → Option Text → Option Text
renew status none = none
renew status (some old) = some status

abbrev pub status_after : Param → Option Text → Option Text
status_after (text t) old = renew t old
status_after _ old = old

abbrev pub set_status : List (Text × Param) → Option Text → Option Text
set_status [] old = old
set_status ((column, value) ∷ columns) old =
    let rest = set_status columns old in
    if text_eq column (codes "membership_status") then status_after value old else rest

-- An UPDATE changes the columns it names, in the row with its id; a statement that fails changes
-- nothing, and a new scan no member.
pub record StatusLaws (p : Sql) (status_at : p.State → ℤ → Option Text) : Type 0 where
  pub fails :
      (st : Statement) (s : p.State) (k : ℤ)
      → (p.exec st s).0 ≡ none
      → status_at (p.exec st s).1 k ≡ status_at s k
  pub updates :
      (columns : List (Text × Param)) (id : ℤ) (s : p.State) (r : Option ℤ) (k : ℤ)
      → (p.exec (update_member columns id) s).0 ≡ some r
      → status_at (p.exec (update_member columns id) s).1 k
        ≡ (if same_id id k then set_status columns (status_at s k) else status_at s k)
  pub adds_scan :
      (scan : Bytes) (s : p.State) (r : Option ℤ) (k : ℤ)
      → (p.exec (insert_scan scan) s).0 ≡ some r
      → status_at (p.exec (insert_scan scan) s).1 k ≡ status_at s k

-- The calls that change a record that is there.
pub data Change : Type 0 where
  to_trash : Text → Text → Text → Change
  to_full_member to_archive : MemberWithKey → Change
  to_new_member applicant_to_trash queued_to_trash : Text → Text → Change
  fee : Text → ℕ → Bool → Change
  long_value : Text → Text → ℕ → Change
  bool_value : Text → Text → Bool → Change
  text_value : Text → Text → Text → Change
  agreement : Text → Bytes → Change

abbrev pub call : (p : Sql) → Change → p.State → Result (Unit {0}) × p.State
call p (to_trash id initiator reason) = move_member_to_trash p id initiator reason
call p (to_full_member m) = move_new_member_to_full_member p m
call p (to_archive m) = move_deleted_member_to_archive p m
call p (to_new_member id initiator) = move_applicant_to_new_member p id initiator
call p (applicant_to_trash id initiator) = move_applicant_to_trash p id initiator
call p (queued_to_trash id initiator) = move_queued_record_to_trash p id initiator
call p (fee id value yearly) = set_member_fee p id value yearly
call p (long_value id field value) = set_long_value p id field value
call p (bool_value id field value) = set_bool_value p id field value
call p (text_value id field value) = set_text_value p id field value
call p (agreement id scan) = store_membership_agreement p id scan

-- The specification: the record that a call moves, and the status that it moves it to.
abbrev pub target : Change → Option (Text × Text)
target (to_trash id initiator reason) = some (id, codes "IN_DELETION")
target (to_full_member m) = some (m.key, codes "ACTIVE")
target (to_archive m) = some (m.key, codes "ARCHIVED")
target (to_new_member id initiator) = some (id, codes "IN_CREATION")
target (applicant_to_trash id initiator) = some (id, codes "ARCHIVED")
target (queued_to_trash id initiator) = some (id, codes "ARCHIVED")
target _ = none

abbrev pub settle : Option ℤ → Text → ℤ → Option Text → Option Text
settle none status k old = old
settle (some id) status k old = if same_id id k then renew status old else old

abbrev pub move_to : Option (Text × Text) → ℤ → Option Text → Option Text
move_to none k old = old
move_to (some (id, status)) k old = settle (parse_int id) status k old

-- The status of the record `k` after a move that succeeded, and after one that did not.
abbrev pub after_move : Bool → Option (Text × Text) → ℤ → Option Text → Option Text
after_move false moves k old = old
after_move true moves k old = move_to moves k old

abbrev pub after_change : Change → Bool → ℤ → Option Text → Option Text
after_change c succeeded k old = after_move succeeded (target c) k old

abbrev pub is_ok : Result (Unit {0}) → Bool
is_ok (ok _) = true
is_ok _ = false

-- Calls one after another, and which of them succeeded.
unfoldable pub calls : (p : Sql) → List Change → p.State → List Bool × p.State
calls p [] s = ([], s)
calls p (c ∷ cs) s =
    let (r, s') = call p c s in let (oks, s'') = calls p cs s' in (is_ok r ∷ oks, s'')

-- The register after them.
unfoldable pub after_changes : List Change → List Bool → ℤ → Option Text → Option Text
after_changes [] oks k old = old
after_changes (c ∷ cs) [] k old = old
after_changes (c ∷ cs) (r ∷ oks) k old = after_changes cs oks k (after_change c r k old)
