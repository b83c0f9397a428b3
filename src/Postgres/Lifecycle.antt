-- ===== src/Postgres/Lifecycle.antt =====
-- What becomes of a record of db/pgsql.go over any sequence of calls.
use membersys.Base.{
  ◌≡◌, ◌⊎◌, inl, inr, refl, sym, subst, Bool, true, false, Bool-cases, Option, none, some, List, [],
  ◌∷◌, Text, codes, ℤ,
}
use membersys.Decimal.{parse_int}
use membersys.Postgres.Sql.{Sql}
use membersys.Postgres.Register.{
  same_id, StatusLaws, Change, calls, after_change, after_changes, settle, renew, to_trash,
  to_full_member, to_archive, to_new_member, applicant_to_trash, queued_to_trash, fee, long_value,
  bool_value, text_value, agreement,
}
use membersys.Postgres.Refinement.{calls-refine}

-- The statuses that follow the application.
pub data IsLater : Text → Type 0 where
  in_creation : IsLater (codes "IN_CREATION")
  active : IsLater (codes "ACTIVE")
  in_deletion : IsLater (codes "IN_DELETION")
  archived : IsLater (codes "ARCHIVED")

-- The status of a record: the one it began with, or a later one.
abbrev pub HasMovedOn : Text → Option Text → Type 0
HasMovedOn first status = (status ≡ some first) ⊎ ((t : Text) × (status ≡ some t) × IsLater t)

settle-HasMovedOn :
    (first : Text) (id : Option ℤ) (t : Text) (k : ℤ) (old : Option Text)
    → IsLater t
    → HasMovedOn first old
    → HasMovedOn first (settle id t k old)
settle-HasMovedOn first none t k old later h = h
settle-HasMovedOn first (some id) t k old later h = elim (Bool-cases (same_id id k)) [
  | inl e ↦ inr (t, rw e (renewed old h), later)
  | inr e ↦ rw e h
]
  where
    renewed : (old : Option Text) → HasMovedOn first old → renew t old ≡ some t
    renewed none (inl e) = absurd (cc e)
    renewed none (inr h) = absurd (cc h.1)
    renewed (some u) h = refl

after_change-HasMovedOn :
    (first : Text) (c : Change) (succeeded : Bool) (k : ℤ) (old : Option Text)
    → HasMovedOn first old
    → HasMovedOn first (after_change c succeeded k old)
after_change-HasMovedOn first c false k old h = h
after_change-HasMovedOn first (to_trash id initiator reason) true k old h =
    settle-HasMovedOn first (parse_int id) _ k old in_deletion h
after_change-HasMovedOn first (to_full_member m) true k old h =
    settle-HasMovedOn first (parse_int m.key) _ k old active h
after_change-HasMovedOn first (to_archive m) true k old h =
    settle-HasMovedOn first (parse_int m.key) _ k old archived h
after_change-HasMovedOn first (to_new_member id initiator) true k old h =
    settle-HasMovedOn first (parse_int id) _ k old in_creation h
after_change-HasMovedOn first (applicant_to_trash id initiator) true k old h =
    settle-HasMovedOn first (parse_int id) _ k old archived h
after_change-HasMovedOn first (queued_to_trash id initiator) true k old h =
    settle-HasMovedOn first (parse_int id) _ k old archived h
after_change-HasMovedOn first (fee id value yearly) true k old h = h
after_change-HasMovedOn first (long_value id field value) true k old h = h
after_change-HasMovedOn first (bool_value id field value) true k old h = h
after_change-HasMovedOn first (text_value id field value) true k old h = h
after_change-HasMovedOn first (agreement id scan) true k old h = h

after_changes-HasMovedOn :
    (first : Text) (cs : List Change) (oks : List Bool) (k : ℤ) (old : Option Text)
    → HasMovedOn first old
    → HasMovedOn first (after_changes cs oks k old)
unfolding after_changes
after_changes-HasMovedOn first [] oks k old h = h
after_changes-HasMovedOn first (c ∷ cs) [] k old h = h
after_changes-HasMovedOn first (c ∷ cs) (r ∷ oks) k old h =
    after_changes-HasMovedOn first cs oks k (after_change c r k old)
      (after_change-HasMovedOn first c r k old h)

-- A record is never taken out of the table, and its status is the one it had or one of IN_CREATION, ACTIVE,
-- IN_DELETION and ARCHIVED: one that has left the applications does not come back to them.
pub record-HasMovedOn :
    (p : Sql) (status_at : p.State → ℤ → Option Text) (cs : List Change) (s : p.State) (k : ℤ)
    (first : Text)
    → StatusLaws p status_at
    → status_at s k ≡ some first
    → HasMovedOn first (status_at (calls p cs s).1 k)
record-HasMovedOn p status_at cs s k first laws e =
    subst (HasMovedOn first) (sym (calls-refine p status_at cs s k laws))
      (after_changes-HasMovedOn first cs (calls p cs s).0 k (status_at s k) (inl e))
