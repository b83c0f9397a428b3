-- ===== src/Creator/Deletion.antt =====
-- A deletion by member_creator/member_creator.go that fails.
use membersys.Base.{◌≡◌, refl, inl, inr, codes, ◌>>=◌, false, some, List, ◌∷◌, Text, Result-cases}
use membersys.Membership.{MemberWithKey}
use membersys.Database.{MembershipDb}
use membersys.Creator.Directory.{Directory, Settings, searched, deleted, archived}
use membersys.Creator.Account.{groups_filter, groups_differ, user_dn, username_of}
use membersys.Creator.Run.{World, archive, remove_one, is_ok, move}

archive-calls :
    (db : MembershipDb) (ld : Directory) (set : Settings) (r : MemberWithKey) (w : World db ld set)
    → (archive db ld set r w).1.calls
      ≡ archived r (is_ok db ld set (db.move_deleted_member_to_archive r w.data_base).0) ∷ w.calls
unfolding archive
archive-calls db ld set r w =
    elim (Result-cases (db.move_deleted_member_to_archive r w.data_base).0) [
      | inl (u, k) ↦ rw (k, ◌>>=◌, move, k) refl
      | inr (inl (x, k)) ↦ rw (k, ◌>>=◌, move, k) refl
      | inr (inr k) ↦ rw (k, ◌>>=◌, move, k) refl
    ]

-- The record of a member whose account could not be deleted is archived all the same.
pub failed_deletion_archives :
    (db : MembershipDb) (ld : Directory) (set : Settings) (r : MemberWithKey) (w : World db ld set)
    (entries : List (List Text))
    → (ld.search (groups_filter (username_of r)) (codes "cn") w.directory).0 ≡ some entries
    → groups_differ set.ldap entries ≡ false
    → (ld.del
        (user_dn set.ldap (username_of r))
        (ld.search (groups_filter (username_of r)) (codes "cn") w.directory).1).0
      ≡ false
    → (remove_one db ld set false r w).1.calls
      ≡ archived r (is_ok db ld set (db.move_deleted_member_to_archive r w.data_base).0)
        ∷ deleted (user_dn set.ldap (username_of r)) false
        ∷ searched (groups_filter (username_of r)) (some entries)
        ∷ w.calls
unfolding remove_one
failed_deletion_archives db ld set r w entries e differ f =
    rw (e, differ, f) (archive-calls db ld set r _)
