-- ===== src/Creator/Run.antt =====
-- The run of member_creator/member_creator.go: a call changes the database or the directory, and
-- `calls` is what has been done so far, the last first.
use membersys.Base.{
  ℕ, Bool, true, false, ◌&&◌, Option, none, some, List, [], ◌∷◌, Text, codes, pos, Action, Error,
  Result, ok, err, panic, pure, throw, plain, ◌>>=◌, ◌>>◌,
}
use membersys.Membership.{MemberWithKey}
use membersys.Database.{MembershipDb}
use membersys.Cassandra.Enumerate.{Listing}
use membersys.Creator.Directory.{
  ModifyRequest, add_values, delete_values, Directory, Call, searched, added, modified, deleted,
  moved, archived, mailed, Settings,
}
use membersys.Creator.Account.{
  ascii_filter, username_of, user_dn, group_dn, account, groups_filter, groups_differ, with_id,
}
use membersys.Creator.Numbers.{highest_uid, first_uid, accounts_filter, next_uid}

module _ (db : MembershipDb) (ld : Directory) (set : Settings) where
  -- The database, the directory, and the calls so far.
  pub record World : Type 0 where
    pub data_base : db.State
    pub directory : ld.State
    pub calls : List Call

  abbrev pub Run : Type 0 → Type 0
  Run = Action World

  -- A call of the directory.
  abbrev pub do_search : Text → Text → Run (Option (List (List Text)))
  do_search filter attribute w =
      let (r, s) = ld.search filter attribute w.directory in
      (ok r, record { data_base = w.data_base; directory = s; calls = searched filter r ∷ w.calls })

  abbrev pub ask : (ld.State → Bool × ld.State) → (Bool → Call) → Run Bool
  ask call event w =
      let (done, s) = call w.directory in
      (ok done, record { data_base = w.data_base; directory = s; calls = event done ∷ w.calls })

  -- A move of the database: whether it returned without an error. A panic ends the program.
  abbrev pub succeeded : Result (Unit {0}) → Result Bool
  succeeded (ok _) = ok true
  succeeded (err _) = ok false
  succeeded panic = panic

  abbrev pub is_ok : Result (Unit {0}) → Bool
  is_ok (ok _) = true
  is_ok _ = false

  abbrev pub move : Action db.State (Unit {0}) → (Bool → Call) → Run Bool
  move call event w =
      let (r, s) = call w.data_base in
      (
        succeeded r,
        record { data_base = s; directory = w.directory; calls = event (is_ok r) ∷ w.calls },
      )

  abbrev pub skip : Run (Unit {0})
  skip = pure tt

  -- The groups are gone through whether or not a call fails.
  unfoldable pub for_each_group : (Text → ModifyRequest) → List Text → Run (Unit {0})
  for_each_group request [] = skip
  for_each_group request (group ∷ groups) =
      ask (ld.modify (request group)) (modified (request group)) >>= λ done.
      for_each_group request groups

  -- The groups of an account that could be made.
  abbrev pub join_groups : Text → Bool → Run Bool
  join_groups user false = pure false
  join_groups user true =
      for_each_group (λ group. add_values (group_dn set.ldap group) (codes "memberUid") (user ∷ []))
        set.ldap.new_user_group
      >> pure true

  -- The account of `r` and its groups: false where the account could not be made.
  unfoldable pub create_account : ℕ → MemberWithKey → Run Bool
  create_account uid r =
      let request = account set.ldap uid (username_of r) r.member in
      ask (ld.add request) (added request) >>= λ done. join_groups (username_of r) done

  abbrev pub welcome : MemberWithKey → Bool → Run (Unit {0})
  welcome r false = skip
  welcome r true = ask (ld.send_mail r.member) (mailed r.member) >>= λ sent. skip

  -- MoveNewMemberToFullMember, and the welcome mail where it succeeded.
  unfoldable pub promote : MemberWithKey → Run (Unit {0})
  promote r = move (db.move_new_member_to_full_member r) (moved r) >>= λ done.
      welcome r (done && set.has_welcome)

  -- `continue` where the account could not be made.
  abbrev pub promote_if : MemberWithKey → Bool → Run (Unit {0})
  promote_if r false = skip
  promote_if r true = promote r

  -- A dry run makes no account.
  unfoldable pub account_for : ℕ → MemberWithKey → Bool → Run Bool
  account_for uid r true = pure true
  account_for uid r false = create_account uid r

  -- A round of the loop over the new members, for one with and one without a user name, from the
  -- greatest number so far.
  abbrev pub create_for : ℕ → MemberWithKey → Option Text → Run ℕ
  create_for greatest r none = promote r >> pure greatest
  create_for greatest r (some user) =
      let uid = next_uid greatest in
      account_for uid r set.noop >>= λ made. promote_if (with_id r uid) made >> pure uid

  unfoldable pub create_one : ℕ → MemberWithKey → Run ℕ
  create_one greatest r = create_for greatest r r.member.username

  unfoldable pub create_all : ℕ → List MemberWithKey → Run ℕ
  create_all greatest [] = pure greatest
  create_all greatest (r ∷ rs) = create_one greatest r >>= λ uid. create_all uid rs

  -- The account of `user`: taken out of the groups of new users where it is in others, deleted
  -- otherwise.
  abbrev pub remove_account : Text → Bool → Run (Unit {0})
  remove_account user true =
      for_each_group
        (λ group.
          delete_values (group_dn set.ldap group) (codes "memberUid") (ascii_filter user ∷ []))
        set.ldap.new_user_group
  remove_account user false =
      ask (ld.del (user_dn set.ldap user)) (deleted (user_dn set.ldap user)) >>= λ done. skip

  unfoldable pub archive : MemberWithKey → Run (Unit {0})
  archive r = move (db.move_deleted_member_to_archive r) (archived r) >>= λ done. skip

  -- `continue` where the search for the groups failed.
  abbrev pub remove_from : MemberWithKey → Option (List (List Text)) → Run (Unit {0})
  remove_from r none = skip
  remove_from r (some entries) =
      remove_account (username_of r) (groups_differ set.ldap entries) >> archive r

  -- A round of the loop over the leaving members, in a dry run and in another.
  unfoldable pub remove_one : Bool → MemberWithKey → Run (Unit {0})
  remove_one true r = archive r
  remove_one false r = do_search (groups_filter (username_of r)) (codes "cn") >>= remove_from r

  unfoldable pub remove_all : List MemberWithKey → Run (Unit {0})
  remove_all [] = skip
  remove_all (r ∷ rs) = remove_one set.noop r >> remove_all rs

  -- The search for the numbers in use, which a dry run leaves out.
  abbrev pub greatest_of : Option (List (List Text)) → Run ℕ
  greatest_of none = throw plain
  greatest_of (some entries) = pure (highest_uid entries first_uid)

  unfoldable pub find_greatest : Bool → Run ℕ
  find_greatest true = pure first_uid
  find_greatest false = do_search accounts_filter (codes "uidNumber") >>= greatest_of

  -- `log.Fatal` on the error of a list ends the program.
  abbrev pub or_die : Option Error → List MemberWithKey → Result (List MemberWithKey)
  or_die none requests = ok requests
  or_die (some e) requests = err plain

  abbrev pub list_or_die : (db.State → Listing MemberWithKey) → Run (List MemberWithKey)
  list_or_die list w = (or_die (list w.data_base).error (list w.data_base).items, w)

  -- `main` after the connections.
  unfoldable pub run_creator : Run ℕ
  run_creator = find_greatest set.noop >>= λ greatest.
      list_or_die (db.enumerate_queued_members [] (pos 0)) >>= λ requests.
      create_all greatest requests >>= λ last.
      list_or_die (db.enumerate_de_queued_members [] (pos 0)) >>= λ leaving.
      remove_all leaving >> pure last
