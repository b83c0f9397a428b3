-- ===== src/Creator/Backing.antt =====
-- The loop over the new members: whom member_creator/member_creator.go moves to the members.
use mathlib.Core.List.{Memᴰ}
use mathlib.Core.List.Memᴰ.{head, tail}
use membersys.Base.{
  pos, ℕ, ◌≡◌, ◌⊎◌, refl, sym, ap, inl, inr, Bool, true, false, ◌&&◌, Option, none, some, List, [],
  ◌∷◌, Text,
}
use membersys.Membership.{MemberWithKey}
use membersys.Database.{MembershipDb}
use membersys.Creator.Directory.{Directory, Settings, Call, added, moved, mailed, LdapConfig}
use membersys.Creator.Account.{account, username_of, with_id}
use membersys.Creator.Numbers.{next_uid, first_uid}
use membersys.Creator.Run.{
  World, create_account, promote, create_one, create_all, welcome, join_groups, account_for,
  promote_if, create_for, find_greatest, greatest_of, run_creator,
}
use membersys.Creator.Removal.{remove_all-Triple}
use membersys.Creator.Rules.{
  Triple, pure-Triple, bind-Triple, adapt-Triple, ask-Triple, move-Triple, search-Triple,
  list-Triple, from_start, for_each_group-Triple,
}

-- `r` has no user name, or an account was made for it under its number.
abbrev pub IsBacked : LdapConfig → MemberWithKey → List Call → Type 0
IsBacked c r earlier =
    (r.member.username ≡ none)
    ⊎ ((uid : ℕ) × (r.member.id ≡ some uid)
        × Memᴰ (added (account c uid (username_of r) r.member) true) earlier)

-- Every record that was moved to the members was backed then. The last call is the first.
abbrev pub AllBacked : LdapConfig → List Call → Type 0
AllBacked c [] = Unit
AllBacked c (moved r done ∷ calls) = IsBacked c r calls × AllBacked c calls
AllBacked c (_ ∷ calls) = AllBacked c calls

module _ (db : MembershipDb) (ld : Directory) (set : Settings) where
  abbrev Backed : List Call → Type 0
  Backed = AllBacked set.ldap

  -- The account of `r` under `uid` is there.
  abbrev Made : ℕ → MemberWithKey → List Call → Type 0
  Made uid r calls = Memᴰ (added (account set.ldap uid (username_of r) r.member) true) calls

  -- Where the account could be made.
  abbrev MadeIf : ℕ → MemberWithKey → Bool → List Call → Type 0
  MadeIf uid r made calls = Backed calls × (made ≡ true → Made uid r calls)

  welcome-Triple :
      (r : MemberWithKey) (b : Bool) → Triple Backed (welcome db ld set r b) (λ _. Backed) Backed
  welcome-Triple r false = pure-Triple tt λ calls h. h
  welcome-Triple r true =
      bind-Triple (ask-Triple (ld.send_mail r.member) (mailed r.member) λ done calls h. h)
        λ sent. pure-Triple tt λ calls h. h

  promote-Triple :
      (r : MemberWithKey)
      → Triple
          (λ calls. Backed calls × IsBacked set.ldap r calls)
          (promote db ld set r)
          (λ _. Backed)
          Backed
  unfolding promote
  promote-Triple r =
      bind-Triple
        (move-Triple (db.move_new_member_to_full_member r) (moved r) (λ done calls h. (h.1, h.0))
          λ calls h. (h.1, h.0))
        λ done. welcome-Triple r (done && set.has_welcome)

  join_groups-Triple :
      (uid : ℕ) (r : MemberWithKey) (made : Bool)
      → Triple
          (MadeIf uid r made)
          (join_groups db ld set (username_of r) made)
          (MadeIf uid r)
          Backed
  join_groups-Triple uid r false = pure-Triple false λ calls h. h
  join_groups-Triple uid r true =
      bind-Triple (for_each_group-Triple _ _ λ request done calls h. (h.0, λ e. tail (h.1 e)))
        λ u. pure-Triple true λ calls h. h

  create_account-Triple :
      (uid : ℕ) (r : MemberWithKey)
      → Triple Backed (create_account db ld set uid r) (MadeIf uid r) Backed
  unfolding create_account
  create_account-Triple uid r =
      bind-Triple
        (ask-Triple _ (added (account set.ldap uid (username_of r) r.member)) λ done calls h.
          (h, λ e. head (ap (added (account set.ldap uid (username_of r) r.member)) (sym e))))
        λ done. join_groups-Triple uid r done

  promote_if-Triple :
      (uid : ℕ) (r : MemberWithKey) (made : Bool)
      → Triple (MadeIf uid r made) (promote_if db ld set (with_id r uid) made) (λ _. Backed) Backed
  unfolding account
  promote_if-Triple uid r false = pure-Triple tt λ calls h. h.0
  promote_if-Triple uid r true =
      adapt-Triple (λ calls h. (h.0, inr (uid, refl, h.1 refl))) (λ u calls h. h)
        (promote-Triple (with_id r uid))

  account_for-Triple :
      (uid : ℕ) (r : MemberWithKey) (noop : Bool)
      → noop ≡ false
      → Triple Backed (account_for db ld set uid r noop) (MadeIf uid r) Backed
  unfolding account_for
  account_for-Triple uid r true live = absurd (cc)
  account_for-Triple uid r false live = create_account-Triple uid r

  create_for-Triple :
      (greatest : ℕ) (r : MemberWithKey) (username : Option Text)
      → set.noop ≡ false
      → r.member.username ≡ username
      → Triple Backed (create_for db ld set greatest r username) (λ _. Backed) Backed
  create_for-Triple greatest r none live e =
      bind-Triple (adapt-Triple (λ calls h. (h, inl e)) (λ u calls h. h) (promote-Triple r))
        λ u. pure-Triple greatest λ calls h. h
  create_for-Triple greatest r (some user) live e =
      bind-Triple (account_for-Triple (next_uid greatest) r set.noop live) λ made.
        bind-Triple (promote_if-Triple (next_uid greatest) r made)
          λ u. pure-Triple (next_uid greatest) λ calls h. h

  create_all-Triple :
      (greatest : ℕ) (rs : List MemberWithKey)
      → set.noop ≡ false
      → Triple Backed (create_all db ld set greatest rs) (λ _. Backed) Backed
  unfolding create_all create_one
  create_all-Triple greatest [] live = pure-Triple greatest λ calls h. h
  create_all-Triple greatest (r ∷ rs) live =
      bind-Triple (create_for-Triple greatest r r.member.username live refl)
        λ uid. create_all-Triple uid rs live

  find_greatest-Triple :
      (noop : Bool) → Triple Backed (find_greatest db ld set noop) (λ _. Backed) Backed
  unfolding find_greatest
  find_greatest-Triple true = pure-Triple first_uid λ calls h. h
  find_greatest-Triple false = bind-Triple (search-Triple _ _ λ found calls h. h) greatest_of-Triple
    where
      greatest_of-Triple :
          (found : Option (List (List Text)))
          → Triple Backed (greatest_of db ld set found) (λ _. Backed) Backed
      greatest_of-Triple none = record { holds = λ w h. h }
      greatest_of-Triple (some entries) = pure-Triple _ λ calls h. h

  run_creator-Triple : set.noop ≡ false → Triple Backed (run_creator db ld set) (λ _. Backed) Backed
  unfolding run_creator
  run_creator-Triple live = bind-Triple (find_greatest-Triple set.noop) λ greatest.
      bind-Triple
        (list-Triple (db.enumerate_queued_members [] (pos 0)) (λ l calls h. h) λ calls h. h)
        λ requests. bind-Triple (create_all-Triple greatest requests live) λ last.
          bind-Triple
            (list-Triple (db.enumerate_de_queued_members [] (pos 0)) (λ l calls h. h) λ calls h. h)
            λ leaving.
              bind-Triple
                (remove_all-Triple db ld set Backed
                  (record {
                    keeps_searched = λ filter found calls h. h;
                    keeps_modified = λ m done calls h. h;
                    keeps_archived = λ r done calls h. h;
                  })
                  (λ dn done calls c h. h) leaving)
                λ u. pure-Triple last λ calls h. h

-- A run that is not dry moves a record with a user name to the members only after it has made
-- an account for it, under the number that the record is moved with.
pub moved_members-AllBacked :
    (db : MembershipDb) (ld : Directory) (set : Settings) (w : World db ld set)
    → set.noop ≡ false
    → w.calls ≡ []
    → AllBacked set.ldap (run_creator db ld set w).1.calls
moved_members-AllBacked db ld set w live e = from_start (run_creator-Triple db ld set live) tt w e
