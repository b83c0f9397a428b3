-- ===== src/Creator/Removal.antt =====
-- The loop over the leaving members: which accounts member_creator/member_creator.go deletes.
use mathlib.Core.List.{Memᴰ}
use mathlib.Core.List.Memᴰ.{head, tail}
use membersys.Base.{
  ◌≡◌, refl, Bool, true, false, ◌||◌, Option, none, some, List, [], ◌∷◌, Text, is_empty, Bool-cases,
  ◌⊎◌, All, text_eq, text_eq_iff, not, if◌then◌else◌, inl, inr,
}
use membersys.Membership.{MemberWithKey}
use membersys.Database.{MembershipDb}
use membersys.Creator.Directory.{
  Directory, Settings, Call, searched, modified, deleted, archived, LdapConfig, ModifyRequest,
}
use membersys.Creator.Account.{
  username_of, user_dn, groups_filter, groups_differ, is_among, first_value,
}
use membersys.Creator.Run.{World, remove_account, archive, remove_from, remove_one, remove_all}
use membersys.Creator.Rules.{
  Triple, pure-Triple, bind-Triple, adapt-Triple, ask-Triple, move-Triple, search-Triple,
  for_each_group-Triple, from_start,
}

-- What the loop does keeps `p`, whatever comes back, but for the deletion of an account.
pub record Keeps (p : List Call → Type 0) : Type 0 where
  pub keeps_searched :
      (filter : Text) (found : Option (List (List Text))) (calls : List Call)
      → p calls
      → p (searched filter found ∷ calls)
  pub keeps_modified :
      (m : ModifyRequest) (done : Bool) (calls : List Call) → p calls → p (modified m done ∷ calls)
  pub keeps_archived :
      (r : MemberWithKey) (done : Bool) (calls : List Call) → p calls → p (archived r done ∷ calls)

-- A group without a name, or one of those that the configuration lists.
abbrev pub IsExpected : LdapConfig → Text → Type 0
IsExpected c cn = (cn ≡ []) ⊎ (Memᴰ cn c.new_user_group ⊎ Memᴰ cn c.ignore_user_group)

is_among-Memᴰ : (cn : Text) (groups : List Text) → is_among cn groups ≡ true → Memᴰ cn groups
is_among-Memᴰ cn [] e = absurd (cc)
is_among-Memᴰ cn (group ∷ groups) e = elim (Bool-cases (text_eq cn group)) [
  | inl f ↦ head ((text_eq_iff cn group).0 f)
  | inr f ↦ tail (is_among-Memᴰ cn groups (rw f at e))
]

listed_group :
    (c : LdapConfig) (cn : Text) (rest : Bool)
    → (if is_empty cn
        then rest
        else not (is_among cn c.new_user_group || is_among cn c.ignore_user_group) || rest)
      ≡ false
    → IsExpected c cn × (rest ≡ false)
listed_group c [] rest e = (inl refl, e)
listed_group c (ch ∷ t) rest e = elim (Bool-cases (is_among (ch ∷ t) c.new_user_group)) [
  | inl f ↦ (inr (inl (is_among-Memᴰ _ _ f)), rw f at e)
  | inr f ↦ elim (Bool-cases (is_among (ch ∷ t) c.ignore_user_group)) [
    | inl g ↦ (inr (inr (is_among-Memᴰ _ _ g)), rw (f, g) at e)
    | inr g ↦ absurd (cc (rw (f, g) at e))
  ]
]

-- Groups that do not differ are expected.
groups_differ-All :
    (c : LdapConfig) (entries : List (List Text))
    → groups_differ c entries ≡ false
    → All (λ entry. IsExpected c (first_value entry)) entries
unfolding groups_differ
groups_differ-All c [] e = tt
groups_differ-All c (entry ∷ entries) e =
    let (named, rest) = listed_group c (first_value entry) (groups_differ c entries) e in
    (named, groups_differ-All c entries rest)

-- The last call searched the groups of the user with the name `dn`, and found expected ones only.
abbrev pub IsCleared : LdapConfig → Text → List Call → Type 0
IsCleared c dn calls =
    (user : Text) × (entries : List (List Text)) × (rest : List Call) × (dn ≡ user_dn c user)
    × All (λ entry. IsExpected c (first_value entry)) entries
    × (calls ≡ searched (groups_filter user) (some entries) ∷ rest)

module _ (db : MembershipDb) (ld : Directory) (set : Settings) where
  module _ (p : List Call → Type 0) (keep : Keeps p)
      (keep_deleted : (dn : Text) (done : Bool) (calls : List Call)
        → IsCleared set.ldap dn calls
        → p calls
        → p (deleted dn done ∷ calls)) where
    -- The search for the groups of `r` has just found `entries`.
    abbrev Found : MemberWithKey → Option (List (List Text)) → List Call → Type 0
    Found r found calls =
        p calls
        × ((rest : List Call) × (calls ≡ searched (groups_filter (username_of r)) found ∷ rest))

    archive-Triple : (r : MemberWithKey) → Triple p (archive db ld set r) (λ _. p) p
    unfolding archive
    archive-Triple r =
        bind-Triple
          (move-Triple (db.move_deleted_member_to_archive r) (archived r) (keep.keeps_archived r)
            (keep.keeps_archived r false))
          λ done. pure-Triple tt λ calls h. h

    remove_account-Triple :
        (r : MemberWithKey) (entries : List (List Text)) (differ : Bool)
        → groups_differ set.ldap entries ≡ differ
        → Triple
            (Found r (some entries))
            (remove_account db ld set (username_of r) differ)
            (λ _. p)
            p
    remove_account-Triple r entries true e =
        adapt-Triple (λ calls h. h.0) (λ u calls h. h)
          (for_each_group-Triple _ _ keep.keeps_modified)
    remove_account-Triple r entries false e =
        bind-Triple
          (ask-Triple (ld.del (user_dn set.ldap (username_of r)))
            (deleted (user_dn set.ldap (username_of r)))
            λ done calls h.
              keep_deleted _ done calls
                (username_of r, entries, h.1.0, refl, groups_differ-All set.ldap entries e, h.1.1)
                h.0)
          λ done. pure-Triple tt λ calls h. h

    remove_from-Triple :
        (r : MemberWithKey) (found : Option (List (List Text)))
        → Triple (Found r found) (remove_from db ld set r found) (λ _. p) p
    remove_from-Triple r none = pure-Triple tt λ calls h. h.0
    remove_from-Triple r (some entries) =
        bind-Triple (remove_account-Triple r entries (groups_differ set.ldap entries) refl)
          λ u. archive-Triple r

    remove_one-Triple :
        (noop : Bool) (r : MemberWithKey) → Triple p (remove_one db ld set noop r) (λ _. p) p
    unfolding remove_one
    remove_one-Triple true r = archive-Triple r
    remove_one-Triple false r =
        bind-Triple
          (search-Triple _ _ λ found calls h. (keep.keeps_searched _ found calls h, (calls, refl)))
          (remove_from-Triple r)

    -- The loop keeps `p`.
    pub remove_all-Triple :
        (rs : List MemberWithKey) → Triple p (remove_all db ld set rs) (λ _. p) p
    unfolding remove_all
    remove_all-Triple [] = pure-Triple tt λ calls h. h
    remove_all-Triple (r ∷ rs) =
        bind-Triple (remove_one-Triple set.noop r) λ u. remove_all-Triple rs

-- Every deletion of an account came right after a search that cleared it.
abbrev pub AllCleared : LdapConfig → List Call → Type 0
AllCleared c [] = Unit
AllCleared c (deleted dn done ∷ calls) = IsCleared c dn calls × AllCleared c calls
AllCleared c (_ ∷ calls) = AllCleared c calls

-- The loop over the leaving members deletes an account only right after a search for the groups of
-- that user which found none beyond those of new users and those to be ignored.
pub removals-AllCleared :
    (db : MembershipDb) (ld : Directory) (set : Settings) (rs : List MemberWithKey)
    (w : World db ld set)
    → w.calls ≡ []
    → AllCleared set.ldap (remove_all db ld set rs w).1.calls
removals-AllCleared db ld set rs w e =
    from_start
      (remove_all-Triple db ld set (AllCleared set.ldap) keeps (λ dn done calls c h. (c, h)) rs) tt
      w e
  where
    keeps : Keeps (AllCleared set.ldap)
    keeps = record {
      keeps_searched = λ filter found calls h. h;
      keeps_modified = λ m done calls h. h;
      keeps_archived = λ r done calls h. h;
    }
