-- ===== src/Creator/Loops.antt =====
-- What the two loops of member_creator/member_creator.go move in a dry run.
use membersys.Base.{
  ℕ, ◌≡◌, ap, ◌>>=◌, ◌>>◌, pure, Bool, true, false, ◌&&◌, Option, none, some, List, [], ◌∷◌, Text,
}
use membersys.Membership.{MemberWithKey}
use membersys.Database.{MembershipDb}
use membersys.Creator.Directory.{Directory, Settings, Call, moved, archived, mailed}
use membersys.Creator.Account.{with_id}
use membersys.Creator.Numbers.{next_uid}
use membersys.Creator.Run.{
  archive, remove_all, remove_one, promote, promote_if, create_for, create_one, create_all,
  account_for, welcome,
}
use membersys.Creator.Rules.{Triple, pure-Triple, bind-Triple, ask-Triple, move-Triple}

pub data Destination : Type 0 where
  to_members to_archive : Destination

-- Where records were moved to, with their keys, the last first.
unfoldable pub moves : List Call → List (Destination × Text)
moves [] = []
moves (moved r done ∷ calls) = (to_members, r.key) ∷ moves calls
moves (archived r done ∷ calls) = (to_archive, r.key) ∷ moves calls
moves (_ ∷ calls) = moves calls

-- The moves of all of `rs` to `d`, the last first, before `earlier`.
unfoldable pub all_to :
    Destination → List MemberWithKey → List (Destination × Text) → List (Destination × Text)
all_to d [] earlier = earlier
all_to d (r ∷ rs) earlier = all_to d rs ((d, r.key) ∷ earlier)

-- No call but moves and mails.
abbrev pub IsUntouched : List Call → Type 0
IsUntouched [] = Unit
IsUntouched (moved r done ∷ calls) = IsUntouched calls
IsUntouched (archived r done ∷ calls) = IsUntouched calls
IsUntouched (mailed m done ∷ calls) = IsUntouched calls
IsUntouched (_ ∷ calls) = ⊥

-- The records moved so far are `earlier`, and the directory was asked for nothing.
abbrev pub HasMoved : List (Destination × Text) → List Call → Type 0
HasMoved earlier calls = (moves calls ≡ earlier) × IsUntouched calls

module _ (db : MembershipDb) (ld : Directory) (set : Settings) where
  promote-HasMoved :
      (earlier : List (Destination × Text)) (r : MemberWithKey)
      → Triple
          (HasMoved earlier)
          (promote db ld set r)
          (λ _. HasMoved ((to_members, r.key) ∷ earlier))
          IsUntouched
  unfolding promote moves
  promote-HasMoved earlier r =
      bind-Triple {q = λ _. HasMoved ((to_members, r.key) ∷ earlier)}
        (move-Triple (db.move_new_member_to_full_member r) (moved r)
          (λ done calls h. (ap (λ ks. (to_members, r.key) ∷ ks) h.0, h.1)) λ calls h. h.1)
        λ done. greet (done && set.has_welcome)
    where
      greet :
          (b : Bool)
          → Triple
              (HasMoved ((to_members, r.key) ∷ earlier))
              (welcome db ld set r b)
              (λ _. HasMoved ((to_members, r.key) ∷ earlier))
              IsUntouched
      greet false = pure-Triple tt λ calls h. h
      greet true =
          bind-Triple {q = λ _. HasMoved ((to_members, r.key) ∷ earlier)}
            (ask-Triple (ld.send_mail r.member) (mailed r.member) λ done calls h. h)
            λ sent. pure-Triple tt λ calls h. h

  create_for-HasMoved :
      (earlier : List (Destination × Text)) (greatest : ℕ) (r : MemberWithKey)
      (username : Option Text)
      → set.noop ≡ true
      → Triple
          (HasMoved earlier)
          (create_for db ld set greatest r username)
          (λ _. HasMoved ((to_members, r.key) ∷ earlier))
          IsUntouched
  unfolding account_for
  create_for-HasMoved earlier greatest r none dry =
      bind-Triple (promote-HasMoved earlier r) λ u. pure-Triple greatest λ calls h. h
  create_for-HasMoved earlier greatest r (some user) dry = made_up set.noop dry
    where
      made_up :
          (noop : Bool)
          → noop ≡ true
          → Triple
              (HasMoved earlier)
              (account_for db ld set (next_uid greatest) r noop >>= λ made.
                promote_if db ld set (with_id r (next_uid greatest)) made
                >> pure (next_uid greatest))
              (λ _. HasMoved ((to_members, r.key) ∷ earlier))
              IsUntouched
      made_up false e = absurd (cc)
      made_up true e =
          bind-Triple (promote-HasMoved earlier (with_id r (next_uid greatest)))
            λ u. pure-Triple (next_uid greatest) λ calls h. h

  pub create_all-HasMoved :
      (earlier : List (Destination × Text)) (greatest : ℕ) (rs : List MemberWithKey)
      → set.noop ≡ true
      → Triple
          (HasMoved earlier)
          (create_all db ld set greatest rs)
          (λ _. HasMoved (all_to to_members rs earlier))
          IsUntouched
  unfolding create_all create_one all_to
  create_all-HasMoved earlier greatest [] dry = pure-Triple greatest λ calls h. h
  create_all-HasMoved earlier greatest (r ∷ rs) dry =
      bind-Triple (create_for-HasMoved earlier greatest r r.member.username dry)
        λ uid. create_all-HasMoved ((to_members, r.key) ∷ earlier) uid rs dry

  remove_one-HasMoved :
      (earlier : List (Destination × Text)) (r : MemberWithKey) (noop : Bool)
      → noop ≡ true
      → Triple
          (HasMoved earlier)
          (remove_one db ld set noop r)
          (λ _. HasMoved ((to_archive, r.key) ∷ earlier))
          IsUntouched
  unfolding remove_one archive moves
  remove_one-HasMoved earlier r false dry = absurd (cc)
  remove_one-HasMoved earlier r true dry =
      bind-Triple {q = λ _. HasMoved ((to_archive, r.key) ∷ earlier)}
        (move-Triple (db.move_deleted_member_to_archive r) (archived r)
          (λ done calls h. (ap (λ ks. (to_archive, r.key) ∷ ks) h.0, h.1)) λ calls h. h.1)
        λ done. pure-Triple tt λ calls h. h

  pub remove_all-HasMoved :
      (earlier : List (Destination × Text)) (rs : List MemberWithKey)
      → set.noop ≡ true
      → Triple
          (HasMoved earlier)
          (remove_all db ld set rs)
          (λ _. HasMoved (all_to to_archive rs earlier))
          IsUntouched
  unfolding remove_all all_to
  remove_all-HasMoved earlier [] dry = pure-Triple tt λ calls h. h
  remove_all-HasMoved earlier (r ∷ rs) dry =
      bind-Triple (remove_one-HasMoved earlier r set.noop dry)
        λ u. remove_all-HasMoved ((to_archive, r.key) ∷ earlier) rs dry
