-- ===== src/Creator/Uids.antt =====
-- The numbers of the accounts that member_creator/member_creator.go makes.
use mathlib.Core.List.{Memᴰ}
use mathlib.Core.List.Memᴰ.{head, tail}
use membersys.Base.{
  ℕ, suc, ◌+◌, ◌^◌, ◌≤◌, ◌<◌, ◌≡◌, sym, ◌∙◌, ap, subst, Bool, true, false, ◌&&◌, Option, none, some,
  List, [], ◌∷◌, Text, codes, text_eq, ltb, if◌then◌else◌, length, arith, Option-cases, inl, inr,
}
use native.Mathlib.Nat.{le_trans}
use membersys.Decimal.{parse_uint-format_uint}
use membersys.Web.Numbers.{parse_uint}
use membersys.Membership.{MemberWithKey, Member}
use membersys.Database.{MembershipDb}
use membersys.Creator.Directory.{
  Directory, Settings, Call, searched, added, modified, deleted, moved, archived, mailed, Attribute,
  LdapConfig,
}
use membersys.Creator.Account.{account, username_of, with_id, first_value}
use membersys.Creator.Numbers.{next_uid, highest_of, highest_uid}
use membersys.Creator.Run.{
  World, create_account, promote, create_one, create_all, welcome, join_groups, account_for,
  promote_if, create_for,
}
use membersys.Creator.Rules.{
  Triple, pure-Triple, bind-Triple, adapt-Triple, ask-Triple, move-Triple, for_each_group-Triple,
  from_start, given-Triple,
}

abbrev larger : ℕ → ℕ → ℕ
larger greatest n = if ltb greatest n then n else greatest

larger-bounds : (greatest n : ℕ) → (greatest ≤ larger greatest n) × (n ≤ larger greatest n)
larger-bounds greatest n = ground arith

highest_of-grows : (uids : List Text) (greatest : ℕ) → greatest ≤ highest_of uids greatest
unfolding highest_of
highest_of-grows [] greatest = omega arith
highest_of-grows (uid ∷ uids) greatest = elim (Option-cases (parse_uint uid)) [
  | inl e ↦ rw (e, highest_of) (highest_of-grows uids greatest)
  | inr (n, e) ↦
      rw (e, highest_of)
        (le_trans (larger-bounds greatest n).0 (highest_of-grows uids (larger greatest n)))
]

highest_of-bounds :
    (uids : List Text) (greatest : ℕ) (uid : Text) (n : ℕ)
    → Memᴰ uid uids
    → parse_uint uid ≡ some n
    → n ≤ highest_of uids greatest
unfolding highest_of
highest_of-bounds [] greatest uid n h e = elim h [ ]
highest_of-bounds (u ∷ uids) greatest uid n (head f) e =
    rw (ap parse_uint (sym f) ∙ e, highest_of)
      (le_trans (larger-bounds greatest n).1 (highest_of-grows uids (larger greatest n)))
highest_of-bounds (u ∷ uids) greatest uid n (tail h) e = elim (Option-cases (parse_uint u)) [
  | inl f ↦ rw (f, highest_of) (highest_of-bounds uids greatest uid n h e)
  | inr (m, f) ↦ rw (f, highest_of) (highest_of-bounds uids (larger greatest m) uid n h e)
]

highest_uid-grows :
    (entries : List (List Text)) (greatest : ℕ) → greatest ≤ highest_uid entries greatest
unfolding highest_uid
highest_uid-grows [] greatest = omega arith
highest_uid-grows (uids ∷ entries) greatest =
    omega
      (arith, highest_of-grows uids greatest, highest_uid-grows entries (highest_of uids greatest))

-- The number that the search ends with is at least every number that it found and could read.
pub highest_uid-bounds :
    (entries : List (List Text)) (greatest : ℕ) (uids : List Text) (uid : Text) (n : ℕ)
    → Memᴰ uids entries
    → Memᴰ uid uids
    → parse_uint uid ≡ some n
    → n ≤ highest_uid entries greatest
unfolding highest_uid
highest_uid-bounds [] greatest uids uid n h k e = elim h [ ]
highest_uid-bounds (us ∷ entries) greatest uids uid n (head f) k e = omega (
  arith,
  highest_of-bounds us greatest uid n (subst (Memᴰ uid) f k) e,
  highest_uid-grows entries (highest_of us greatest),
)
highest_uid-bounds (us ∷ entries) greatest uids uid n (tail h) k e =
    highest_uid-bounds entries (highest_of us greatest) uids uid n h k e

-- The number in the attribute uidNumber.
unfoldable pub number_in : List Attribute → Option ℕ
number_in [] = none
number_in (a ∷ attributes) =
    let rest = number_in attributes in
    if text_eq a.type_name (codes "uidNumber") then parse_uint (first_value a.values) else rest

account-number :
    (c : LdapConfig) (uid : ℕ) (user : Text) (m : Member)
    → uid < 2 ^ 64
    → number_in (account c uid user m).attributes ≡ some uid
unfolding number_in account text_eq
account-number c uid user m b = parse_uint-format_uint uid b

-- The accounts asked for, the last first, have falling numbers, above `low` and at most `high`.
abbrev pub Falling : ℕ → ℕ → List Call → Type 0
Falling low high [] = low ≤ high
Falling low high (added request done ∷ calls) =
    (n : ℕ) × (number_in request.attributes ≡ some (suc n)) × (suc n ≤ high) × Falling low n calls
Falling low high (_ ∷ calls) = Falling low high calls

Falling-step :
    (low high : ℕ) (calls : List Call) → Falling low high calls → Falling low (suc high) calls
Falling-step low high [] h = omega arith
Falling-step low high (added request done ∷ calls) (n, e, b, h) = (n, e, omega arith, h)
Falling-step low high (searched filter found ∷ calls) h = Falling-step low high calls h
Falling-step low high (modified m done ∷ calls) h = Falling-step low high calls h
Falling-step low high (deleted dn done ∷ calls) h = Falling-step low high calls h
Falling-step low high (moved r done ∷ calls) h = Falling-step low high calls h
Falling-step low high (archived r done ∷ calls) h = Falling-step low high calls h
Falling-step low high (mailed m done ∷ calls) h = Falling-step low high calls h

next_uid-suc : (greatest : ℕ) → suc greatest < 2 ^ 64 → next_uid greatest ≡ suc greatest
unfolding next_uid
next_uid-suc greatest b = omega arith

module _ (db : MembershipDb) (ld : Directory) (set : Settings) (low : ℕ) where
  abbrev Below : ℕ → List Call → Type 0
  Below = Falling low

  -- However the loop ended.
  abbrev Ended : List Call → Type 0
  Ended calls = (high : ℕ) × Below high calls

  promote-Below :
      (high : ℕ) (r : MemberWithKey)
      → Triple (Below high) (promote db ld set r) (λ _. Below high) Ended
  unfolding promote
  promote-Below high r =
      bind-Triple
        (move-Triple (db.move_new_member_to_full_member r) (moved r) (λ done calls h. h)
          λ calls h. (high, h))
        λ done. greet (done && set.has_welcome)
    where
      greet : (b : Bool) → Triple (Below high) (welcome db ld set r b) (λ _. Below high) Ended
      greet false = pure-Triple tt λ calls h. h
      greet true =
          bind-Triple (ask-Triple (ld.send_mail r.member) (mailed r.member) λ done calls h. h)
            λ sent. pure-Triple tt λ calls h. h

  join_groups-Below :
      (high : ℕ) (user : Text) (made : Bool)
      → Triple (Below high) (join_groups db ld set user made) (λ _. Below high) Ended
  join_groups-Below high user false = pure-Triple false λ calls h. h
  join_groups-Below high user true =
      bind-Triple (for_each_group-Triple _ _ λ request done calls h. h)
        λ u. pure-Triple true λ calls h. h

  account_for-Below :
      (greatest : ℕ) (r : MemberWithKey) (noop : Bool)
      → suc greatest < 2 ^ 64
      → Triple
          (Below greatest)
          (account_for db ld set (suc greatest) r noop)
          (λ _. Below (suc greatest))
          Ended
  unfolding account_for create_account
  account_for-Below greatest r true b =
      pure-Triple true λ calls h. Falling-step low greatest calls h
  account_for-Below greatest r false b =
      bind-Triple
        (ask-Triple _ (added (account set.ldap (suc greatest) (username_of r) r.member))
          λ done calls h. (
            greatest,
            account-number set.ldap (suc greatest) (username_of r) r.member b,
            omega arith,
            h,
          ))
        λ done. join_groups-Below (suc greatest) (username_of r) done

  promote_if-Below :
      (high : ℕ) (r : MemberWithKey) (made : Bool)
      → Triple (Below high) (promote_if db ld set r made) (λ _. Below high) Ended
  promote_if-Below high r false = pure-Triple tt λ calls h. h
  promote_if-Below high r true = promote-Below high r

  -- A round gives the number on, or the next one.
  abbrev GoesOn : ℕ → ℕ → List Call → Type 0
  GoesOn greatest uid calls = (uid ≤ suc greatest) × Below uid calls

  create_for-Below :
      (greatest : ℕ) (r : MemberWithKey) (username : Option Text)
      → suc greatest < 2 ^ 64
      → Triple (Below greatest) (create_for db ld set greatest r username) (GoesOn greatest) Ended
  create_for-Below greatest r none b =
      bind-Triple (promote-Below greatest r) λ u. pure-Triple greatest λ calls h. (omega arith, h)
  create_for-Below greatest r (some user) b = rw (next_uid-suc greatest b) (
      bind-Triple (account_for-Below greatest r set.noop b) λ made.
        bind-Triple (promote_if-Below (suc greatest) (with_id r (suc greatest)) made)
          λ u. pure-Triple (suc greatest) λ calls h. (omega arith, h))

  pub create_all-Below :
      (greatest : ℕ) (rs : List MemberWithKey)
      → greatest + length rs < 2 ^ 64
      → Triple (Below greatest) (create_all db ld set greatest rs) Below Ended
  unfolding create_all create_one
  create_all-Below greatest [] b = pure-Triple greatest λ calls h. h
  create_all-Below greatest (r ∷ rs) b =
      bind-Triple (create_for-Below greatest r r.member.username (omega arith))
        λ uid. given-Triple λ k. create_all-Below uid rs (omega arith)

-- The loop over the new members asks for accounts under rising numbers: each is above the one
-- before, and the first above the greatest number in the directory, as long as the numbers fit in 64 bits.
pub new_uids-Falling :
    (db : MembershipDb) (ld : Directory) (set : Settings) (greatest : ℕ) (rs : List MemberWithKey)
    (w : World db ld set)
    → greatest + length rs < 2 ^ 64
    → w.calls ≡ []
    → (high : ℕ) × Falling greatest high (create_all db ld set greatest rs w).1.calls
new_uids-Falling db ld set greatest rs w b e =
    from_start {q = λ calls. (high : ℕ) × Falling greatest high calls}
      (adapt-Triple (λ calls h. h) (λ uid calls h. (uid, h))
        (create_all-Below db ld set greatest greatest rs b))
      (omega arith) w e
