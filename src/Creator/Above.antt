-- ===== src/Creator/Above.antt =====
-- That a run of member_creator/member_creator.go gives no number that its search of the directory found.
use mathlib.Core.List.{Memᴰ}
use membersys.Base.{
  ℕ, suc, ◌+◌, ◌^◌, ◌≤◌, ◌<◌, ◌≡◌, sym, ap, ◌∙◌, subst, false, Option-cases, some, inl, inr, List,
  [], ◌∷◌, Text, codes, length, pos, arith, pure, ◌>>=◌, ◌>>◌, ok,
}
use membersys.Membership.{MemberWithKey}
use membersys.Database.{MembershipDb}
use membersys.Web.Numbers.{parse_uint}
use membersys.Cassandra.Enumerate.{Listing}
use membersys.Creator.Directory.{
  Directory, Settings, Call, searched, added, modified, deleted, moved, archived, mailed,
}
use membersys.Creator.Numbers.{highest_uid, first_uid, accounts_filter}
use membersys.Creator.Run.{
  World, Run, run_creator, find_greatest, create_all, remove_all, list_or_die, or_die, do_search,
  greatest_of,
}
use membersys.Creator.Rules.{
  Triple, Ends_always, bind-eq, pure-Triple, bind-Triple, adapt-Triple, list-Triple,
}
use membersys.Creator.Removal.{remove_all-Triple}
use membersys.Creator.Uids.{Falling, number_in, highest_uid-bounds, create_all-Below}

-- Every account asked for has a number above `n`.
abbrev pub AllAbove : ℕ → List Call → Type 0
AllAbove n [] = Unit
AllAbove n (added request done ∷ calls) =
    ((m : ℕ) × (number_in request.attributes ≡ some m) × (n < m)) × AllAbove n calls
AllAbove n (_ ∷ calls) = AllAbove n calls

Falling-le : (low high : ℕ) (calls : List Call) → Falling low high calls → low ≤ high
Falling-le low high [] h = h
Falling-le low high (added request done ∷ calls) (n, e, b, h) =
    omega (arith, Falling-le low n calls h)
Falling-le low high (searched filter found ∷ calls) h = Falling-le low high calls h
Falling-le low high (modified m done ∷ calls) h = Falling-le low high calls h
Falling-le low high (deleted dn done ∷ calls) h = Falling-le low high calls h
Falling-le low high (moved r done ∷ calls) h = Falling-le low high calls h
Falling-le low high (archived r done ∷ calls) h = Falling-le low high calls h
Falling-le low high (mailed m done ∷ calls) h = Falling-le low high calls h

Falling-AllAbove :
    (n low high : ℕ) (calls : List Call) → n ≤ low → Falling low high calls → AllAbove n calls
Falling-AllAbove n low high [] k h = tt
Falling-AllAbove n low high (added request done ∷ calls) k (m, e, b, h) =
    ((suc m, e, omega (arith, Falling-le low m calls h)), Falling-AllAbove n low m calls k h)
Falling-AllAbove n low high (searched filter found ∷ calls) k h =
    Falling-AllAbove n low high calls k h
Falling-AllAbove n low high (modified m done ∷ calls) k h = Falling-AllAbove n low high calls k h
Falling-AllAbove n low high (deleted dn done ∷ calls) k h = Falling-AllAbove n low high calls k h
Falling-AllAbove n low high (moved r done ∷ calls) k h = Falling-AllAbove n low high calls k h
Falling-AllAbove n low high (archived r done ∷ calls) k h = Falling-AllAbove n low high calls k h
Falling-AllAbove n low high (mailed m done ∷ calls) k h = Falling-AllAbove n low high calls k h

module _ (db : MembershipDb) (ld : Directory) (set : Settings) where
  -- The loops of a run, from the number that the search ended with.
  abbrev loops : ℕ → List MemberWithKey → Run db ld set ℕ
  loops greatest requests = create_all db ld set greatest requests >>= λ last.
      list_or_die db ld set (db.enumerate_de_queued_members [] (pos 0)) >>= λ leaving.
      remove_all db ld set leaving >> pure last

  -- The accounts asked for have falling numbers above `low`.
  abbrev Above : ℕ → List Call → Type 0
  Above low calls = (high : ℕ) × Falling low high calls

  loops-Above :
      (greatest : ℕ) (rs : List MemberWithKey)
      → greatest + length rs < 2 ^ 64
      → Triple
          (Falling greatest greatest)
          (loops greatest rs)
          (λ _. Above greatest)
          (Above greatest)
  loops-Above greatest rs b =
      bind-Triple
        (adapt-Triple (λ calls h. h) (λ uid calls h. (uid, h))
          (create_all-Below db ld set greatest greatest rs b))
        λ last.
          bind-Triple
            (list-Triple (db.enumerate_de_queued_members [] (pos 0)) (λ l calls h. h) λ calls h. h)
            λ leaving.
              bind-Triple
                (remove_all-Triple db ld set (Above greatest)
                  (record {
                    keeps_searched = λ filter found calls h. h;
                    keeps_modified = λ m done calls h. h;
                    keeps_archived = λ r done calls h. h;
                  })
                  (λ dn done calls c h. h) leaving)
                λ u. pure-Triple last λ calls h. h

  searching : World db ld set → List (List Text) → World db ld set
  searching w entries = record {
    data_base = w.data_base;
    directory = (ld.search accounts_filter (codes "uidNumber") w.directory).1;
    calls = searched accounts_filter (some entries) ∷ w.calls;
  }

  after_search :
      (w : World db ld set) (entries : List (List Text))
      → set.noop ≡ false
      → (ld.search accounts_filter (codes "uidNumber") w.directory).0 ≡ some entries
      → find_greatest db ld set set.noop w
        ≡ (ok (highest_uid entries first_uid), searching w entries)
  unfolding find_greatest searching
  after_search w entries live found =
      ap (λ noop. find_greatest db ld set noop w) live
      ∙ bind-eq (do_search db ld set accounts_filter (codes "uidNumber")) (greatest_of db ld set) (
          ap
            (λ r. (
              ok r,
              record {
                data_base = w.data_base;
                directory = (ld.search accounts_filter (codes "uidNumber") w.directory).1;
                calls = searched accounts_filter r ∷ w.calls;
              },
            ))
            found)

  queued : World db ld set → Listing MemberWithKey
  queued w = db.enumerate_queued_members [] (pos 0) w.data_base

  from_queue : ℕ → Run db ld set ℕ
  from_queue greatest =
      list_or_die db ld set (db.enumerate_queued_members [] (pos 0)) >>= loops greatest

  queue-Above :
      (w : World db ld set) (greatest : ℕ)
      → greatest + length (queued w).items < 2 ^ 64
      → Falling greatest greatest w.calls
      → Above greatest (from_queue greatest w).1.calls
  unfolding queued from_queue
  queue-Above w greatest b h = elim (Option-cases (queued w).error) [
    | inl e ↦
        let listed =
          bind-eq (list_or_die db ld set (db.enumerate_queued_members [] (pos 0))) (loops greatest)
            (ap (λ x. (or_die db ld set x (queued w).items, w)) e) in
        subst (λ r. Above greatest r.1.calls) (sym listed)
          (Ends_always (Above greatest) _ ((loops-Above greatest (queued w).items b).holds w h))
    | inr (x, e) ↦
        let refused =
          bind-eq (list_or_die db ld set (db.enumerate_queued_members [] (pos 0))) (loops greatest)
            (ap (λ y. (or_die db ld set y (queued w).items, w)) e) in
        subst (λ r. Above greatest r.1.calls) (sym refused) (greatest, h)
  ]

  run-Above :
      (w : World db ld set) (entries : List (List Text))
      → set.noop ≡ false
      → (ld.search accounts_filter (codes "uidNumber") w.directory).0 ≡ some entries
      → highest_uid entries first_uid
          + length (db.enumerate_queued_members [] (pos 0) w.data_base).items
        < 2 ^ 64
      → w.calls ≡ []
      → Above (highest_uid entries first_uid) (run_creator db ld set w).1.calls
  unfolding run_creator queued searching from_queue
  run-Above w entries live found b e =
      let low = highest_uid entries first_uid in
      subst (λ r. Above low r.1.calls)
        (sym (
          bind-eq (find_greatest db ld set set.noop) from_queue
            (after_search w entries live found)))
        (queue-Above (searching w entries) low b (
          subst (λ calls. Falling low low (searched accounts_filter (some entries) ∷ calls)) (sym e)
            (omega arith)))

-- A run that is not dry, and whose search of the directory gives `entries`, asks for no account under
-- a number in them, as long as the numbers fit in 64 bits: each is above every number found.
pub new_uids-AllAbove :
    (db : MembershipDb) (ld : Directory) (set : Settings) (w : World db ld set)
    (entries : List (List Text))
    → set.noop ≡ false
    → (ld.search accounts_filter (codes "uidNumber") w.directory).0 ≡ some entries
    → highest_uid entries first_uid
        + length (db.enumerate_queued_members [] (pos 0) w.data_base).items
      < 2 ^ 64
    → w.calls ≡ []
    → (uids : List Text) (uid : Text) (n : ℕ) → Memᴰ uids entries
    → Memᴰ uid uids
    → parse_uint uid ≡ some n
    → AllAbove n (run_creator db ld set w).1.calls
new_uids-AllAbove db ld set w entries live found b e uids uid n h k f =
    let (high, falling) = run-Above db ld set w entries live found b e in
    Falling-AllAbove n (highest_uid entries first_uid) high (run_creator db ld set w).1.calls
      (highest_uid-bounds entries first_uid uids uid n h k f) falling
