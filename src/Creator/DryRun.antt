-- ===== src/Creator/DryRun.antt =====
-- A dry run of member_creator/member_creator.go: which records leave the queues without a change of the
-- directory.
use membersys.Base.{ℕ, ◌≡◌, refl, sym, subst, ap, ◌>>=◌, ◌>>◌, pure, true, List, [], Text, pos}
use membersys.Membership.{MemberWithKey}
use membersys.Database.{MembershipDb}
use membersys.Creator.Directory.{Directory, Settings, Call}
use membersys.Creator.Numbers.{first_uid}
use membersys.Creator.Run.{
  World, remove_all, create_all, Run, run_creator, find_greatest, list_or_die,
}
use membersys.Creator.Rules.{Triple, Ends, bind-eq, bind-Ends, list-Ends, pure-Triple, bind-Triple}
use membersys.Creator.Loops.{
  Destination, to_members, to_archive, moves, all_to, IsUntouched, HasMoved, create_all-HasMoved,
  remove_all-HasMoved,
}

module _ (db : MembershipDb) (ld : Directory) (set : Settings) where
  -- The records of the queue, as they are listed first, and of the leaving ones, as they are listed after
  -- the first loop.
  abbrev pub queued_at : World db ld set → List MemberWithKey
  queued_at w = (db.enumerate_queued_members [] (pos 0) w.data_base).items

  abbrev pub after_first : World db ld set → World db ld set
  after_first w = (create_all db ld set first_uid (queued_at w) w).1

  abbrev pub leaving_at : World db ld set → List MemberWithKey
  leaving_at w = (db.enumerate_de_queued_members [] (pos 0) (after_first w).data_base).items

  -- All of the queue was moved to the members, and then all that leave to the archive.
  abbrev AllMoved : World db ld set → ℕ → List Call → Type 0
  AllMoved w last calls =
      HasMoved (all_to to_archive (leaving_at w) (all_to to_members (queued_at w) [])) calls

  abbrev second_half : ℕ → Run db ld set ℕ
  second_half last =
      list_or_die db ld set (db.enumerate_de_queued_members [] (pos 0)) >>= λ leaving.
      remove_all db ld set leaving >> pure last

  second_half-HasMoved :
      (earlier : List (Destination × Text)) (last : ℕ) (w : World db ld set)
      → set.noop ≡ true
      → HasMoved earlier w.calls
      → Ends
          (λ _. HasMoved (
            all_to to_archive
              (db.enumerate_de_queued_members [] (pos 0) w.data_base).items
              earlier))
          IsUntouched
          (second_half last w).0
          (second_half last w).1.calls
  second_half-HasMoved earlier last w dry h =
      bind-Ends _ _ _ (list_or_die db ld set (db.enumerate_de_queued_members [] (pos 0)))
        (λ leaving. remove_all db ld set leaving >> pure last) w
        (list-Ends (HasMoved earlier) _ (db.enumerate_de_queued_members [] (pos 0)) w h h.1)
        λ leaving (e, k).
          (subst
              (λ l.
                Triple (HasMoved earlier) (remove_all db ld set leaving >> pure last)
                  (λ _. HasMoved (all_to to_archive l earlier)) IsUntouched)
              e
              (bind-Triple (remove_all-HasMoved db ld set earlier leaving dry)
                λ u. pure-Triple last λ calls h. h)).holds
            w k

  from_queue : Run db ld set ℕ
  from_queue = list_or_die db ld set (db.enumerate_queued_members [] (pos 0)) >>= λ requests.
      create_all db ld set first_uid requests >>= second_half

  both_loops-AllMoved :
      (w : World db ld set) (requests : List MemberWithKey)
      → set.noop ≡ true
      → requests ≡ queued_at w
      → HasMoved [] w.calls
      → Ends
          (AllMoved w)
          IsUntouched
          ((create_all db ld set first_uid requests >>= second_half) w).0
          ((create_all db ld set first_uid requests >>= second_half) w).1.calls
  both_loops-AllMoved w requests dry e h =
      subst
        (λ l.
          Ends (AllMoved w) IsUntouched ((create_all db ld set first_uid l >>= second_half) w).0
            ((create_all db ld set first_uid l >>= second_half) w).1.calls)
        (sym e)
        (bind-Ends _ _ _ (create_all db ld set first_uid (queued_at w)) second_half w
          ((create_all-HasMoved db ld set [] first_uid (queued_at w) dry).holds w h)
          λ last k.
            second_half-HasMoved (all_to to_members (queued_at w) []) last (after_first w) dry k)

  from_queue-AllMoved :
      (w : World db ld set)
      → set.noop ≡ true
      → HasMoved [] w.calls
      → Ends (AllMoved w) IsUntouched (from_queue w).0 (from_queue w).1.calls
  unfolding from_queue
  from_queue-AllMoved w dry h =
      bind-Ends _ _ _ (list_or_die db ld set (db.enumerate_queued_members [] (pos 0)))
        (λ requests. create_all db ld set first_uid requests >>= second_half) w
        (list-Ends (HasMoved []) _ (db.enumerate_queued_members [] (pos 0)) w h h.1)
        λ requests (e, k). both_loops-AllMoved w requests dry e k

  run_creator-from_queue :
      (w : World db ld set) → set.noop ≡ true → run_creator db ld set w ≡ from_queue w
  unfolding run_creator find_greatest from_queue
  run_creator-from_queue w dry =
      bind-eq (find_greatest db ld set set.noop)
        (λ greatest. list_or_die db ld set (db.enumerate_queued_members [] (pos 0)) >>= λ requests.
          create_all db ld set greatest requests >>= second_half)
        (ap (λ noop. find_greatest db ld set noop w) dry)

-- A dry run asks the directory for nothing. Unless a list fails or a call of the database panics, it
-- calls MoveNewMemberToFullMember for each record that the list of the queue gives and then
-- MoveDeletedMemberToArchive for each that the list of the leaving members gives after that, in their
-- order, and moves nothing else.
pub dry_run_moves :
    (db : MembershipDb) (ld : Directory) (set : Settings) (w : World db ld set)
    → set.noop ≡ true
    → w.calls ≡ []
    → Ends
        (λ _ calls.
          (moves calls
            ≡ all_to to_archive
                (leaving_at db ld set w)
                (all_to to_members (queued_at db ld set w) []))
          × IsUntouched calls)
        IsUntouched
        (run_creator db ld set w).0
        (run_creator db ld set w).1.calls
unfolding moves
dry_run_moves db ld set w dry e =
    subst
      (λ r.
        Ends
          (λ _ calls.
            (moves calls
              ≡ all_to to_archive (leaving_at db ld set w)
                  (all_to to_members (queued_at db ld set w) []))
            × IsUntouched calls)
          IsUntouched r.0 r.1.calls)
      (sym (run_creator-from_queue db ld set w dry))
      (from_queue-AllMoved db ld set w dry
        (subst (λ calls. (moves calls ≡ []) × IsUntouched calls) (sym e) (refl, tt)))
