-- ===== src/Backup/Closing.antt =====
-- The runs of backup/backup.go over db/cassandra.go: their end, and what members.pb lacks.
use mathlib.Core.WellFounded.{Acc}
use membersys.Base.{
  ℕ, ◌≡◌, ap, ◌∙◌, ◌⊎◌, inl, inr, Bool, Option-cases, List, [], ◌∷◌, ◌++◌, map, Text, Bytes, codes,
  ℤ, pos, All, subst, sym,
}
use membersys.Membership.{Member}
use membersys.Database.{cassandra_db}
use membersys.Cassandra.Session.{Session, Table}
use membersys.Cassandra.Queries.{select_members, select_queued}
use membersys.Cassandra.Enumerate.{
  Event, send, report, close_items, close_errors, closing, report_close, start_key, stream_queue,
  enumerate_members, streaming_enumerate_queued_members_in, streaming_enumerate_queued_members,
  streaming_enumerate_de_queued_members, streaming_enumerate_trashed_members,
}
use membersys.Cassandra.Enumerate.Streams.{
  Streams, streaming_members-Streams, streaming_requests-Streams,
}
use membersys.Cassandra.Enumerate.Rows.{Has, IsPublic, enumerate_members-IsPublic}
use membersys.Postgres.Lists.{pass_all}
use membersys.Backup.Run.{
  of_member, of_request, of_keyed, Job, jobs, Files, Backup, returned, ◌⟶*◌, start,
}
use membersys.Backup.Copy.{content, returned-Whole}
use membersys.Backup.Stops.{After, Closes, IsOver, Moves, backup_stops}
use membersys.Backup.Listings.{entries-Streams}

module _ {A B : Type 0} (g : A → B) where
  Closes-append : (t u : List (Event A)) → Closes (pass_all g u) → Closes (pass_all g (t ++ u))
  Closes-append [] u h = h
  Closes-append (send x ∷ t) u h = Closes-append t u h
  Closes-append (report e ∷ t) u h = Closes-append t u h
  Closes-append (close_errors ∷ t) u h = Closes-append t u h
  Closes-append (close_items ∷ t) u h = tt

  Closes-closing : (t : List (Event A)) → Closes (pass_all g (t ++ closing))
  Closes-closing t = Closes-append t closing tt

  Closes-Streams : {t : List (Event A)} {l : _} → Streams t l → Closes (pass_all g t)
  Closes-Streams s = subst (λ u. Closes (pass_all g u)) (sym s.closes) (Closes-closing s.body)

-- The files after the first.
abbrev later : List Job → Files
later [] = []
later (job ∷ rest) = map content rest

module _ (c : Session) where
  Closes-queue :
      (table : Table) (prefix : Bytes) (prev : Text) (num : ℤ) (s : c.State)
      → Closes (pass_all of_keyed (streaming_enumerate_queued_members_in c table prefix prev num s))
  unfolding streaming_enumerate_queued_members_in
  Closes-queue table prefix prev num s = elim (Option-cases (start_key c prefix prev)) [
    | inl e ↦ rw (e, streaming_enumerate_queued_members_in) tt
    | inr (begin, e) ↦
        let r = c.iter (select_queued table begin num) s in
        rw (e, streaming_enumerate_queued_members_in)
          (Closes-append of_keyed (stream_queue c prefix r.rows)
            (report_close r.close_failed ++ closing)
            (Closes-closing of_keyed (report_close r.close_failed)))
  ]

  module _ (now : ℕ) (at : Text → c.State) where
    jobs-Close : All (λ job. Closes job.events) (jobs (cassandra_db c now) at)
    unfolding jobs streaming_enumerate_queued_members streaming_enumerate_de_queued_members
        streaming_enumerate_trashed_members
    jobs-Close =
        let m1 =
          Closes-Streams of_member
            (streaming_members-Streams c [] (pos 0) (at (codes "members.pb"))) in
        let m2 =
          Closes-Streams of_request
            (streaming_requests-Streams c [] [] (pos 0) (at (codes "membership_requests.pb"))) in
        (
          m1,
          (
            m2,
            (
              Closes-queue _ _ [] (pos 0) (at (codes "membership_queue.pb")),
              (
                Closes-queue _ _ [] (pos 0) (at (codes "membership_dequeue.pb")),
                (Closes-queue _ _ [] (pos 0) (at (codes "membership_archive.pb")), tt),
              ),
            ),
          ),
        )

    -- A backup over Cassandra that has come anywhere makes only finitely many steps from there, in whatever
    -- order, and until main has returned or the program was ended there is one for it to make.
    pub cassandra_backup_stops :
        {s : Backup}
        → start (jobs (cassandra_db c now) at) ⟶* s
        → Acc After s × (IsOver s ⊎ Moves s)
    cassandra_backup_stops run = backup_stops jobs-Close run

    -- Where main returns over Cassandra, and the iterator over the members has no columns beside those
    -- selected, members.pb is the first file, and no record in it has a password hash, a zip code,
    -- a member number or a verification flag.
    pub members_file-IsPublic :
        {f : Bool} {files : Files}
        → All
            (Has (select_members [] (pos 0)).columns)
            (c.iter (select_members [] (pos 0)) (at (codes "members.pb"))).rows
        → start (jobs (cassandra_db c now) at) ⟶* returned f files
        → (saved : List Member) × (rest : Files) × All IsPublic saved
          × (files ≡ (codes "members.pb", map of_member saved) ∷ rest)
    unfolding jobs
    members_file-IsPublic columns run = (
      (enumerate_members c [] (pos 0) (at (codes "members.pb"))).items,
      later (jobs (cassandra_db c now) at),
      enumerate_members-IsPublic c [] (pos 0) (at (codes "members.pb")) columns,
      (returned-Whole run).0
          ∙ ap (λ x. (codes "members.pb", x) ∷ later (jobs (cassandra_db c now) at))
              (entries-Streams of_member
                (streaming_members-Streams c [] (pos 0) (at (codes "members.pb")))),
    )
