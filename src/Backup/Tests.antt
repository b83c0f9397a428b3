-- ===== src/Backup/Tests.antt =====
-- The theorems about the backup at concrete contents of the database.
use mathlib.Core.WellFounded.{Acc}
use membersys.Base.{◌≡◌, refl, ◌⊎◌, true, false, List, [], ◌∷◌, map, Text, codes, All, text_eq}
use membersys.Membership.{Member}
use membersys.Database.{cassandra_db}
use membersys.Cassandra.Session.{Session, Table, application, members, Row}
use membersys.Cassandra.Queries.{select_members, select_applications, select_queued}
use membersys.Cassandra.Tests.Store.{Cells}
use membersys.Cassandra.Tests.Sample.{one_member, session, member_row, applicant_row}
use membersys.Cassandra.Enumerate.Rows.{IsPublic}
use membersys.Cassandra.Enumerate.{
  streaming_enumerate_queued_members_in, streaming_enumerate_queued_members,
  streaming_enumerate_de_queued_members, streaming_enumerate_trashed_members,
  streaming_enumerate_members, streaming_enumerate_membership_requests, start_key, stream_request,
  decode_row, enumerate_members, enumerate_membership_requests, list_request,
  enumerate_queued_members, enumerate_de_queued_members, enumerate_trashed_members,
  enumerate_queued_members_in,
}
use membersys.Cassandra.Cast.{cast_bytes, lookup}
use membersys.Cassandra.Enumerate.Queues.{any_short}
use membersys.Backup.Run.{
  of_member, Files, jobs, returned, create, write_message, shut_errors, close_file, finish, ◌⟶*◌,
  here, next, start,
}
use membersys.Backup.Stops.{After, IsOver, Moves}
use membersys.Backup.Listings.{snapshot, NoErrors, backup-IsComplete}
use membersys.Backup.Closing.{cassandra_backup_stops, members_file-IsPublic}

abbrev rows_of : Table → List Row
rows_of members = member_row ∷ []
rows_of application = applicant_row ∷ []
rows_of _ = []

-- A member and an applicant.
abbrev two_records : Session
two_records = record session {
  iter = λ q s. record { rows = rows_of q.table; close_failed = false };
}

abbrev at : Text → Cells
at file = one_member

whole_run :
    start (jobs (cassandra_db two_records 5) at) ⟶* returned false (snapshot two_records 5 at)
unfolding jobs streaming_enumerate_queued_members streaming_enumerate_de_queued_members
    streaming_enumerate_queued_members_in streaming_enumerate_trashed_members
    streaming_enumerate_members streaming_enumerate_membership_requests select_members
    select_applications select_queued text_eq start_key stream_request decode_row cast_bytes lookup
    enumerate_members enumerate_membership_requests list_request enumerate_queued_members
    enumerate_de_queued_members enumerate_trashed_members enumerate_queued_members_in
whole_run = next create (
    next write_message (
      next shut_errors (
        next close_file (
          next create (
            next write_message (
              next shut_errors (
                next close_file (
                  next create (
                    next shut_errors (
                      next close_file (
                        next create (
                          next shut_errors (
                            next close_file (
                              next create (
                                next shut_errors (next close_file (next finish here)))))))))))))))))

backup-IsComplete_example :
    (snapshot two_records 5 at ≡ snapshot two_records 5 at)
    × ((false ≡ true) ⊎ NoErrors two_records 5 at)
unfolding any_short select_queued
backup-IsComplete_example =
    backup-IsComplete two_records 5 at (λ begin e. refl) (λ begin e. refl) (λ begin e. refl)
      whole_run

members_file-IsPublic_example :
    (saved : List Member) × (rest : Files) × All IsPublic saved
    × (snapshot two_records 5 at ≡ (codes "members.pb", map of_member saved) ∷ rest)
unfolding select_members text_eq
members_file-IsPublic_example =
    members_file-IsPublic two_records 5 at ((refl, (refl, tt)), tt) whole_run

cassandra_backup_stops_example :
    Acc After (returned false (snapshot two_records 5 at))
    × (IsOver (returned false (snapshot two_records 5 at))
        ⊎ Moves (returned false (snapshot two_records 5 at)))
cassandra_backup_stops_example = cassandra_backup_stops two_records 5 at whole_run
