-- ===== src/Cassandra/Enumerate.antt =====
-- The lists of db/cassandra.go: EnumerateMembers, EnumerateMembershipRequests,
-- enumerateQueuedMembersIn, their streaming variants, and the callers of the last two. A channel is
-- the sequence of what is sent on it; the values sent on the two channels of a call form one
-- sequence, in the order of the sends.
pub mod Streams
pub mod Rows
pub mod Keys
pub mod Queues
use membersys.Base.{
  ℕ, suc, Bool, true, false, ◌||◌, Option, none, some, List, [], ◌∷◌, ◌++◌, map, Text, Bytes, codes,
  length, drop, ltb, is_empty, has_prefix, to_lower, if◌then◌else◌, ℤ, pos, negsuc, Error, status,
  plain, internal,
}
use membersys.Membership.{
  Member, MembershipAgreement, MemberWithKey, MembershipAgreementWithKey, empty_member,
  empty_agreement, name_of,
}
use membersys.Cassandra.Session.{
  Session, Table, application, members, membership_queue, membership_dequeue, membership_archive,
  Row, Select,
}
use membersys.Cassandra.Cast.{cast_bytes, member_from_row}
use membersys.Cassandra.Access.{
  application_prefix, application_end, queue_prefix, dequeue_prefix, archive_prefix, member_key,
}
use membersys.Cassandra.Queries.{
  limit_of, select_members, select_applications, select_queued, member_columns,
}

-- What a list function returns: the entries and the error, which may both be there.
pub record Listing (A : Type 0) : Type 0 where
  pub items : List A
  pub error : Option Error

-- A send on the entries' or the errors' channel, or the closing of one.
pub data Event (A : Type 0) : Type 0 where
  send : A → Event A
  report : Error → Event A
  close_items close_errors : Event A

-- What the loop over an iterator makes of a row: its key is shorter than the prefix, its key is
-- no UUID or its agreement does not decode, or it has both.
pub data Decoded : Type 0 where
  short broken : Decoded
  good : Text → MembershipAgreement → Decoded

-- The error of `iter.Close()`.
abbrev pub close_error : Bool → Option Error
close_error true = some (status internal)
close_error false = none

module _ {A : Type 0} where
  abbrev pub report_close : Bool → List (Event A)
  report_close true = report (status internal) ∷ []
  report_close false = []

  -- `defer close(items); defer close(errors)`.
  abbrev pub closing : List (Event A)
  closing = close_errors ∷ close_items ∷ []

module _ (c : Session) where
  open c use {State, iter, parse_uuid, uuid_from_bytes, uuid_bytes, uuid_string, unmarshal}
  open c use {merge_agreement, merge_member}

  abbrev pub keyed : Option c.Uuid → Option MembershipAgreement → Decoded
  keyed none _ = broken
  keyed (some uuid) none = broken
  keyed (some uuid) (some agreement) = good (uuid_string uuid) agreement

  unfoldable pub decode_row : Bytes → Row → Decoded
  decode_row prefix row =
      let key = cast_bytes row (codes "key") in
      if ltb (length key) (length prefix)
      then short
      else keyed (uuid_from_bytes (drop (length prefix) key))
          (unmarshal (cast_bytes row (codes "pb_data")))

  -- `startKey`: none where `prev` is no UUID.
  unfoldable pub start_key : Bytes → Text → Option Bytes
  start_key prefix [] = some prefix
  start_key prefix prev = elim (parse_uuid prev) [
    | none ↦ none
    | some uuid ↦ some (prefix ++ uuid_bytes uuid)
  ]

  unfoldable pub enumerate_members : Text → ℤ → State → Listing Member
  enumerate_members prev num s =
      let r = iter (select_members prev num) s in
      record { items = map member_from_row r.rows; error = close_error r.close_failed }

  unfoldable pub streaming_enumerate_members : Text → ℤ → State → List (Event Member)
  streaming_enumerate_members prev num s =
      let r = iter (select_members prev num) s in
      map (λ row. send (member_from_row row)) r.rows ++ (report_close r.close_failed ++ closing)

  -- `criterion == "" || strings.HasPrefix(strings.ToLower(…GetName()), lowerCriterion)`.
  abbrev pub matches : Text → MembershipAgreement → Bool
  matches criterion a =
      is_empty criterion || has_prefix (to_lower (name_of a.member_data)) (to_lower criterion)

  abbrev pub with_key : Text → MembershipAgreement → MembershipAgreementWithKey
  with_key key a = record { key = key; agreement = merge_agreement empty_agreement a }

  -- One round of the loop of StreamingEnumerateMembershipRequests.
  unfoldable pub stream_request : Text → Decoded → List (Event MembershipAgreementWithKey)
  stream_request criterion short = report (status internal) ∷ []
  stream_request criterion broken = report plain ∷ []
  stream_request criterion (good key a) =
      let m = with_key key a in if matches criterion m.agreement then send m ∷ [] else []

  stream_requests : Text → List Row → List (Event MembershipAgreementWithKey)
  stream_requests criterion [] = []
  stream_requests criterion (row ∷ rows) =
      stream_request criterion (decode_row application_prefix row) ++ stream_requests criterion rows

  unfoldable pub streaming_enumerate_membership_requests :
      Text → Text → ℤ → State → List (Event MembershipAgreementWithKey)
  unfolding stream_requests
  streaming_enumerate_membership_requests criterion prev num s =
      elim (start_key application_prefix prev) [
        | none ↦ report plain ∷ closing
        | some start ↦
            let r = iter (select_applications start num) s in
            stream_requests criterion r.rows ++ (report_close r.close_failed ++ closing)
      ]

  -- One round of the loop of EnumerateMembershipRequests.
  unfoldable pub list_request : Text → Decoded → List MembershipAgreementWithKey
  list_request criterion short = []
  list_request criterion broken = []
  list_request criterion (good key a) =
      let m = with_key key a in if matches criterion m.agreement then m ∷ [] else []

  list_requests : Text → List Row → List MembershipAgreementWithKey
  list_requests criterion [] = []
  list_requests criterion (row ∷ rows) =
      list_request criterion (decode_row application_prefix row) ++ list_requests criterion rows

  unfoldable pub enumerate_membership_requests :
      Text → Text → ℤ → State → Listing MembershipAgreementWithKey
  unfolding list_requests
  enumerate_membership_requests criterion prev num s = elim (start_key application_prefix prev) [
    | none ↦ record { items = []; error = some plain }
    | some start ↦
        let r = iter (select_applications start num) s in
        record { items = list_requests criterion r.rows; error = close_error r.close_failed }
  ]

  abbrev pub queued_member : Text → MembershipAgreement → MemberWithKey
  queued_member key a = record { key = key; member = merge_member empty_member a.member_data }

  -- One round of the loop of streamingEnumerateQueuedMembersIn.
  unfoldable pub stream_queued : Decoded → List (Event MemberWithKey)
  stream_queued short = report (status internal) ∷ []
  stream_queued broken = report plain ∷ []
  stream_queued (good key a) = send (queued_member key a) ∷ []

  pub stream_queue : Bytes → List Row → List (Event MemberWithKey)
  stream_queue prefix [] = []
  stream_queue prefix (row ∷ rows) =
      stream_queued (decode_row prefix row) ++ stream_queue prefix rows

  unfoldable pub streaming_enumerate_queued_members_in :
      Table → Bytes → Text → ℤ → State → List (Event MemberWithKey)
  unfolding stream_queue
  streaming_enumerate_queued_members_in table prefix prev num s = elim (start_key prefix prev) [
    | none ↦ report plain ∷ closing
    | some start ↦
        let r = iter (select_queued table start num) s in
        stream_queue prefix r.rows ++ (report_close r.close_failed ++ closing)
  ]

  -- The loop of enumerateQueuedMembersIn, from the entries so far: a short key ends it with
  -- no entry and an error, without closing the iterator.
  list_queue : Bytes → Bool → List MemberWithKey → List Row → Listing MemberWithKey
  list_queue prefix failed rv [] = record { items = rv; error = close_error failed }
  list_queue prefix failed rv (row ∷ rows) = elim (decode_row prefix row) [
    | short ↦ record { items = []; error = some (status internal) }
    | broken ↦ list_queue prefix failed rv rows
    | good key a ↦ list_queue prefix failed (rv ++ queued_member key a ∷ []) rows
  ]

  unfoldable pub enumerate_queued_members_in :
      Table → Bytes → Text → ℤ → State → Listing MemberWithKey
  unfolding list_queue
  enumerate_queued_members_in table prefix prev num s = elim (start_key prefix prev) [
    | none ↦ record { items = []; error = some plain }
    | some start ↦
        let r = iter (select_queued table start num) s in list_queue prefix r.close_failed [] r.rows
  ]

  unfoldable pub enumerate_queued_members : Text → ℤ → State → Listing MemberWithKey
  unfolding enumerate_queued_members_in
  enumerate_queued_members = enumerate_queued_members_in membership_queue queue_prefix

  unfoldable pub enumerate_de_queued_members : Text → ℤ → State → Listing MemberWithKey
  unfolding enumerate_queued_members_in
  enumerate_de_queued_members = enumerate_queued_members_in membership_dequeue dequeue_prefix

  unfoldable pub enumerate_trashed_members : Text → ℤ → State → Listing MemberWithKey
  unfolding enumerate_queued_members_in
  enumerate_trashed_members = enumerate_queued_members_in membership_archive archive_prefix

  unfoldable pub streaming_enumerate_queued_members : Text → ℤ → State → List (Event MemberWithKey)
  unfolding streaming_enumerate_queued_members_in
  streaming_enumerate_queued_members =
      streaming_enumerate_queued_members_in membership_queue queue_prefix

  unfoldable pub streaming_enumerate_de_queued_members :
      Text → ℤ → State → List (Event MemberWithKey)
  unfolding streaming_enumerate_queued_members_in
  streaming_enumerate_de_queued_members =
      streaming_enumerate_queued_members_in membership_dequeue dequeue_prefix

  unfoldable pub streaming_enumerate_trashed_members : Text → ℤ → State → List (Event MemberWithKey)
  unfolding streaming_enumerate_queued_members_in
  streaming_enumerate_trashed_members =
      streaming_enumerate_queued_members_in membership_archive archive_prefix
