-- ===== src/Postgres/Lists.antt =====
-- The lists of db/pgsql.go as their goroutines send them: enumerateMembersOfState and the five streaming
-- methods around it.
use membersys.Base.{
  Bool, true, false, Option, none, some, List, [], ◌∷◌, Text, codes, ℤ, pos, status, internal, All,
}
use membersys.Decimal.{parse_int, format_uint}
use membersys.Membership.{
  Member, MembershipAgreement, MemberWithKey, MembershipAgreementWithKey, number_or_zero,
}
use membersys.Cassandra.Enumerate.{Event, send, report, close_items, close_errors, closing}
use membersys.Postgres.Sql.{Sql}
use membersys.Postgres.Row.{all_columns}

-- What a producer sends and closes, and whether it panics after that.
pub record Stream (A : Type 0) : Type 0 where
  pub events : List (Event A)
  pub panics : Bool

-- The goroutine that passes the entries on. The errors' channel is the caller's own, and the entries'
-- channel is closed after it.
abbrev pub pass_on : {A B : Type 0} → (A → B) → Event A → Event B
pass_on f (send a) = send (f a)
pass_on f (report e) = report e
pass_on f close_items = close_items
pass_on f close_errors = close_errors

abbrev pub pass_all : {A B : Type 0} → (A → B) → List (Event A) → List (Event B)
pass_all f [] = []
pass_all f (e ∷ events) = pass_on f e ∷ pass_all f events

abbrev pub forward : {A B : Type 0} → (A → B) → Stream A → Stream B
forward f st = record { events = pass_all f st.events; panics = st.panics }

-- `prevId`: 0 where there is no previous key.
abbrev pub prev_id : Text → Option ℤ
prev_id [] = some (pos 0)
prev_id (ch ∷ t) = parse_int (ch ∷ t)

-- The key of a member: strconv.FormatUint(…GetId(), 10).
abbrev pub key_of : Option Member → Text
key_of none = format_uint 0
key_of (some m) = format_uint (number_or_zero m.id)

module _ (p : Sql) where
  open p use {State, Cell, select_members, merge_agreement, merge_member}

  -- The loop over the rows scans `row`, which no one has set, instead of `rows`: a nil *sql.Row,
  -- whose Scan panics. The deferred calls close the channels before the program ends.
  abbrev pub send_rows : Option (List (List Cell)) → Stream MembershipAgreement
  send_rows none = record { events = report (status internal) ∷ closing; panics = false }
  send_rows (some []) = record { events = closing; panics = false }
  send_rows (some (cells ∷ rows)) = record { events = closing; panics = true }

  abbrev pub query_after : Text → Text → ℤ → Option ℤ → State → Stream MembershipAgreement
  query_after state criterion num none s = record {
    events = report (status internal) ∷ closing;
    panics = false;
  }
  query_after state criterion num (some id) s = send_rows (
      select_members all_columns
        (record { prev = id; state = state; criterion = criterion; limit = num }) s)

  unfoldable pub enumerate_members_of_state :
      Text → Text → Text → ℤ → State → Stream MembershipAgreement
  enumerate_members_of_state state criterion prev num s =
      query_after state criterion num (prev_id prev) s

  unfoldable pub streaming_enumerate_members : Text → ℤ → State → Stream (Option Member)
  streaming_enumerate_members prev num s =
      forward (λ a. a.member_data) (enumerate_members_of_state (codes "ACTIVE") [] prev num s)

  abbrev pub request_with_key : MembershipAgreement → MembershipAgreementWithKey
  request_with_key a = record { key = key_of a.member_data; agreement = merge_agreement a }

  unfoldable pub streaming_enumerate_membership_requests :
      Text → Text → ℤ → State → Stream MembershipAgreementWithKey
  streaming_enumerate_membership_requests criterion prev num s =
      forward request_with_key
        (enumerate_members_of_state (codes "APPLICATION") criterion prev num s)

  abbrev pub member_with_key : MembershipAgreement → MemberWithKey
  member_with_key a = record { key = key_of a.member_data; member = merge_member a.member_data }

  unfoldable pub streaming_enumerate_queued_members : Text → ℤ → State → Stream MemberWithKey
  streaming_enumerate_queued_members prev num s =
      forward member_with_key (enumerate_members_of_state (codes "IN_CREATION") [] prev num s)

  unfoldable pub streaming_enumerate_de_queued_members : Text → ℤ → State → Stream MemberWithKey
  streaming_enumerate_de_queued_members prev num s =
      forward member_with_key (enumerate_members_of_state (codes "IN_DELETION") [] prev num s)

  unfoldable pub streaming_enumerate_trashed_members : Text → ℤ → State → Stream MemberWithKey
  streaming_enumerate_trashed_members prev num s =
      forward member_with_key (enumerate_members_of_state (codes "ARCHIVED") [] prev num s)

-- An error, or the closing of a channel.
abbrev pub IsNoEntry : {A : Type 0} → Event A → Type 0
IsNoEntry (send a) = ⊥
IsNoEntry _ = Unit

abbrev pub SendsNothing : {A : Type 0} → Stream A → Type 0
SendsNothing st = All IsNoEntry st.events

pub forward-SendsNothing :
    {A B : Type 0} (f : A → B) (st : Stream A) → SendsNothing st → SendsNothing (forward f st)
forward-SendsNothing {A} f st h = go st.events h
  where
    go : (events : List (Event A)) → All IsNoEntry events → All IsNoEntry (pass_all f events)
    go [] h = tt
    go (send a ∷ events) h = absurd h.0
    go (report e ∷ events) h = (tt, go events h.1)
    go (close_items ∷ events) h = (tt, go events h.1)
    go (close_errors ∷ events) h = (tt, go events h.1)

-- No list of the table sends an entry.
pub enumerate-SendsNothing :
    (p : Sql) (state criterion prev : Text) (num : ℤ) (s : p.State)
    → SendsNothing (enumerate_members_of_state p state criterion prev num s)
unfolding enumerate_members_of_state
enumerate-SendsNothing p state criterion prev num s = queried (prev_id prev)
  where
    sent : (rows : Option (List (List p.Cell))) → SendsNothing (send_rows p rows)
    sent none = (tt, (tt, (tt, tt)))
    sent (some []) = (tt, (tt, tt))
    sent (some (cells ∷ rows)) = (tt, (tt, tt))

    queried : (id : Option ℤ) → SendsNothing (query_after p state criterion num id s)
    queried none = (tt, (tt, (tt, tt)))
    queried (some id) = sent _
