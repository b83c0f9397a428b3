-- ===== src/Cassandra/Enumerate/Streams.antt =====
-- The streaming lists of db/cassandra.go against the ones that return a slice.
use mathlib.Core.List.{append-nil, append_assoc}
use membersys.Base.{
  ◌≡◌, refl, sym, ap, ◌∙◌, inl, inr, Bool, true, false, Option, none, some, Option-cases, List, [],
  ◌∷◌, ◌++◌, map, Text, ℤ, Error, plain, All, arith,
}
use membersys.Cassandra.Session.{Session, Row}
use membersys.Cassandra.Cast.{member_from_row}
use membersys.Cassandra.Access.{application_prefix}
use membersys.Cassandra.Enumerate.{
  Listing, Event, send, report, close_items, close_errors, close_error, report_close, closing,
  Decoded, short, broken, good, decode_row, start_key, enumerate_members,
  streaming_enumerate_members, stream_request, stream_requests, list_request, list_requests,
  enumerate_membership_requests, streaming_enumerate_membership_requests,
}
use membersys.Cassandra.Queries.{select_members, select_applications}

abbrev pub as_list : Option Error → List Error
as_list none = []
as_list (some e) = e ∷ []

module _ {A : Type 0} where
  -- What a reader of the entries' channel receives, and a reader of the errors' channel.
  abbrev pub sent : List (Event A) → List A
  sent [] = []
  sent (send x ∷ t) = x ∷ sent t
  sent (report e ∷ t) = sent t
  sent (close_items ∷ t) = sent t
  sent (close_errors ∷ t) = sent t

  abbrev pub reported : List (Event A) → List Error
  reported [] = []
  reported (send x ∷ t) = reported t
  reported (report e ∷ t) = e ∷ reported t
  reported (close_items ∷ t) = reported t
  reported (close_errors ∷ t) = reported t

  sent-append : (t u : List (Event A)) → sent (t ++ u) ≡ sent t ++ sent u
  sent-append [] u = refl
  sent-append (send x ∷ t) u = ap (λ r. x ∷ r) (sent-append t u)
  sent-append (report e ∷ t) u = sent-append t u
  sent-append (close_items ∷ t) u = sent-append t u
  sent-append (close_errors ∷ t) u = sent-append t u

  reported-append : (t u : List (Event A)) → reported (t ++ u) ≡ reported t ++ reported u
  reported-append [] u = refl
  reported-append (send x ∷ t) u = reported-append t u
  reported-append (report e ∷ t) u = ap (λ r. e ∷ r) (reported-append t u)
  reported-append (close_items ∷ t) u = reported-append t u
  reported-append (close_errors ∷ t) u = reported-append t u

  -- Nothing is sent or reported after the two channels are closed, and each is closed once.
  abbrev pub IsOpen : Event A → Type 0
  IsOpen (send _) = Unit
  IsOpen (report _) = Unit
  IsOpen close_items = ⊥
  IsOpen close_errors = ⊥

  -- A stream agrees with a listing: it sends the entries of the listing in order, its last report
  -- is the error of the listing, if there is one, and then it closes both channels.
  pub record Streams (t : List (Event A)) (l : Listing A) : Type 0 where
    pub entries : sent t ≡ l.items
    pub errors : List Error
    pub reports : reported t ≡ errors ++ as_list l.error
    pub body : List (Event A)
    pub open_body : All IsOpen body
    pub closes : t ≡ body ++ closing

  pub All-append : (t u : List (Event A)) → All IsOpen t → All IsOpen u → All IsOpen (t ++ u)
  All-append [] u _ h = h
  All-append (x ∷ t) u (p, h) k = (p, All-append t u h k)

module _ (A : Type 0) where
  sent-end : (failed : Bool) → sent (report_close {A = A} failed ++ closing) ≡ []
  sent-end true = refl
  sent-end false = refl

  reported-end :
      (failed : Bool)
      → reported (report_close {A = A} failed ++ closing) ≡ as_list (close_error failed)
  reported-end true = refl
  reported-end false = refl

  report_close-IsOpen : (failed : Bool) → All IsOpen (report_close {A = A} failed)
  report_close-IsOpen true = (tt, tt)
  report_close-IsOpen false = tt

module _ {A : Type 0} where
  -- A loop that sends the entries and leaves the channels open, with the end of the function.
  pub finished :
      (t : List (Event A)) (items : List A) (failed : Bool)
      → sent t ≡ items
      → All IsOpen t
      → Streams
          (t ++ (report_close failed ++ closing))
          (record { items = items; error = close_error failed })
  finished t items failed e h = record {
    entries = sent-append t _ ∙ ap (λ r. sent t ++ r) (sent-end A failed) ∙ append-nil (sent t) ∙ e;
    errors = reported t;
    reports = reported-append t _ ∙ ap (λ r. reported t ++ r) (reported-end A failed);
    body = t ++ report_close failed;
    open_body = All-append t (report_close failed) h (report_close-IsOpen A failed);
    closes = sym (append_assoc t (report_close failed) closing);
  }

  pub refused : Streams {A = A} (report plain ∷ closing) (record { items = []; error = some plain })
  refused = record {
    entries = refl;
    errors = [];
    reports = refl;
    body = report plain ∷ [];
    open_body = (tt, tt);
    closes = refl;
  }

sent-members :
    (rows : List Row)
    → sent (map (λ row. send (member_from_row row)) rows) ≡ map member_from_row rows
sent-members [] = refl
sent-members (r ∷ rows) = ap (λ x. member_from_row r ∷ x) (sent-members rows)

members-IsOpen : (rows : List Row) → All IsOpen (map (λ row. send (member_from_row row)) rows)
members-IsOpen [] = tt
members-IsOpen (r ∷ rows) = (tt, members-IsOpen rows)

module _ (c : Session) where
  -- StreamingEnumerateMembers sends the members that EnumerateMembers returns, in the same order,
  -- reports the error that it returns, and then closes both channels, each once.
  pub streaming_members-Streams :
      (prev : Text) (num : ℤ) (s : c.State)
      → Streams (streaming_enumerate_members c prev num s) (enumerate_members c prev num s)
  unfolding streaming_enumerate_members enumerate_members
  streaming_members-Streams prev num s =
      let r = c.iter (select_members prev num) s in
      finished _ _ r.close_failed (sent-members r.rows) (members-IsOpen r.rows)

  sent-request :
      (criterion : Text) (d : Decoded)
      → sent (stream_request c criterion d) ≡ list_request c criterion d
  unfolding stream_request list_request
  sent-request criterion short = refl
  sent-request criterion broken = refl
  sent-request criterion (good key a) = ground arith

  request-IsOpen : (criterion : Text) (d : Decoded) → All IsOpen (stream_request c criterion d)
  unfolding stream_request
  request-IsOpen criterion short = (tt, tt)
  request-IsOpen criterion broken = (tt, tt)
  request-IsOpen criterion (good key a) = ground arith

  sent-requests :
      (criterion : Text) (rows : List Row)
      → sent (stream_requests c criterion rows) ≡ list_requests c criterion rows
  unfolding stream_requests list_requests
  sent-requests criterion [] = refl
  sent-requests criterion (row ∷ rows) =
      sent-append (stream_request c criterion (decode_row c application_prefix row)) _
      ∙ cc (
        sent-request criterion (decode_row c application_prefix row),
        sent-requests criterion rows,
      )

  requests-IsOpen :
      (criterion : Text) (rows : List Row) → All IsOpen (stream_requests c criterion rows)
  unfolding stream_requests
  requests-IsOpen criterion [] = tt
  requests-IsOpen criterion (row ∷ rows) =
      All-append _ _ (request-IsOpen criterion (decode_row c application_prefix row))
        (requests-IsOpen criterion rows)

  -- StreamingEnumerateMembershipRequests sends the applications that EnumerateMembershipRequests
  -- returns, in the same order; its last report is the error that the other returns, if there is
  -- one; then it closes both channels, each once.
  pub streaming_requests-Streams :
      (criterion prev : Text) (num : ℤ) (s : c.State)
      → Streams
          (streaming_enumerate_membership_requests c criterion prev num s)
          (enumerate_membership_requests c criterion prev num s)
  unfolding streaming_enumerate_membership_requests enumerate_membership_requests
  streaming_requests-Streams criterion prev num s =
      elim (Option-cases (start_key c application_prefix prev)) [
        | inl e ↦
            rw (e, streaming_enumerate_membership_requests, enumerate_membership_requests) refused
        | inr (start, e) ↦
            let r = c.iter (select_applications start num) s in
            rw (e, streaming_enumerate_membership_requests, enumerate_membership_requests)
              (finished _ _ r.close_failed (sent-requests criterion r.rows)
                (requests-IsOpen criterion r.rows))
      ]
