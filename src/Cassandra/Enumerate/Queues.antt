-- ===== src/Cassandra/Enumerate/Queues.antt =====
-- The streaming lists of the queues of db/cassandra.go against the ones that return a slice.
use mathlib.Core.List.{append-nil, append_assoc}
use membersys.Base.{
  ◌≡◌, refl, sym, ap, ◌∙◌, ◌⊎◌, inl, inr, Bool, true, false, ◌||◌, some, Option-cases, List, [],
  ◌∷◌, ◌++◌, Text, Bytes, ℤ, status, internal, All, if◌then◌else◌, arith,
}
use membersys.Membership.{MembershipAgreement, MemberWithKey}
use membersys.Cassandra.Session.{Session, Table, Row}
use membersys.Cassandra.Enumerate.{
  close_error, Decoded, short, broken, good, decode_row, start_key, stream_queued, stream_queue,
  list_queue, enumerate_queued_members_in, streaming_enumerate_queued_members_in, queued_member,
}
use membersys.Cassandra.Queries.{select_queued}
use membersys.Cassandra.Enumerate.Streams.{Streams, IsOpen, sent, All-append, finished, refused}

Decoded-cases :
    (d : Decoded)
    → (d ≡ short) ⊎ ((d ≡ broken) ⊎ ((key : Text) × (a : MembershipAgreement) × (d ≡ good key a)))
Decoded-cases short = inl refl
Decoded-cases broken = inr (inl refl)
Decoded-cases (good key a) = inr (inr (key, a, refl))

-- Some row has a key that is shorter than the prefix.
abbrev pub is_short : Decoded → Bool
is_short short = true
is_short _ = false

module _ (c : Session) (prefix : Bytes) where
  unfoldable pub any_short : List Row → Bool
  any_short [] = false
  any_short (row ∷ rows) = is_short (decode_row c prefix row) || any_short rows

  queued-IsOpen : (d : Decoded) → All IsOpen (stream_queued c d)
  unfolding stream_queued
  queued-IsOpen short = (tt, tt)
  queued-IsOpen _ = (tt, tt)

  queue-IsOpen : (rows : List Row) → All IsOpen (stream_queue c prefix rows)
  unfolding stream_queue
  queue-IsOpen [] = tt
  queue-IsOpen (row ∷ rows) =
      All-append _ _ (queued-IsOpen (decode_row c prefix row)) (queue-IsOpen rows)

  -- The loop of enumerateQueuedMembersIn against the stream.
  list_queue-eq-sent :
      (failed : Bool) (rv : List MemberWithKey) (rows : List Row)
      → list_queue c prefix failed rv rows ≡ (
          if any_short rows then record { items = []; error = some (status internal) } else record {
            items = rv ++ sent (stream_queue c prefix rows);
            error = close_error failed;
          })
  unfolding list_queue stream_queue any_short stream_queued
  list_queue-eq-sent failed rv [] =
      ap (λ i. record { items = i; error = close_error failed }) (sym (append-nil rv))
  list_queue-eq-sent failed rv (row ∷ rows) = elim (Decoded-cases (decode_row c prefix row)) [
    | inl e ↦ ground arith
    | inr (inl e) ↦ rw (e, list_queue, any_short, stream_queue) (list_queue-eq-sent failed rv rows)
    | inr (inr (key, a, e)) ↦
        rw (e, list_queue, any_short, stream_queue)
          (list_queue-eq-sent failed (rv ++ queued_member c key a ∷ []) rows
            ∙ ap
                (λ i.
                  if any_short rows
                  then record { items = []; error = some (status internal) }
                  else record { items = i; error = close_error failed })
                (append_assoc rv (queued_member c key a ∷ []) (sent (stream_queue c prefix rows))))
  ]

module _ (c : Session) (table : Table) (prefix : Bytes) where
  -- The rows that a list of a queue reads have keys as long as the prefix at least.
  abbrev pub HasNoShort : Text → ℤ → c.State → Type 0
  HasNoShort prev num s =
      (start : Bytes)
      → start_key c prefix prev ≡ some start
      → any_short c prefix (c.iter (select_queued table start num) s).rows ≡ false

  list_rows :
      (rows : List Row) (failed : Bool)
      → any_short c prefix rows ≡ false
      → list_queue c prefix failed [] rows
        ≡ record { items = sent (stream_queue c prefix rows); error = close_error failed }
  list_rows rows failed h = list_queue-eq-sent c prefix failed [] rows ∙ rw h

  -- Where no row read has a key shorter than the prefix, the streaming list of a queue sends the
  -- members that the other list of that queue returns, in the same order; its last report is the
  -- error that the other returns, if there is one; then it closes both channels, each once.
  pub streaming_queued-Streams :
      (prev : Text) (num : ℤ) (s : c.State)
      → HasNoShort prev num s
      → Streams
          (streaming_enumerate_queued_members_in c table prefix prev num s)
          (enumerate_queued_members_in c table prefix prev num s)
  unfolding streaming_enumerate_queued_members_in enumerate_queued_members_in
  streaming_queued-Streams prev num s h = elim (Option-cases (start_key c prefix prev)) [
    | inl e ↦ rw (e, streaming_enumerate_queued_members_in, enumerate_queued_members_in) refused
    | inr (start, e) ↦
        let r = c.iter (select_queued table start num) s in
        rw (e, streaming_enumerate_queued_members_in, enumerate_queued_members_in)
          (rw (list_rows r.rows r.close_failed (h start e))
            (finished _ _ r.close_failed refl (queue-IsOpen c prefix r.rows)))
  ]

  -- One row with a key shorter than the prefix, wherever it stands, hides every member of the queue
  -- from the list that returns a slice, which returns an Internal error instead.
  pub short_row_hides_queue :
      (prev : Text) (num : ℤ) (s : c.State) (start : Bytes)
      → start_key c prefix prev ≡ some start
      → any_short c prefix (c.iter (select_queued table start num) s).rows ≡ true
      → enumerate_queued_members_in c table prefix prev num s
        ≡ record { items = []; error = some (status internal) }
  unfolding enumerate_queued_members_in
  short_row_hides_queue prev num s start e h =
      rw (e, enumerate_queued_members_in) (list_queue-eq-sent c prefix _ [] _ ∙ rw h)
