-- ===== src/Cassandra/Enumerate/Keys.antt =====
-- The keys that the lists of db/cassandra.go hand out against the keys under which the moves look
-- rows up: a list turns the sixteen bytes of a UUID into its text, and a move takes the text for
-- the bytes.
use membersys.Base.{
  ℕ, zero, suc, panic, ◌+◌, ◌≡◌, refl, ap, ◌∙◌, ◌≢◌, inl, inr, false, Bool-cases, Option, none,
  some, Option-cases, [], ◌∷◌, ◌++◌, Text, Bytes, arith, codes, text_eq, text_eq_iff, length, drop,
  ltb, length-append, ok, IsOk, Result, err,
}
use membersys.Membership.{Member, MembershipAgreement}
use membersys.Cassandra.Session.{
  Session, Table, Row, application, membership_queue, membership_dequeue, membership_archive,
}
use membersys.Cassandra.Cast.{cast_bytes}
use membersys.Cassandra.Access.{application_prefix, queue_prefix, dequeue_prefix, archive_prefix}
use membersys.Cassandra.Laws.{Laws, table_eq}
use membersys.Cassandra.Laws.Batches.{Unchanged}
use membersys.Cassandra.Move.{
  move_record_to_table, move_applicant_to_new_member, move_applicant_to_trash,
  move_new_member_to_full_member, move_member_to_trash,
}
use membersys.Cassandra.Move.Moving.{
  Approved, move_record_to_table_settles, move_record_to_table-ok,
}
use membersys.Cassandra.Move.Leaving.{move_member_to_trash-ok}
use membersys.Cassandra.Move.Joining.{move_new_member_settles}
use membersys.Cassandra.Enumerate.{broken, good, decode_row, keyed}

-- What gocql says of UUIDs: sixteen bytes, and a text of thirty-six.
pub record UuidLaws (c : Session) : Type 0 where
  pub length-uuid_bytes : (u : c.Uuid) → length (c.uuid_bytes u) ≡ 16
  pub length-uuid_string : (u : c.Uuid) → length (c.uuid_string u) ≡ 36
  pub length_of_uuid : (b : Bytes) (u : c.Uuid) → c.uuid_from_bytes b ≡ some u → length b ≡ 16

length-drop_add :
    (n : ℕ) (xs : Bytes) → ltb (length xs) n ≡ false → length (drop n xs) + n ≡ length xs
length-drop_add zero xs h = omega arith
length-drop_add (suc n) [] h = ground arith
length-drop_add (suc n) (x ∷ xs) h = ground (arith, length-drop_add n xs)

module _ (c : Session) (u : UuidLaws c) where
  keyed-length :
      (b : Bytes) (a? : Option MembershipAgreement) (uuid? : Option c.Uuid) (k : Text)
      (a : MembershipAgreement)
      → c.uuid_from_bytes b ≡ uuid?
      → keyed c uuid? a? ≡ good k a
      → (length b ≡ 16) × (length k ≡ 36)
  keyed-length b a? none k a e h = absurd (cc)
  keyed-length b none (some uuid) k a e h = absurd (cc)
  keyed-length b (some x) (some uuid) k a e h =
      (u.length_of_uuid b uuid e, ground (arith, u.length-uuid_string uuid))

  -- A row that a list accepts has sixteen bytes behind the prefix; the list gives its key as a text
  -- of thirty-six.
  good_lengths :
      (prefix : Bytes) (row : Row) (k : Text) (a : MembershipAgreement)
      → decode_row c prefix row ≡ good k a
      → (length (cast_bytes row (codes "key")) ≡ length prefix + 16) × (length k ≡ 36)
  unfolding decode_row
  good_lengths prefix row k a h =
      let key = cast_bytes row (codes "key") in
      elim (Bool-cases (ltb (length key) (length prefix))) [
        | inl e ↦ absurd (cc (rw (e, decode_row) at h))
        | inr e ↦
            let (n, m) =
              keyed-length (drop (length prefix) key) _ _ k a refl (rw (e, decode_row) at h) in
            (omega (arith, length-drop_add (length prefix) key e), m)
      ]

IsOk-ok : (r : Result (Unit {0})) → IsOk r → r ≡ ok tt
IsOk-ok (ok _) h = refl
IsOk-ok (err e) h = absurd h
IsOk-ok panic h = absurd h

-- A key of another length is another key.
lengths-ne : (a b : Bytes) → length a ≢ length b → text_eq a b ≡ false
lengths-ne a b h = elim (Bool-cases (text_eq a b)) [
  | inl same ↦ absurd (h (ap length ((text_eq_iff a b).0 same)))
  | inr other ↦ other
]

module _ (c : Session) (l : Laws c) (u : UuidLaws c) where
  -- The rows of the applications are kept under the bytes of a UUID.
  abbrev pub HasUuidKeys : c.State → Type 0
  HasUuidKeys s =
      (key pb : Bytes)
      → l.pb_data s application key ≡ some pb
      → length key ≡ length application_prefix + 16

  -- A move that returned an error, or panicked, and changed no row.
  abbrev pub Fails : Result (Unit {0}) × c.State → c.State → Type 0
  Fails (r, s') s = ¬ IsOk r × Unchanged c l s s'

  module _ (now : ℕ) (k who : Text) (dst : Table) (dst_prefix : Bytes) (s : c.State)
      (keys : HasUuidKeys s) (long : length k ≡ 36) where
    no_row :
        (s' : c.State)
        → ¬ Approved c l now who application (application_prefix ++ k) dst (dst_prefix ++ k) s s'
    no_row s' p = omega (
      arith,
      keys (application_prefix ++ k) p.moved.stored p.moved.before,
      length-append application_prefix k,
      long,
    )

  -- A move out of the applications under the text of a UUID finds no row.
  stuck :
      (now : ℕ) (k who : Text) (dst : Table) (dst_prefix : Bytes) (s : c.State)
      → HasUuidKeys s
      → length k ≡ 36
      → table_eq dst application ≡ false
      → Fails (move_record_to_table c now k who application application_prefix dst dst_prefix s) s
  stuck now k who dst dst_prefix s keys long apart =
      let r = move_record_to_table c now k who application application_prefix dst dst_prefix s in
      (
        λ h. no_row now k who dst dst_prefix s keys long r.1 (
            move_record_to_table-ok c l now k who application application_prefix dst dst_prefix s
              apart (λ i. (IsOk-ok r.0 h i, r.1))),
        elim (move_record_to_table_settles c l now k who application application_prefix dst
            dst_prefix s apart) [
              | inl p ↦ absurd (no_row now k who dst dst_prefix s keys long _ p)
              | inr same ↦ same
            ],
      )

  -- While the applications are kept under the bytes of their UUIDs, no applicant can be accepted or
  -- rejected under the key that the lists give: both moves fail and change no row, for every row
  -- that a list shows.
  pub listed_applicant_is_stuck :
      (row : Row) (k : Text) (a : MembershipAgreement) (now : ℕ) (who : Text) (s : c.State)
      → HasUuidKeys s
      → decode_row c application_prefix row ≡ good k a
      → Fails (move_applicant_to_new_member c now k who s) s
        × Fails (move_applicant_to_trash c now k who s) s
  unfolding move_applicant_to_new_member move_applicant_to_trash
  listed_applicant_is_stuck row k a now who s keys listed =
      let long = (good_lengths c u application_prefix row k a listed).1 in
      (
        stuck now k who membership_queue queue_prefix s keys long refl,
        stuck now k who membership_archive archive_prefix s keys long refl,
      )

  -- MoveNewMemberToFullMember under the key that the list gives leaves the row of the queue from
  -- which the member was listed as it was, whatever it returns.
  pub promoted_member_stays_queued :
      (row : Row) (k : Text) (a : MembershipAgreement) (m : Member) (s : c.State)
      → decode_row c queue_prefix row ≡ good k a
      → l.pb_data
          (move_new_member_to_full_member c (record { key = k; member = m }) s).1
          membership_queue
          (cast_bytes row (codes "key"))
        ≡ l.pb_data s membership_queue (cast_bytes row (codes "key"))
  promoted_member_stays_queued row k a m s listed =
      let key = cast_bytes row (codes "key") in
      let (n, long) = good_lengths c u queue_prefix row k a listed in
      let other : text_eq (queue_prefix ++ k) key ≡ false =
        lengths-ne (queue_prefix ++ k) key
          (λ e. omega (arith, e, n, long, length-append queue_prefix k)) in
      elim (move_new_member_settles c l (record { key = k; member = m }) s) [
        | inl (pb, p) ↦ p.frame membership_queue key refl refl other
        | inr same ↦ same membership_queue key
      ]

-- A row under the bare bytes of a UUID is broken to the list of departing members.
bare_uuid_is_broken :
    (c : Session) (u : UuidLaws c) (row : Row) (uuid : c.Uuid)
    → cast_bytes row (codes "key") ≡ c.uuid_bytes uuid
    → decode_row c dequeue_prefix row ≡ broken
unfolding decode_row
bare_uuid_is_broken c u row uuid e =
    let key = cast_bytes row (codes "key") in
    let sixteen : length key ≡ 16 = ap length e ∙ u.length-uuid_bytes uuid in
    let enough : ltb (length key) (length dequeue_prefix) ≡ false = ground arith in
    elim (Option-cases (c.uuid_from_bytes (drop (length dequeue_prefix) key))) [
      | inl no_uuid ↦ rw (enough, decode_row) (rw no_uuid)
      | inr (x, parsed) ↦ absurd (
          omega (
            arith,
            sixteen,
            u.length_of_uuid _ x parsed,
            length-drop_add (length dequeue_prefix) key enough,
          ))
    ]

-- MoveMemberToTrash that returns nil has written the member under the bare bytes of a UUID, and a row
-- with that key is broken to the list of departing members: it shows no member for it.
pub departing_member_is_not_listed :
    (c : Session) (l : Laws c) (u : UuidLaws c) (now : ℕ) (id who reason : Text) (s : c.State)
    {s' : c.State} (row : Row)
    → move_member_to_trash c now id who reason s ≡ (ok tt, s')
    → cast_bytes row (codes "key") ≡ c.uuid_bytes (c.uuid_from_time now)
    → ((pb : Bytes) × (l.pb_data s' membership_dequeue (c.uuid_bytes (c.uuid_from_time now))
          ≡ some pb))
      × (decode_row c dequeue_prefix row ≡ broken)
departing_member_is_not_listed c l u now id who reason s row done key =
    let p = move_member_to_trash-ok c l now id who reason s done in
    ((p.moved.written, p.moved.after), bare_uuid_is_broken c u row (c.uuid_from_time now) key)
