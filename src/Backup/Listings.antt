-- ===== src/Backup/Listings.antt =====
-- The files of backup/backup.go against the lists of db/cassandra.go that return a slice.
use membersys.Base.{
  ℕ, ◌≡◌, refl, sym, ap, ◌∙◌, subst, ◌⊎◌, inl, inr, Bool, true, Option, none, some, List, [], ◌∷◌,
  ◌++◌, map, Text, codes, pos, All, Error,
}
use membersys.Membership.{Member, MemberWithKey, MembershipAgreementWithKey}
use membersys.Database.{cassandra_db}
use membersys.Cassandra.Session.{Session, membership_queue, membership_dequeue, membership_archive}
use membersys.Cassandra.Access.{queue_prefix, dequeue_prefix, archive_prefix}
use membersys.Cassandra.Enumerate.{
  Listing, Event, send, report, close_items, close_errors, closing, enumerate_members,
  enumerate_membership_requests, enumerate_queued_members, enumerate_de_queued_members,
  enumerate_trashed_members, streaming_enumerate_queued_members,
  streaming_enumerate_de_queued_members, streaming_enumerate_trashed_members,
}
use membersys.Cassandra.Enumerate.Streams.{
  Streams, IsOpen, sent, reported, as_list, streaming_members-Streams, streaming_requests-Streams,
}
use membersys.Cassandra.Enumerate.Queues.{HasNoShort, streaming_queued-Streams}
use membersys.Postgres.Lists.{pass_all}
use membersys.Backup.Run.{
  Message, of_member, of_agreement, of_request, of_keyed, jobs, Files, returned, ◌⟶*◌, start,
}
use membersys.Backup.Copy.{entries, IsQuiet, returned-Whole}

module _ {A B : Type 0} (g : A → B) where
  entries-closing :
      (body : List (Event A))
      → All IsOpen body
      → entries (pass_all g (body ++ closing)) ≡ map g (sent (body ++ closing))
  entries-closing [] h = refl
  entries-closing (send x ∷ body) (p, h) = ap (λ r. g x ∷ r) (entries-closing body h)
  entries-closing (report e ∷ body) (p, h) = entries-closing body h
  entries-closing (close_items ∷ body) (p, h) = absurd p
  entries-closing (close_errors ∷ body) (p, h) = absurd p

  quiet-closing :
      (body : List (Event A))
      → All IsOpen body
      → IsQuiet (pass_all g (body ++ closing))
      → reported (body ++ closing) ≡ []
  quiet-closing [] h q = refl
  quiet-closing (send x ∷ body) (p, h) q = quiet-closing body h q
  quiet-closing (report e ∷ body) h q = absurd q
  quiet-closing (close_items ∷ body) (p, h) q = absurd p
  quiet-closing (close_errors ∷ body) (p, h) q = absurd p

  -- A file holds the entries of the listing that its stream agrees with.
  pub entries-Streams :
      {t : List (Event A)} {l : Listing A} → Streams t l → entries (pass_all g t) ≡ map g l.items
  entries-Streams {t} {l} s =
      subst (λ u. entries (pass_all g u) ≡ map g (sent u)) (sym s.closes)
        (entries-closing s.body s.open_body)
      ∙ ap (map g) s.entries

  no_error : (errors : List Error) (e : Option Error) → errors ++ as_list e ≡ [] → e ≡ none
  no_error [] none h = refl
  no_error [] (some x) h = absurd (cc h)
  no_error (x ∷ errors) e h = absurd (cc h)

  quiet-Streams :
      {t : List (Event A)} {l : Listing A} → Streams t l → IsQuiet (pass_all g t) → l.error ≡ none
  quiet-Streams {t} {l} s q = no_error s.errors l.error (
      sym s.reports
      ∙ subst (λ u. IsQuiet (pass_all g u) → reported u ≡ []) (sym s.closes)
          (quiet-closing s.body s.open_body) q)

same_file :
    (name : Text) {x y : List Message} {rest rest' : Files}
    → x ≡ y
    → rest ≡ rest'
    → (name, x) ∷ rest ≡ (name, y) ∷ rest'
same_file name e h = cc

module _ (c : Session) (now : ℕ) (at : Text → c.State) where
  -- What the five lists that return slices give, when each is read.
  abbrev pub members : Listing Member
  members = enumerate_members c [] (pos 0) (at (codes "members.pb"))

  abbrev pub requests : Listing MembershipAgreementWithKey
  requests = enumerate_membership_requests c [] [] (pos 0) (at (codes "membership_requests.pb"))

  abbrev pub queue : Listing MemberWithKey
  queue = enumerate_queued_members c [] (pos 0) (at (codes "membership_queue.pb"))

  abbrev pub dequeue : Listing MemberWithKey
  dequeue = enumerate_de_queued_members c [] (pos 0) (at (codes "membership_dequeue.pb"))

  abbrev pub archive : Listing MemberWithKey
  archive = enumerate_trashed_members c [] (pos 0) (at (codes "membership_archive.pb"))

  abbrev pub snapshot : Files
  snapshot =
      (codes "members.pb", map of_member members.items)
      ∷ (codes "membership_requests.pb", map (λ r. of_agreement r.agreement) requests.items)
      ∷ (codes "membership_queue.pb", map (λ r. of_member r.member) queue.items)
      ∷ (codes "membership_dequeue.pb", map (λ r. of_member r.member) dequeue.items)
      ∷ (codes "membership_archive.pb", map (λ r. of_member r.member) archive.items)
      ∷ []

  abbrev pub NoErrors : Type 0
  NoErrors =
      (members.error ≡ none)
      × (requests.error ≡ none)
      × (queue.error ≡ none)
      × (dequeue.error ≡ none)
      × (archive.error ≡ none)

  -- Where main returns over Cassandra, with no key shorter than its prefix among the rows of the three
  -- queues, the five files hold, in order, the members and the agreements of the entries that the lists
  -- that return slices give, without the keys of these entries; and if main received no error, none of
  -- these lists has one.
  pub backup-IsComplete :
      {f : Bool} {files : Files}
      → HasNoShort c membership_queue queue_prefix [] (pos 0) (at (codes "membership_queue.pb"))
      → HasNoShort c membership_dequeue dequeue_prefix []
          (pos 0)
          (at (codes "membership_dequeue.pb"))
      → HasNoShort c membership_archive archive_prefix []
          (pos 0)
          (at (codes "membership_archive.pb"))
      → start (jobs (cassandra_db c now) at) ⟶* returned f files
      → (files ≡ snapshot) × ((f ≡ true) ⊎ NoErrors)
  unfolding jobs streaming_enumerate_queued_members streaming_enumerate_de_queued_members
      streaming_enumerate_trashed_members enumerate_queued_members enumerate_de_queued_members
      enumerate_trashed_members
  backup-IsComplete {f} {files} q d a run =
      let (whole, quiet) = returned-Whole run in
      let m1 = streaming_members-Streams c [] (pos 0) (at (codes "members.pb")) in
      let m2 = streaming_requests-Streams c [] [] (pos 0) (at (codes "membership_requests.pb")) in
      let m3 =
        streaming_queued-Streams c membership_queue queue_prefix [] (pos 0)
          (at (codes "membership_queue.pb")) q in
      let m4 =
        streaming_queued-Streams c membership_dequeue dequeue_prefix [] (pos 0)
          (at (codes "membership_dequeue.pb")) d in
      let m5 =
        streaming_queued-Streams c membership_archive archive_prefix [] (pos 0)
          (at (codes "membership_archive.pb")) a in
      (
        whole
            ∙ same_file _ (entries-Streams of_member m1) (
                same_file _ (entries-Streams of_request m2) (
                  same_file _ (entries-Streams of_keyed m3) (
                    same_file _ (entries-Streams of_keyed m4)
                      (same_file _ (entries-Streams of_keyed m5) refl)))),
        elim quiet [
          | inl h ↦ inl h
          | inr h ↦ inr (
            quiet-Streams of_member m1 h.0,
            quiet-Streams of_request m2 h.1.0,
            quiet-Streams of_keyed m3 h.1.1.0,
            quiet-Streams of_keyed m4 h.1.1.1.0,
            quiet-Streams of_keyed m5 h.1.1.1.1.0,
          )
        ],
      )
