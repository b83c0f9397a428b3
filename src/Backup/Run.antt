-- ===== src/Backup/Run.antt =====
-- main of backup/backup.go from the first file on, as a relation: main copies what a list sends into its
-- file, while handleErrors, a goroutine of its own, ends the program after it got an error, main being
-- anywhere by then. The lists have no nil entry in the interface of the database, so the messages about
-- nil entries are left out.
use membersys.Base.{Bool, true, false, List, [], ◌∷◌, ◌++◌, Text, codes, pos, Error}
use membersys.Membership.{Member, MembershipAgreement, MemberWithKey, MembershipAgreementWithKey}
use membersys.Database.{MembershipDb}
use membersys.Cassandra.Enumerate.{Event, send, report, close_items, close_errors}
use membersys.Postgres.Lists.{pass_all}

-- What WriteMessage writes. It marshals its argument, and the methods of a keyed entry are those of
-- the message that is embedded in it, so the key is not written.
pub data Message : Type 0 where
  of_member : Member → Message
  of_agreement : MembershipAgreement → Message

abbrev pub of_request : MembershipAgreementWithKey → Message
of_request r = of_agreement r.agreement

abbrev pub of_keyed : MemberWithKey → Message
of_keyed r = of_member r.member

-- A file and the list that goes into it.
pub record Job : Type 0 where
  pub file : Text
  pub events : List (Event Message)

-- The five files in order; `at` is the database when the list for a file is read.
unfoldable pub jobs : (db : MembershipDb) → (Text → db.State) → List Job
jobs db at =
    record {
      file = codes "members.pb";
      events =
          pass_all of_member (db.streaming_enumerate_members [] (pos 0) (at (codes "members.pb")));
    }
    ∷ record {
      file = codes "membership_requests.pb";
      events = pass_all of_request (
          db.streaming_enumerate_membership_requests [] [] (pos 0)
            (at (codes "membership_requests.pb")));
    }
    ∷ record {
      file = codes "membership_queue.pb";
      events =
          pass_all of_keyed
            (db.streaming_enumerate_queued_members [] (pos 0) (at (codes "membership_queue.pb")));
    }
    ∷ record {
      file = codes "membership_dequeue.pb";
      events = pass_all of_keyed (
          db.streaming_enumerate_de_queued_members [] (pos 0) (at (codes "membership_dequeue.pb")));
    }
    ∷ record {
      file = codes "membership_archive.pb";
      events =
          pass_all of_keyed (
            db.streaming_enumerate_trashed_members [] (pos 0) (at (codes "membership_archive.pb")));
    }
    ∷ []

-- Where main is: before the next file, or in the loop over the entries of a list, with what the file
-- has so far and the files to come.
pub data Point : Type 0 where
  opening : List Job → Point
  copying : Text → List (Event Message) → List Message → List Job → Point

abbrev pub Files : Type 0
Files = List (Text × List Message)

-- The program runs, main has returned, or log.Fatal has ended it: with whether an error was received, and
-- the files closed so far.
pub data Backup : Type 0 where
  running : Point → Bool → Files → Backup
  returned : Bool → Files → Backup
  ended : Backup

infix 40 ◌⟶◌ ◌⟶*◌
pub data ◌⟶◌ : Backup → Backup → Type 0 where
  create :
      {job : Job} {rest : List Job} {f : Bool} {done : Files}
      → running (opening (job ∷ rest)) f done ⟶ running (copying job.file job.events [] rest) f done
  cannot_create :
      {job : Job} {rest : List Job} {f : Bool} {done : Files}
      → running (opening (job ∷ rest)) f done ⟶ ended
  write_message :
      {file : Text} {m : Message} {events : List (Event Message)} {out : List Message}
      {rest : List Job} {f : Bool} {done : Files}
      → running (copying file (send m ∷ events) out rest) f done
        ⟶ running (copying file events (out ++ m ∷ []) rest) f done
  cannot_write :
      {file : Text} {m : Message} {events : List (Event Message)} {out : List Message}
      {rest : List Job} {f : Bool} {done : Files}
      → running (copying file (send m ∷ events) out rest) f done ⟶ ended
  -- handleErrors gets an error, and is about to call log.Fatal.
  receive_error :
      {file : Text} {e : Error} {events : List (Event Message)} {out : List Message}
      {rest : List Job} {f : Bool} {done : Files}
      → running (copying file (report e ∷ events) out rest) f done
        ⟶ running (copying file events out rest) true done
  shut_errors :
      {file : Text} {events : List (Event Message)} {out : List Message} {rest : List Job}
      {f : Bool} {done : Files}
      → running (copying file (close_errors ∷ events) out rest) f done
        ⟶ running (copying file events out rest) f done
  -- The loop over the entries ends, and main closes the file.
  close_file :
      {file : Text} {events : List (Event Message)} {out : List Message} {rest : List Job}
      {f : Bool} {done : Files}
      → running (copying file (close_items ∷ events) out rest) f done
        ⟶ running (opening rest) f (done ++ (file, out) ∷ [])
  cannot_close :
      {file : Text} {events : List (Event Message)} {out : List Message} {rest : List Job}
      {f : Bool} {done : Files}
      → running (copying file (close_items ∷ events) out rest) f done ⟶ ended
  finish : {f : Bool} {done : Files} → running (opening []) f done ⟶ returned f done
  -- log.Fatal after an error.
  fatal : {p : Point} {done : Files} → running p true done ⟶ ended

pub data ◌⟶*◌ : Backup → Backup → Type 0 where
  here : {s : Backup} → s ⟶* s
  next : {s t u : Backup} → s ⟶ t → t ⟶* u → s ⟶* u

abbrev pub start : List Job → Backup
start all = running (opening all) false []
