-- ===== src/Backup/Copy.antt =====
-- What the files of backup/backup.go hold.
use mathlib.Core.List.{append-nil, append_assoc}
use membersys.Base.{
  ◌≡◌, refl, sym, ap, ◌∙◌, ◌⊎◌, inl, inr, Bool, true, List, [], ◌∷◌, ◌++◌, map, Text, All,
}
use membersys.Cassandra.Enumerate.{Event, send, report, close_items, close_errors}
use membersys.Backup.Run.{
  Message, Job, Point, opening, copying, Files, Backup, running, returned, ended, ◌⟶◌, create,
  cannot_create, write_message, cannot_write, receive_error, shut_errors, close_file, cannot_close,
  finish, fatal, ◌⟶*◌, here, next, start,
}

-- The entries that are sent before their channel is closed.
abbrev pub entries : {A : Type 0} → List (Event A) → List A
entries [] = []
entries (send x ∷ t) = x ∷ entries t
entries (report e ∷ t) = entries t
entries (close_errors ∷ t) = entries t
entries (close_items ∷ t) = []

-- No error is reported before that.
abbrev pub IsQuiet : {A : Type 0} → List (Event A) → Type 0
IsQuiet [] = Unit
IsQuiet (send x ∷ t) = IsQuiet t
IsQuiet (report e ∷ t) = ⊥
IsQuiet (close_errors ∷ t) = IsQuiet t
IsQuiet (close_items ∷ t) = Unit

abbrev pub content : Job → Text × List Message
content job = (job.file, entries job.events)

-- The files that are closed and those to come.
abbrev point_files : Point → Files
point_files (opening rest) = map content rest
point_files (copying file events out rest) = (file, out ++ entries events) ∷ map content rest

abbrev QuietFrom : Point → Type 0
QuietFrom (opening rest) = All (λ job. IsQuiet job.events) rest
QuietFrom (copying file events out rest) = IsQuiet events × All (λ job. IsQuiet job.events) rest

-- The files come to `all`, and so long as no error was received, `quiet` follows from what is to come.
abbrev Keeps : Files → Type 0 → Backup → Type 0
Keeps all quiet (running p f done) =
    (done ++ point_files p ≡ all) × ((f ≡ true) ⊎ (QuietFrom p → quiet))
Keeps all quiet (returned f done) = (done ≡ all) × ((f ≡ true) ⊎ quiet)
Keeps all quiet ended = Unit

module _ (all : Files) (quiet : Type 0) where
  step-Keeps : {s t : Backup} → s ⟶ t → Keeps all quiet s → Keeps all quiet t
  step-Keeps create (e, q) = (e, q)
  step-Keeps cannot_create _ = tt
  step-Keeps (write_message {file} {m} {events} {out} {rest} {f} {done}) (e, q) = (
    ap (λ x. done ++ (file, x) ∷ map content rest) (append_assoc out (m ∷ []) (entries events)) ∙ e,
    q,
  )
  step-Keeps cannot_write _ = tt
  step-Keeps receive_error (e, q) = (e, inl refl)
  step-Keeps shut_errors k = k
  step-Keeps (close_file {file} {events} {out} {rest} {f} {done}) (e, q) = (
    append_assoc done ((file, out) ∷ []) (map content rest)
        ∙ ap (λ x. done ++ (file, x) ∷ map content rest) (sym (append-nil out))
        ∙ e,
    elim q [ inl h ↦ inl h | inr h ↦ inr (λ later. h (tt, later)) ],
  )
  step-Keeps cannot_close _ = tt
  step-Keeps (finish {f} {done}) (e, q) =
      (sym (append-nil done) ∙ e, elim q [ inl h ↦ inl h | inr h ↦ inr (h tt) ])
  step-Keeps fatal _ = tt

  reach-Keeps : {s t : Backup} → s ⟶* t → Keeps all quiet s → Keeps all quiet t
  reach-Keeps here k = k
  reach-Keeps (next step rest) k = reach-Keeps rest (step-Keeps step k)

-- Where main returns, each file holds the entries that its list sent, in order, and if it received no
-- error, none was reported.
pub returned-Whole :
    {all : List Job} {f : Bool} {files : Files}
    → start all ⟶* returned f files
    → (files ≡ map content all) × ((f ≡ true) ⊎ All (λ job. IsQuiet job.events) all)
returned-Whole {all} run =
    reach-Keeps (map content all) (All (λ job. IsQuiet job.events) all) run (refl, inr (λ q. q))
