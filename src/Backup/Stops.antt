-- ===== src/Backup/Stops.antt =====
-- Every run of backup/backup.go comes to an end, whatever the lists send and the files refuse.
use mathlib.Core.WellFounded.{Acc}
use membersys.Base.{
  ℕ, zero, suc, ◌+◌, ◌<◌, ◌⊎◌, inl, inr, Bool, true, List, [], ◌∷◌, All, length, arith,
}
use membersys.Cassandra.Enumerate.{Event, send, report, close_items, close_errors}
use membersys.Backup.Run.{
  Job, Point, opening, copying, Files, Backup, running, returned, ended, ◌⟶◌, create, cannot_create,
  write_message, cannot_write, receive_error, shut_errors, close_file, cannot_close, finish, fatal,
  ◌⟶*◌, here, next, start,
}

-- The steps that are left at most.
abbrev job_steps : List Job → ℕ
job_steps [] = 2
job_steps (job ∷ rest) = length job.events + 2 + job_steps rest

abbrev steps_left : Backup → ℕ
steps_left (running (opening rest) f done) = job_steps rest
steps_left (running (copying file events out rest) f done) = length events + 1 + job_steps rest
steps_left (returned f done) = 1
steps_left ended = 0

some_left : (p : Point) (f : Bool) (done : Files) → 0 < steps_left (running p f done)
some_left (opening []) f done = omega arith
some_left (opening (job ∷ rest)) f done = omega arith
some_left (copying file events out rest) f done = omega arith

step-falls : {s t : Backup} → s ⟶ t → steps_left t < steps_left s
step-falls create = omega arith
step-falls (cannot_create {f} {done}) = omega arith
step-falls write_message = omega arith
step-falls cannot_write = omega arith
step-falls receive_error = omega arith
step-falls shut_errors = omega arith
step-falls close_file = omega arith
step-falls cannot_close = omega arith
step-falls finish = omega arith
step-falls (fatal {p} {done}) = some_left p true done

pub After : Backup → Backup → Type 0
After t s = s ⟶ t

bounded : (k : ℕ) (s : Backup) → steps_left s < k → Acc After s
unfolding After
bounded zero s h = absurd (omega (arith, h))
bounded (suc k) s h = Acc.intro s λ t step. bounded k t (omega (arith, h, step-falls step))

-- The channel of the entries is closed at some time.
abbrev pub Closes : {A : Type 0} → List (Event A) → Type 0
Closes [] = ⊥
Closes (send x ∷ t) = Closes t
Closes (report e ∷ t) = Closes t
Closes (close_errors ∷ t) = Closes t
Closes (close_items ∷ t) = Unit

-- The lists that are still read close their channels.
abbrev ClosesFrom : Point → Type 0
ClosesFrom (opening rest) = All (λ job. Closes job.events) rest
ClosesFrom (copying file events out rest) = Closes events × All (λ job. Closes job.events) rest

abbrev WillClose : Backup → Type 0
WillClose (running p f done) = ClosesFrom p
WillClose _ = Unit

step-WillClose : {s t : Backup} → s ⟶ t → WillClose s → WillClose t
step-WillClose create h = h
step-WillClose cannot_create h = tt
step-WillClose write_message h = h
step-WillClose cannot_write h = tt
step-WillClose receive_error h = h
step-WillClose shut_errors h = h
step-WillClose close_file (h, hs) = hs
step-WillClose cannot_close h = tt
step-WillClose finish h = tt
step-WillClose fatal h = tt

reach-WillClose : {s t : Backup} → s ⟶* t → WillClose s → WillClose t
reach-WillClose here h = h
reach-WillClose (next step rest) h = reach-WillClose rest (step-WillClose step h)

-- Main has a step.
abbrev pub Moves : Backup → Type 0
Moves s = (t : Backup) × (s ⟶ t)

moves : (p : Point) (f : Bool) (done : Files) → ClosesFrom p → Moves (running p f done)
moves (opening []) f done h = (_, finish)
moves (opening (job ∷ rest)) f done h = (_, create)
moves (copying file (send m ∷ events) out rest) f done h = (_, write_message)
moves (copying file (report e ∷ events) out rest) f done h = (_, receive_error)
moves (copying file (close_errors ∷ events) out rest) f done h = (_, shut_errors)
moves (copying file (close_items ∷ events) out rest) f done h = (_, close_file)
moves (copying file [] out rest) f done (h, hs) = absurd h

-- Main has returned, or the program was ended.
abbrev pub IsOver : Backup → Type 0
IsOver (running p f done) = ⊥
IsOver _ = Unit

IsOver-or_Moves : (s : Backup) → WillClose s → IsOver s ⊎ Moves s
IsOver-or_Moves (running p f done) h = inr (moves p f done h)
IsOver-or_Moves (returned f done) h = inl tt
IsOver-or_Moves ended h = inl tt

-- Where each list closes its entries' channel, a backup that has come anywhere makes only finitely many
-- steps from there, in whatever order, and until it is over there is one for it to make.
pub backup_stops :
    {all : List Job} {s : Backup}
    → All (λ job. Closes job.events) all
    → start all ⟶* s
    → Acc After s × (IsOver s ⊎ Moves s)
backup_stops {all} {s} closes run =
    (bounded (suc (steps_left s)) s (omega arith), IsOver-or_Moves s (reach-WillClose run closes))
