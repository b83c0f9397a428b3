-- ===== src/Cassandra/Laws/Batches.antt =====
-- What a logged batch of db/cassandra.go has done when it returns, whatever it returns.
use membersys.Base.{◌≡◌, refl, ◌⊎◌, inl, true, false, Bool, List, Bytes, Text, text_eq, text_eq_iff}
use membersys.Cassandra.Session.{Session, Table, Statement}
use membersys.Cassandra.Laws.{Laws, is_separate, apply_batch}

pub text_eq_self : (t : Text) → text_eq t t ≡ true
text_eq_self t = (text_eq_iff t t).1 refl

module _ (c : Session) (l : Laws c) where
  -- No row has changed from `s` to `s'`.
  abbrev pub Unchanged : c.State → c.State → Type 0
  Unchanged s s' = (t : Table) (k : Bytes) → l.pb_data s' t k ≡ l.pb_data s t k

  -- Every statement of the batch has had its effect from `s` to `s'`.
  abbrev pub Applied : List Statement → c.State → c.State → Type 0
  Applied batch s s' =
      (t : Table) (k : Bytes) → l.pb_data s' t k ≡ apply_batch batch t k (l.pb_data s t k)

  batch_by_outcome :
      (batch : List Statement) (s : c.State) (r : Bool × c.State)
      → is_separate batch ≡ true
      → c.execute_batch batch s ≡ r
      → Applied batch s r.1 ⊎ Unchanged s r.1
  batch_by_outcome batch s (true, s') h e = inl (l.batch_done batch s s' h e)
  batch_by_outcome batch s (false, s') h e = l.batch_failed batch s s' h e

  -- A batch is applied as a whole or not at all.
  pub batch_settles :
      (batch : List Statement) (s : c.State)
      → is_separate batch ≡ true
      → Applied batch s (c.execute_batch batch s).1 ⊎ Unchanged s (c.execute_batch batch s).1
  batch_settles batch s h = batch_by_outcome batch s (c.execute_batch batch s) h refl
