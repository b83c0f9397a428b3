-- ===== src/Creator/Rules.antt =====
-- Pre- and postconditions of the stretches of member_creator/member_creator.go, over the calls made
-- so far: what holds of them before a stretch, of its result and of them where it runs to its end, and of
-- them where the program ends in it.
use membersys.Base.{
  pure, ◌≡◌, refl, ap, subst, sym, Bool, true, false, Option, none, some, List, [], ◌∷◌, Text,
  Action, Error, Result, ok, err, panic, ◌>>=◌,
}
use membersys.Database.{MembershipDb}
use membersys.Cassandra.Enumerate.{Listing}
use membersys.Membership.{MemberWithKey}
use membersys.Creator.Directory.{Directory, Settings, Call, searched, modified, ModifyRequest}
use membersys.Creator.Run.{
  World, Run, ask, move, do_search, list_or_die, or_die, for_each_group, is_ok, succeeded,
}

-- The postcondition `q` of a stretch that ran on, `i` of one in which the program ended.
abbrev pub Ends :
    {A : Type 0} → (A → List Call → Type 0) → (List Call → Type 0) → Result A → List Call → Type 0
Ends q i (ok a) calls = q a calls
Ends q i (err e) calls = i calls
Ends q i panic calls = i calls

-- A condition that holds however a stretch ends.
pub Ends_always :
    {A : Type 0} (p : List Call → Type 0) {calls : List Call} (r : Result A)
    → Ends (λ _. p) p r calls
    → p calls
Ends_always p (ok a) h = h
Ends_always p (err e) h = h
Ends_always p panic h = h

module _ {db : MembershipDb} {ld : Directory} {set : Settings} where
  pub record Triple {A : Type 0} (p : List Call → Type 0) (m : Run db ld set A)
      (q : A → List Call → Type 0) (i : List Call → Type 0) : Type 0 where
    pub holds : (w : World db ld set) → p w.calls → Ends q i (m w).0 (m w).1.calls

  -- What a stretch makes of what its first part gives.
  pub bind-eq :
      {A B : Type 0} (m : Run db ld set A) (f : A → Run db ld set B) {w : World db ld set}
      {r : Result A × World db ld set}
      → m w ≡ r
      → (m >>= f) w ≡ ((λ _. r) >>= f) w
  bind-eq m f {w} h = ap (λ r. ((λ _. r) >>= f) w) h

  -- One stretch after another, from the world `w`.
  pub bind-Ends :
      {A B : Type 0} (i : List Call → Type 0) (q : A → List Call → Type 0)
      (r : B → List Call → Type 0) (m : Run db ld set A) (f : A → Run db ld set B)
      (w : World db ld set)
      → Ends q i (m w).0 (m w).1.calls
      → ((a : A) → q a (m w).1.calls → Ends r i (f a (m w).1).0 (f a (m w).1).1.calls)
      → Ends r i ((m >>= f) w).0 ((m >>= f) w).1.calls
  bind-Ends {A} {B} i q r m f w h next = go (m w).0 (m w).1 h next
    where
      after : Result A → World db ld set → Result B × World db ld set
      after x w1 = ((λ u. (x, w1)) >>= f) w

      go :
          (x : Result A) (w1 : World db ld set)
          → Ends q i x w1.calls
          → ((a : A) → q a w1.calls → Ends r i (f a w1).0 (f a w1).1.calls)
          → Ends r i (after x w1).0 (after x w1).1.calls
      go (ok a) w1 h next = next a h
      go (err e) w1 h next = h
      go panic w1 h next = h

  -- A list that main asks for gives its entries, or ends the program.
  pub list-Ends :
      (p i : List Call → Type 0) (list : db.State → Listing MemberWithKey) (w : World db ld set)
      → p w.calls
      → i w.calls
      → Ends
          (λ l calls. (l ≡ (list w.data_base).items) × p calls)
          i
          (list_or_die db ld set list w).0
          w.calls
  list-Ends p i list w h end = go (list w.data_base).error
    where
      go :
          (e : Option Error)
          → Ends
              (λ l calls. (l ≡ (list w.data_base).items) × p calls)
              i
              (or_die db ld set e (list w.data_base).items)
              w.calls
      go none = (refl, h)
      go (some e) = end

  module _ {A : Type 0} {p : List Call → Type 0} {i : List Call → Type 0} where
    pub pure-Triple :
        {q : A → List Call → Type 0} (a : A)
        → ((calls : List Call) → p calls → q a calls)
        → Triple p (pure a) q i
    pure-Triple a h = record { holds = λ w. h w.calls }

    -- One stretch after another.
    pub bind-Triple :
        {B : Type 0} {q : A → List Call → Type 0} {r : B → List Call → Type 0} {m : Run db ld set A}
        {f : A → Run db ld set B}
        → Triple p m q i
        → ((a : A) → Triple (q a) (f a) r i)
        → Triple p (m >>= f) r i
    bind-Triple {B} {q} {r} {m} {f} first next = record {
      holds = λ w h. go (m w).0 (m w).1 (first.holds w h);
    }
      where
        after : Result A → World db ld set → Result B × World db ld set
        after x w = ((λ u. (x, w)) >>= f) w

        go :
            (x : Result A) (w : World db ld set)
            → Ends q i x w.calls
            → Ends r i (after x w).0 (after x w).1.calls
        go (ok a) w h = (next a).holds w h
        go (err e) w h = h
        go panic w h = h

    -- A stronger precondition and a weaker postcondition.
    pub adapt-Triple :
        {p' : List Call → Type 0} {q q' : A → List Call → Type 0} {m : Run db ld set A}
        → ((calls : List Call) → p' calls → p calls)
        → ((a : A) (calls : List Call) → q a calls → q' a calls)
        → Triple p m q i
        → Triple p' m q' i
    adapt-Triple {p'} {q} {q'} {m} before good t = record {
      holds = λ w h. go (m w).0 (m w).1.calls (t.holds w (before w.calls h));
    }
      where
        go : (x : Result A) (calls : List Call) → Ends q i x calls → Ends q' i x calls
        go (ok a) calls h = good a calls h
        go (err e) calls h = h
        go panic calls h = h

  -- A condition in the precondition that is not about the calls.
  pub given-Triple :
      {A c : Type 0} {p i : List Call → Type 0} {q : A → List Call → Type 0} {m : Run db ld set A}
      → (c → Triple p m q i)
      → Triple (λ calls. c × p calls) m q i
  given-Triple t = record { holds = λ w h. (t h.0).holds w h.1 }

  module _ {p : List Call → Type 0} {i : List Call → Type 0} where
    pub ask-Triple :
        {q : Bool → List Call → Type 0} (call : ld.State → Bool × ld.State) (event : Bool → Call)
        → ((done : Bool) (calls : List Call) → p calls → q done (event done ∷ calls))
        → Triple p (ask db ld set call event) q i
    ask-Triple call event h = record { holds = λ w. h (call w.directory).0 w.calls }

    pub search-Triple :
        {q : Option (List (List Text)) → List Call → Type 0} (filter attribute : Text)
        → ((found : Option (List (List Text))) (calls : List Call)
            → p calls
            → q found (searched filter found ∷ calls))
        → Triple p (do_search db ld set filter attribute) q i
    search-Triple filter attribute h = record {
      holds = λ w. h (ld.search filter attribute w.directory).0 w.calls;
    }

    pub move-Triple :
        {q : Bool → List Call → Type 0} (call : Action db.State (Unit {0})) (event : Bool → Call)
        → ((done : Bool) (calls : List Call) → p calls → q done (event done ∷ calls))
        → ((calls : List Call) → p calls → i (event false ∷ calls))
        → Triple p (move db ld set call event) q i
    move-Triple {q} call event good bad = record { holds = λ w h. go w h (call w.data_base).0 }
      where
        go :
            (w : World db ld set)
            → p w.calls
            → (r : Result (Unit {0}))
            → Ends q i (succeeded db ld set r) (event (is_ok db ld set r) ∷ w.calls)
        go w h (ok _) = good true w.calls h
        go w h (err e) = good false w.calls h
        go w h panic = bad w.calls h

    pub list-Triple :
        {q : List MemberWithKey → List Call → Type 0} (list : db.State → Listing MemberWithKey)
        → ((l : List MemberWithKey) (calls : List Call) → p calls → q l calls)
        → ((calls : List Call) → p calls → i calls)
        → Triple p (list_or_die db ld set list) q i
    list-Triple {q} list good bad = record {
      holds = λ w h. go (list w.data_base).items w.calls h (list w.data_base).error;
    }
      where
        go :
            (l : List MemberWithKey) (calls : List Call)
            → p calls
            → (e : Option Error) → Ends q i (or_die db ld set e l) calls
        go l calls h none = good l calls h
        go l calls h (some e) = bad calls h

  pub for_each_group-Triple :
      {p : List Call → Type 0} {i : List Call → Type 0} (request : Text → ModifyRequest)
      (groups : List Text)
      → ((m : ModifyRequest) (done : Bool) (calls : List Call)
          → p calls
          → p (modified m done ∷ calls))
      → Triple p (for_each_group db ld set request groups) (λ _. p) i
  unfolding for_each_group
  for_each_group-Triple request [] keep = pure-Triple tt λ calls h. h
  for_each_group-Triple request (group ∷ groups) keep =
      bind-Triple
        (ask-Triple (ld.modify (request group)) (modified (request group)) (keep (request group)))
        λ done. for_each_group-Triple request groups keep

  -- From the start, where no call has been made.
  pub from_start :
      {A : Type 0} {p q : List Call → Type 0} {m : Run db ld set A}
      → Triple p m (λ _. q) q
      → p []
      → (w : World db ld set) → w.calls ≡ []
      → q (m w).1.calls
  from_start {A} {p} {q} {m} t h w e = Ends_always q (m w).0 (t.holds w (subst p (sym e) h))
