-- ===== src/Postgres/Collect.antt =====
-- The loops of EnumerateMembers, EnumerateMembershipRequests, EnumerateQueuedMembers,
-- EnumerateDeQueuedMembers and EnumerateTrashedMembers of db/pgsql.go: a select over the two channels
-- with a default that returns. The producer is a goroutine of its own, so the loop is a relation.
use membersys.Base.{
  ◌≡◌, ◌⊎◌, inl, inr, ◌≢◌, refl, subst, Bool, true, false, Option, none, some, List, [], ◌∷◌, ◌++◌,
  Text, codes, ℤ, Error, All,
}
use membersys.Membership.{Member, MembershipAgreement, MembershipAgreementWithKey, MemberWithKey}
use membersys.Cassandra.Enumerate.{Event, send, report, close_items, close_errors}
use membersys.Postgres.Sql.{Sql}
use membersys.Postgres.Lists.{
  Stream, SendsNothing, IsNoEntry, streaming_enumerate_members,
  streaming_enumerate_membership_requests, streaming_enumerate_queued_members,
  streaming_enumerate_de_queued_members, streaming_enumerate_trashed_members, forward,
  forward-SendsNothing, enumerate_members_of_state, enumerate-SendsNothing, request_with_key,
  member_with_key,
}

-- What the producer still does and whether it panics after that, whether it waits at a send, whether the
-- channels of the entries and of the errors are closed, and the list and the error so far, where a nil
-- entry is none. Then what the loop has returned, or the end of the program.
pub data Loop (A : Type 0) : Type 0 where
  collecting : List (Event A) → Bool → Bool → Bool → Bool → List (Option A) → Option Error → Loop A
  returned : List (Option A) → Option Error → Loop A
  crashed : Loop A

module _ {A : Type 0} where
  infix 40 ◌⟶◌ ◌⟶*◌
  pub data ◌⟶◌ : Loop A → Loop A → Type 0 where
    -- The producer comes to a send, and waits.
    offer_item :
        {a : A} {rest : List (Event A)} {p i e : Bool} {xs : List (Option A)} {x : Option Error}
        → collecting (send a ∷ rest) p false i e xs x ⟶ collecting (send a ∷ rest) p true i e xs x
    offer_error :
        {r : Error} {rest : List (Event A)} {p i e : Bool} {xs : List (Option A)} {x : Option Error}
        → collecting (report r ∷ rest) p false i e xs x
          ⟶ collecting (report r ∷ rest) p true i e xs x
    -- The select takes what the producer waits with.
    receive_item :
        {a : A} {rest : List (Event A)} {p i e : Bool} {xs : List (Option A)} {x : Option Error}
        → collecting (send a ∷ rest) p true i e xs x
          ⟶ collecting rest p false i e (xs ++ some a ∷ []) x
    receive_error :
        {r : Error} {rest : List (Event A)} {p i e : Bool} {xs : List (Option A)} {x : Option Error}
        → collecting (report r ∷ rest) p true i e xs x ⟶ collecting rest p false i e xs (some r)
    -- The producer closes a channel.
    shut_items :
        {rest : List (Event A)} {p w i e : Bool} {xs : List (Option A)} {x : Option Error}
        → collecting (close_items ∷ rest) p w i e xs x ⟶ collecting rest p w true e xs x
    shut_errors :
        {rest : List (Event A)} {p w i e : Bool} {xs : List (Option A)} {x : Option Error}
        → collecting (close_errors ∷ rest) p w i e xs x ⟶ collecting rest p w i true xs x
    -- A closed channel gives nil at once.
    nil_item :
        {rest : List (Event A)} {p w e : Bool} {xs : List (Option A)} {x : Option Error}
        → collecting rest p w true e xs x ⟶ collecting rest p w true e (xs ++ none ∷ []) x
    nil_error :
        {rest : List (Event A)} {p w i : Bool} {xs : List (Option A)} {x : Option Error}
        → collecting rest p w i true xs x ⟶ collecting rest p w i true xs none
    -- The default, where no channel is ready.
    default :
        {rest : List (Event A)} {p : Bool} {xs : List (Option A)} {x : Option Error}
        → collecting rest p false false false xs x ⟶ returned xs x
    -- The panic of the producer ends the program.
    panics :
        {w i e : Bool} {xs : List (Option A)} {x : Option Error}
        → collecting [] true w i e xs x ⟶ crashed

  pub data ◌⟶*◌ : Loop A → Loop A → Type 0 where
    here : {s : Loop A} → s ⟶* s
    next : {s t u : Loop A} → s ⟶ t → t ⟶* u → s ⟶* u

  -- A property that no step ends holds from then on.
  pub reach-Keeps :
      (P : Loop A → Type 0)
      → ((s t : Loop A) → s ⟶ t → P s → P t)
      → {s t : Loop A} → s ⟶* t
      → P s
      → P t
  reach-Keeps P keep here h = h
  reach-Keeps P keep (next step rest) h = reach-Keeps P keep rest (keep _ _ step h)

  -- A channel is closed, or the program has ended.
  abbrev pub IsStuck : Loop A → Type 0
  IsStuck (collecting events p w i e xs x) = (i ≡ true) ⊎ (e ≡ true)
  IsStuck (returned xs x) = ⊥
  IsStuck crashed = Unit

  step-IsStuck : {s t : Loop A} → s ⟶ t → IsStuck s → IsStuck t
  step-IsStuck offer_item h = h
  step-IsStuck offer_error h = h
  step-IsStuck receive_item h = h
  step-IsStuck receive_error h = h
  step-IsStuck shut_items h = inl refl
  step-IsStuck shut_errors h = inr refl
  step-IsStuck nil_item h = h
  step-IsStuck nil_error h = h
  step-IsStuck default (inl e) = absurd (cc e)
  step-IsStuck default (inr e) = absurd (cc e)
  step-IsStuck panics h = tt

  -- No entry is to come, and there is none as long as the entries' channel is open.
  abbrev pub IsBare : Loop A → Type 0
  IsBare (collecting events p w i e xs x) = All IsNoEntry events × (i ≡ false → xs ≡ [])
  IsBare (returned xs x) = xs ≡ []
  IsBare crashed = Unit

  step-IsBare : {s t : Loop A} → s ⟶ t → IsBare s → IsBare t
  step-IsBare offer_item h = h
  step-IsBare offer_error h = h
  step-IsBare receive_item h = absurd h.0.0
  step-IsBare receive_error h = (h.0.1, h.1)
  step-IsBare shut_items h = (h.0.1, λ e. absurd (cc e))
  step-IsBare shut_errors h = (h.0.1, h.1)
  step-IsBare nil_item h = (h.0, λ e. absurd (cc e))
  step-IsBare nil_error h = h
  step-IsBare default h = h.1 refl
  step-IsBare panics h = tt

  -- The loop before the goroutine has begun.
  abbrev pub start : Stream A → Loop A
  start st = collecting st.events st.panics false false false [] none

-- A loop that goes on while one of its channels is closed never returns, in any order of the steps: the
-- closed channel is always ready, and the default is never taken.
pub closed_channel_never_returns :
    {A : Type 0} (events : List (Event A)) (p w i e : Bool) (xs : List (Option A))
    (x : Option Error) (t : Loop A)
    → (i ≡ true) ⊎ (e ≡ true)
    → collecting events p w i e xs x ⟶* t
    → (ys : List (Option A)) (y : Option Error) → t ≢ returned ys y
closed_channel_never_returns events p w i e xs x t closed steps ys y k =
    subst IsStuck k (reach-Keeps IsStuck (λ s t. step-IsStuck) steps closed)

-- The five methods, before their goroutines have begun.
module _ (p : Sql) where
  abbrev pub enumerate_members : Text → ℤ → p.State → Loop (Option Member)
  enumerate_members prev num s = start (streaming_enumerate_members p prev num s)

  abbrev pub enumerate_membership_requests :
      Text → Text → ℤ → p.State → Loop MembershipAgreementWithKey
  enumerate_membership_requests criterion prev num s =
      start (streaming_enumerate_membership_requests p criterion prev num s)

  abbrev pub enumerate_queued_members : Text → ℤ → p.State → Loop MemberWithKey
  enumerate_queued_members prev num s = start (streaming_enumerate_queued_members p prev num s)

  abbrev pub enumerate_de_queued_members : Text → ℤ → p.State → Loop MemberWithKey
  enumerate_de_queued_members prev num s =
      start (streaming_enumerate_de_queued_members p prev num s)

  abbrev pub enumerate_trashed_members : Text → ℤ → p.State → Loop MemberWithKey
  enumerate_trashed_members prev num s = start (streaming_enumerate_trashed_members p prev num s)

-- One of the five.
pub data IsList (p : Sql) (s : p.State) : (A : Type 0) → Loop A → Type 1 where
  of_members : (prev : Text) (num : ℤ) → IsList p s (Option Member) (enumerate_members p prev num s)
  of_requests :
      (criterion prev : Text) (num : ℤ)
      → IsList p s MembershipAgreementWithKey (enumerate_membership_requests p criterion prev num s)
  of_queued :
      (prev : Text) (num : ℤ) → IsList p s MemberWithKey (enumerate_queued_members p prev num s)
  of_de_queued :
      (prev : Text) (num : ℤ) → IsList p s MemberWithKey (enumerate_de_queued_members p prev num s)
  of_trashed :
      (prev : Text) (num : ℤ) → IsList p s MemberWithKey (enumerate_trashed_members p prev num s)

forwarded :
    (p : Sql) {B : Type 0} (f : MembershipAgreement → B) (state criterion prev : Text) (num : ℤ)
    (s : p.State)
    → SendsNothing (forward f (enumerate_members_of_state p state criterion prev num s))
forwarded p f state criterion prev num s =
    forward-SendsNothing f (enumerate_members_of_state p state criterion prev num s)
      (enumerate-SendsNothing p state criterion prev num s)

list-IsBare : (p : Sql) (s : p.State) (A : Type 0) (l : Loop A) → IsList p s A l → IsBare l
unfolding streaming_enumerate_members streaming_enumerate_membership_requests
    streaming_enumerate_queued_members streaming_enumerate_de_queued_members
    streaming_enumerate_trashed_members
list-IsBare p s A l (of_members prev num) = (
  forwarded p (λ (a : MembershipAgreement). a.member_data) (codes "ACTIVE") [] prev num s,
  λ e. refl,
)
list-IsBare p s A l (of_requests criterion prev num) =
    (forwarded p (request_with_key p) (codes "APPLICATION") criterion prev num s, λ e. refl)
list-IsBare p s A l (of_queued prev num) =
    (forwarded p (member_with_key p) (codes "IN_CREATION") [] prev num s, λ e. refl)
list-IsBare p s A l (of_de_queued prev num) =
    (forwarded p (member_with_key p) (codes "IN_DELETION") [] prev num s, λ e. refl)
list-IsBare p s A l (of_trashed prev num) =
    (forwarded p (member_with_key p) (codes "ARCHIVED") [] prev num s, λ e. refl)

-- Whatever the table holds, and in any order of the steps: where one of the five lists returns at all, it
-- returns no entry.
pub lists_return_nothing :
    (p : Sql) (s : p.State) (A : Type 0) (l : Loop A) (ys : List (Option A)) (y : Option Error)
    → IsList p s A l
    → l ⟶* returned ys y
    → ys ≡ []
lists_return_nothing p s A l ys y list steps =
    reach-Keeps IsBare (λ s t. step-IsBare) steps (list-IsBare p s A l list)
