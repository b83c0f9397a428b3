-- ===== src/Tools/Pages.antt =====
-- That the pages of member_list/member_list.go come to an end, and have each member once.
use mathlib.Core.List.{append-nil, append_assoc}
use membersys.Base.{
  ℕ, zero, suc, ◌<◌, ◌≡◌, refl, sym, ap, subst, ◌∙◌, true, false, none, List, [], ◌∷◌, ◌++◌, Text,
  pos, if◌then◌else◌, All, arith, length,
}
use membersys.Membership.{Member}
use membersys.Database.{MembershipDb}
use membersys.Tools.{all_printed, key_after, next_key, fetch, print_members}
use membersys.Tools.Order.{
  text_lt, key, HasNoNul, text_lt-nul_self, text_lt-nul_before, text_lt-nul_after,
}

-- The members whose keys are beyond `prev`.
pub beyond : Text → List Member → List Member
beyond prev [] = []
beyond prev (m ∷ ms) = let rest = beyond prev ms in if text_lt prev (key m) then m ∷ rest else rest

-- Each key is before all that follow.
abbrev pub Ordered : List Member → Type 0
Ordered [] = Unit
Ordered (m ∷ ms) = All (λ y. text_lt (key m) (key y) ≡ true) ms × Ordered ms

-- No key is empty or has a NUL.
abbrev pub IsKey : Member → Type 0
IsKey m = HasNoNul (key m) × (text_lt [] (key m) ≡ true)

abbrev pub take : ℕ → List Member → List Member
take zero ms = []
take (suc n) [] = []
take (suc n) (m ∷ ms) = m ∷ take n ms

beyond_none :
    (prev : Text) (q r : List Member)
    → All (λ m. text_lt prev (key m) ≡ false) q
    → beyond prev (q ++ r) ≡ beyond prev r
unfolding beyond
beyond_none prev [] r h = refl
beyond_none prev (m ∷ q) r (h, hs) = rw (h, beyond) (beyond_none prev q r hs)

beyond-All :
    (prev : Text) (r : List Member) → All (λ m. text_lt prev (key m) ≡ true) r → beyond prev r ≡ r
unfolding beyond
beyond-All prev [] h = refl
beyond-All prev (m ∷ r) (h, hs) = rw (h, beyond) (ap (λ l. m ∷ l) (beyond-All prev r hs))

-- The members before `m` in the order, and those after it.
before-All :
    (q : List Member) (m : Member) (d : List Member)
    → Ordered (q ++ m ∷ d)
    → All (λ x. text_lt (key_after m) (key x) ≡ false) q
before-All [] m d h = tt
before-All (x ∷ q) m d (h, hs) =
    (text_lt-nul_before (key x) (key m) (at_middle q h), before-All q m d hs)
  where
    at_middle :
        (q : List Member)
        → All (λ y. text_lt (key x) (key y) ≡ true) (q ++ m ∷ d)
        → text_lt (key x) (key m) ≡ true
    at_middle [] (h, hs) = h
    at_middle (y ∷ q) (h, hs) = at_middle q hs

after-All :
    (m : Member) (d : List Member)
    → All IsKey d
    → All (λ y. text_lt (key m) (key y) ≡ true) d
    → All (λ y. text_lt (key_after m) (key y) ≡ true) d
after-All m [] k h = tt
after-All m (y ∷ d) ((k, _), ks) (h, hs) =
    (text_lt-nul_after (key m) (key y) k h, after-All m d ks hs)

All-suffix : (P : Member → Type 0) (q r : List Member) → All P (q ++ r) → All P r
All-suffix P [] r h = h
All-suffix P (x ∷ q) r (_, hs) = All-suffix P q r hs

Ordered-suffix : (q r : List Member) → Ordered (q ++ r) → Ordered r
Ordered-suffix [] r h = h
Ordered-suffix (x ∷ q) r (_, hs) = Ordered-suffix q r hs

-- Beyond the key after `m` are those that follow `m`.
beyond_member :
    (q : List Member) (m : Member) (d : List Member)
    → Ordered (q ++ m ∷ d)
    → All IsKey d
    → beyond (key_after m) (q ++ m ∷ d) ≡ d
unfolding beyond
beyond_member q m d h k =
    let (later, _) = Ordered-suffix q (m ∷ d) h in
    beyond_none (key_after m) q (m ∷ d) (before-All q m d h)
    ∙ (rw (text_lt-nul_self (key m), beyond) (beyond-All (key_after m) d (after-All m d k later)))

-- A page of members, its last member, and what follows.
record Cut (n : ℕ) (r : List Member) : Type 0 where
  page : List Member
  last : Member
  rest : List Member
  whole : r ≡ page ++ last ∷ rest
  taken : take n r ≡ page ++ last ∷ []
  shorter : length rest < length r

cut : (n : ℕ) (m : Member) (r : List Member) → Cut (suc n) (m ∷ r)
cut zero m r = record {
  page = [];
  last = m;
  rest = r;
  whole = refl;
  taken = refl;
  shorter = omega arith;
}
cut (suc n) m [] = record {
  page = [];
  last = m;
  rest = [];
  whole = refl;
  taken = refl;
  shorter = omega arith;
}
cut (suc n) m (x ∷ r) =
    let c = cut n x r in
    record {
      page = m ∷ c.page;
      last = c.last;
      rest = c.rest;
      whole = ap (λ l. m ∷ l) c.whole;
      taken = ap (λ l. m ∷ l) c.taken;
      shorter = omega (arith, c.shorter);
    }

next_key-append :
    (prev : Text) (p : List Member) (m : Member) → next_key prev (p ++ m ∷ []) ≡ key_after m
unfolding next_key
next_key-append prev [] m = refl
next_key-append prev (x ∷ p) m = next_key-append (key_after x) p m

-- EnumerateMembers of a database that does not change: the first 25 members of `all` beyond a key, which
-- are in the order of their keys.
pub record Paged (db : MembershipDb) (s : db.State) (all : List Member) : Type 0 where
  pub ordered : Ordered all
  pub keys : All IsKey all
  pub page :
      (prev : Text)
      → db.enumerate_members prev (pos 25) s
        ≡ record { items = take 25 (beyond prev all); error = none }

module _ {db : MembershipDb} {s : db.State} {all : List Member} (h : Paged db s all) where
  no_error : (prev : Text) → (fetch db s prev).error ≡ none
  no_error prev = ap (λ l. l.error) (h.page prev)

  page_items :
      (prev : Text) (r : List Member) → beyond prev all ≡ r → (fetch db s prev).items ≡ take 25 r
  page_items prev r e = ap (λ l. l.items) (h.page prev) ∙ ap (take 25) e

  one_page :
      (k : ℕ) (prev : Text) (out : List Member) (m : Member) (r p : List Member)
      → beyond prev all ≡ m ∷ r
      → take 25 (m ∷ r) ≡ p
      → print_members db s (suc k) prev out ≡ print_members db s k (next_key prev p) (out ++ p)
  unfolding print_members
  one_page k prev out m r p e t =
      rw (print_members, no_error prev, page_items prev (m ∷ r) e)
        (ap (λ x. print_members db s k (next_key prev x) (out ++ x)) t)

  last_page :
      (k : ℕ) (prev : Text) (out : List Member)
      → beyond prev all ≡ []
      → print_members db s (suc k) prev out ≡ all_printed out
  unfolding print_members
  last_page k prev out e = rw (print_members, no_error prev, page_items prev [] e) refl

  beyond_page :
      (q p : List Member) (m : Member) (rest : List Member)
      → all ≡ (q ++ p) ++ m ∷ rest
      → beyond (key_after m) all ≡ rest
  beyond_page q p m rest e =
      ap (beyond (key_after m)) e
      ∙ beyond_member (q ++ p) m rest (subst Ordered e h.ordered) (
          All-suffix IsKey (m ∷ []) rest
            (All-suffix IsKey (q ++ p) (m ∷ rest) (subst (All IsKey) e h.keys)))

  pages_from :
      (k : ℕ) (q r : List Member) (prev : Text) (out : List Member)
      → all ≡ q ++ r
      → beyond prev all ≡ r
      → length r < k
      → print_members db s k prev out ≡ all_printed (out ++ r)
  pages_from zero q r prev out e b l = absurd (omega (arith, l))
  pages_from (suc k) q [] prev out e b l =
      last_page k prev out b ∙ ap all_printed (sym (append-nil out))
  pages_from (suc k) q (m ∷ r) prev out e b l =
      let c = cut 24 m r in
      let place : all ≡ (q ++ c.page) ++ c.last ∷ c.rest =
        e ∙ ap (λ x. q ++ x) c.whole ∙ sym (append_assoc q c.page (c.last ∷ c.rest)) in
      one_page k prev out m r (c.page ++ c.last ∷ []) b c.taken
      ∙ ap (λ x. print_members db s k x (out ++ (c.page ++ c.last ∷ [])))
          (next_key-append prev c.page c.last)
      ∙ pages_from k ((q ++ c.page) ++ c.last ∷ []) c.rest (key_after c.last)
          (out ++ (c.page ++ c.last ∷ []))
          (place ∙ sym (append_assoc (q ++ c.page) (c.last ∷ []) c.rest))
          (beyond_page q c.page c.last c.rest place) (omega (arith, l, c.shorter))
      ∙ ap all_printed (
          append_assoc out (c.page ++ c.last ∷ []) c.rest
          ∙ ap (λ x. out ++ x) (append_assoc c.page (c.last ∷ []) c.rest ∙ sym c.whole))

  IsKey-positive : (r : List Member) → All IsKey r → All (λ m. text_lt [] (key m) ≡ true) r
  IsKey-positive [] k = tt
  IsKey-positive (m ∷ r) ((_, p), ks) = (p, IsKey-positive r ks)

  -- member_list prints each member once, in the order of their keys, and comes to an end within one page
  -- more than there are members, given that the database does not change between the pages, and each page
  -- is the first 25 members beyond the last key, in the order of the keys, which are neither empty nor
  -- have a NUL.
  pub print_members-all : (k : ℕ) → length all < k → print_members db s k [] [] ≡ all_printed all
  print_members-all k l =
      pages_from k [] all [] [] refl (beyond-All [] all (IsKey-positive all h.keys)) l
