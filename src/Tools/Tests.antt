-- ===== src/Tools/Tests.antt =====
-- The theorem about the pages at concrete members.
use membersys.Base.{
  ◌≡◌, ◌&&◌, refl, Bool, true, Text, ltb, All, some, none, List, [], ◌∷◌, codes, arith,
}
use membersys.Membership.{Member, empty_member}
use membersys.Database.{MembershipDb, cassandra_db}
use membersys.Cassandra.Tests.Sample.{ada, session, one_member}
use membersys.Tools.{all_printed, print_members}
use membersys.Tools.Order.{text_lt, key, HasNoNul}
use membersys.Tools.Pages.{IsKey, beyond, take, Paged, print_members-all}

abbrev bob : Member
bob = record empty_member { name = some (codes "Bob"); email = some (codes "bob@example.org") }

abbrev two : List Member
two = ada ∷ bob ∷ []

abbrev paging : MembershipDb
paging = record (cassandra_db session 5) {
  enumerate_members = λ prev num s. record { items = take 25 (beyond prev two); error = none };
}

abbrev is_text : Text → Bool
is_text [] = true
is_text (b ∷ t) = ltb 0 b && is_text t

is_text-HasNoNul : (t : Text) → is_text t ≡ true → HasNoNul t
is_text-HasNoNul [] h = tt
is_text-HasNoNul (b ∷ t) h = (ground arith, is_text-HasNoNul t (ground arith))

two-AreKeys : All IsKey two
unfolding text_lt
two-AreKeys =
    ((is_text-HasNoNul (key ada) refl, refl), ((is_text-HasNoNul (key bob) refl, refl), tt))

paging-Paged : Paged paging one_member two
unfolding text_lt
paging-Paged = record { ordered = ((refl, tt), (tt, tt)); keys = two-AreKeys; page = λ prev. refl }

print_members-all_example : print_members paging one_member 3 [] [] ≡ all_printed two
print_members-all_example = print_members-all paging-Paged 3 (omega arith)
