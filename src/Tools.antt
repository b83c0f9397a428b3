-- ===== src/Tools.antt =====
-- The loop of member_list/member_list.go over the pages of EnumerateMembers.
pub mod Order
pub mod Pages
mod Tests
use membersys.Base.{ℕ, zero, suc, Option, none, some, List, [], ◌∷◌, ◌++◌, Text, pos}
use membersys.Membership.{Member, text_or_empty}
use membersys.Database.{MembershipDb}
use membersys.Cassandra.Enumerate.{Listing}

-- How the loop ends: at an empty page, or by log.Fatal, with the members printed so far; or not within
-- the given number of pages.
pub data Printed : Type 0 where
  all_printed fatal : List Member → Printed
  unfinished : Printed

-- `member.GetEmail() + "\000"`.
abbrev pub key_after : Member → Text
key_after m = text_or_empty m.email ++ 0 ∷ []

-- `prev_key` after the members of a page.
unfoldable pub next_key : Text → List Member → Text
next_key prev [] = prev
next_key prev (m ∷ ms) = next_key (key_after m) ms

module _ (db : MembershipDb) (s : db.State) where
  abbrev pub fetch : Text → Listing Member
  fetch prev = db.enumerate_members prev (pos 25) s

  -- At most `k` pages; the database is the same for each.
  unfoldable pub print_members : ℕ → Text → List Member → Printed
  unfolding next_key
  print_members zero prev out = unfinished
  print_members (suc k) prev out = elim (fetch prev).error [
    | some e ↦ fatal out
    | none ↦ elim (fetch prev).items [
      | [] ↦ all_printed out
      | m ∷ ms ↦ print_members k (next_key prev (m ∷ ms)) (out ++ m ∷ ms)
    ]
  ]
