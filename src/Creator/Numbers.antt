-- ===== src/Creator/Numbers.antt =====
-- The numbers of accounts in member_creator/member_creator.go.
use membersys.Base.{ℕ, ◌+◌, ◌%◌, ◌^◌, none, some, List, [], ◌∷◌, Text, codes, ltb, if◌then◌else◌}
use membersys.Web.Numbers.{parse_uint}

-- The loop over the entries that finds the highest number assigned.
unfoldable pub highest_of : List Text → ℕ → ℕ
highest_of [] greatest = greatest
highest_of (uid ∷ uids) greatest = elim (parse_uint uid) [
  | none ↦ highest_of uids greatest
  | some n ↦ highest_of uids (if ltb greatest n then n else greatest)
]

unfoldable pub highest_uid : List (List Text) → ℕ → ℕ
highest_uid [] greatest = greatest
highest_uid (uids ∷ entries) greatest = highest_uid entries (highest_of uids greatest)

abbrev pub first_uid : ℕ
first_uid = 1000

abbrev pub accounts_filter : Text
accounts_filter = codes "(objectClass=posixAccount)"

-- The number that a member with a user name gets, whether or not the account can be made.
unfoldable pub next_uid : ℕ → ℕ
next_uid greatest = (greatest + 1) % 2 ^ 64
