-- ===== src/Cassandra/Queries.antt =====
-- The SELECT statements of the lists of db/cassandra.go.
use membersys.Base.{
  ℕ, suc, true, false, Option, none, some, List, [], ◌∷◌, Text, Bytes, codes, ℤ, pos,
}
use membersys.Cassandra.Session.{Table, application, members, Select}
use membersys.Cassandra.Access.{application_end, member_key}

-- `if num > 0 { query += " LIMIT " + … }`.
abbrev pub limit_of : ℤ → Option ℕ
limit_of (pos (suc n)) = some (suc n)
limit_of _ = none

abbrev pub member_columns : List Text
member_columns =
    codes "name"
    ∷ codes "street"
    ∷ codes "city"
    ∷ codes "country"
    ∷ codes "email"
    ∷ codes "phone"
    ∷ codes "username"
    ∷ codes "fee"
    ∷ codes "fee_yearly"
    ∷ codes "has_key"
    ∷ codes "payments_caught_up_to"
    ∷ []

abbrev pub row_columns : List Text
row_columns = codes "key" ∷ codes "pb_data" ∷ []

unfoldable pub select_members : Text → ℤ → Select
select_members prev num = record {
  columns = member_columns;
  table = members;
  start = member_key prev;
  end = none;
  has_email = true;
  limit = limit_of num;
}

abbrev pub end_of : Option ℕ → Option Bytes
end_of none = some application_end
end_of (some n) = none

-- The upper bound on the key is there only without a limit.
unfoldable pub select_applications : Bytes → ℤ → Select
select_applications start num = record {
  columns = row_columns;
  table = application;
  start = start;
  end = end_of (limit_of num);
  has_email = false;
  limit = limit_of num;
}

unfoldable pub select_queued : Table → Bytes → ℤ → Select
select_queued table start num = record {
  columns = row_columns;
  table = table;
  start = start;
  end = none;
  has_email = false;
  limit = limit_of num;
}
