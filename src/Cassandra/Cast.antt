-- ===== src/Cassandra/Cast.antt =====
-- Reading a row of `map[string]interface{}` into a Member: castString, castBool, castInt64AsUint64,
-- castBytes and memberFromRow of db/cassandra.go.
use membersys.Base.{
  ℕ, Bool, Option, none, some, [], ◌∷◌, Text, Bytes, codes, text_eq, if◌then◌else◌, to_uint64,
}
use membersys.Membership.{Member}
use membersys.Cassandra.Session.{Value, text, boolean, bigint, blob, Row}

-- `intf, ok = input[key]`.
unfoldable pub lookup : Text → Row → Option Value
lookup key [] = none
lookup key ((k, v) ∷ input) = if text_eq k key then some v else lookup key input

abbrev pub as_text : Option Value → Option Text
as_text (some (text t)) = some t
as_text _ = none

abbrev pub as_bool : Option Value → Option Bool
as_bool (some (boolean b)) = some b
as_bool _ = none

abbrev pub as_uint64 : Option Value → Option ℕ
as_uint64 (some (bigint i)) = some (to_uint64 i)
as_uint64 _ = none

abbrev pub as_bytes : Option Value → Bytes
as_bytes (some (blob b)) = b
as_bytes _ = []

unfoldable pub cast_string : Row → Text → Option Text
cast_string input key = as_text (lookup key input)

unfoldable pub cast_bool : Row → Text → Option Bool
cast_bool input key = as_bool (lookup key input)

unfoldable pub cast_int64_as_uint64 : Row → Text → Option ℕ
cast_int64_as_uint64 input key = as_uint64 (lookup key input)

-- A nil slice is an empty one.
unfoldable pub cast_bytes : Row → Text → Bytes
cast_bytes input key = as_bytes (lookup key input)

unfoldable pub member_from_row : Row → Member
member_from_row row = record {
  id = cast_int64_as_uint64 row (codes "id");
  name = cast_string row (codes "name");
  street = cast_string row (codes "street");
  city = cast_string row (codes "city");
  zipcode = cast_string row (codes "zipcode");
  country = cast_string row (codes "country");
  email = cast_string row (codes "email");
  email_verified = cast_bool row (codes "email_verified");
  phone = cast_string row (codes "phone");
  fee = cast_int64_as_uint64 row (codes "fee");
  username = cast_string row (codes "username");
  pwhash = cast_string row (codes "pwhash");
  fee_yearly = cast_bool row (codes "fee_yearly");
  has_key = cast_bool row (codes "has_key");
  payments_caught_up_to = cast_int64_as_uint64 row (codes "payments_caught_up_to");
}
