-- ===== src/Startup.antt =====
-- New of db/new.go, which chooses the backend by the DatabaseConfig of config/config.proto.
use membersys.Base.{
  ℕ, ◌+◌, ◌-◌, ◌*◌, ◌%◌, ◌^◌, ◌<◌, ◌≡◌, refl, Bool, Option, none, some, List, Text, codes, ltb, ℤ,
  pos, negsuc, if◌then◌else◌, arith,
}
use membersys.Membership.{text_or_empty, number_or_zero, bool_or_false}

pub record CassandraDbConfig : Type 0 where
  pub database_server : List Text
  pub database_name : Option Text
  pub database_timeout : Option ℕ

pub record PostgreSqlConfig : Type 0 where
  pub database_server : Option Text
  pub database_name : Option Text
  pub user : Option Text
  pub password : Option Text
  pub ssl : Option Bool

-- The oneof of a DatabaseConfig: neither, or one of the two.
pub data DatabaseConfig : Type 0 where
  unset : DatabaseConfig
  cassandra : CassandraDbConfig → DatabaseConfig
  postgresql : PostgreSqlConfig → DatabaseConfig

-- The arguments of NewCassandraDB and of NewPostgreSQLDB.
pub data Backend : Type 0 where
  new_cassandra_db : List Text → Text → ℤ → Backend
  new_postgre_sql_db : Text → Text → Text → Text → Bool → Backend

-- GetDatabaseName(), with its default.
abbrev pub name_or_default : Option Text → Text
name_or_default none = codes "sfmembersys"
name_or_default (some name) = name

-- A 64-bit word as a signed number.
unfoldable pub to_int64 : ℕ → ℤ
to_int64 n = if ltb n (2 ^ 63) then pos n else negsuc (2 ^ 64 - (n + 1))

-- Milliseconds as a time.Duration: `time.Duration(ms) * time.Millisecond`.
unfoldable pub duration : ℕ → ℤ
duration ms = to_int64 ((ms * 1000000) % 2 ^ 64)

-- The backend that is connected to, none for the error that none is configured.
unfoldable pub new_backend : DatabaseConfig → Option Backend
new_backend unset = none
new_backend (cassandra c) = some (
    new_cassandra_db c.database_server (name_or_default c.database_name)
      (duration (number_or_zero c.database_timeout)))
new_backend (postgresql p) = some (
    new_postgre_sql_db (text_or_empty p.database_server) (name_or_default p.database_name)
      (text_or_empty p.user) (text_or_empty p.password) (bool_or_false p.ssl))

-- A timeout of less than 2^63 nanoseconds is the configured number of milliseconds.
pub duration-small : (ms : ℕ) → ms * 1000000 < 2 ^ 63 → duration ms ≡ pos (ms * 1000000)
unfolding duration to_int64
duration-small ms h = ground arith

-- A longer one wraps around: 2^63 nanoseconds, rounded up to milliseconds, are a time that is past.
duration_wraps : duration 9223372036855 ≡ negsuc 9223372036854551615
unfolding duration to_int64
duration_wraps = refl
