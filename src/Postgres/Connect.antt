-- ===== src/Postgres/Connect.antt =====
-- The data source name that NewPostgreSQLDB of db/pgsql.go opens. net.SplitHostPort is the parameter
-- `split_host_port`, none for its error.
use membersys.Base.{
  ℕ, ◌≡◌, ap, sym, ◌∙◌, Bool, true, false, Option, none, some, [], ◌∷◌, ◌++◌, Text, codes,
}

-- " name=value ", where there is a value.
unfoldable pub setting : Text → Text → Text
setting name [] = []
setting name (ch ∷ value) = name ++ ((ch ∷ value) ++ codes " ")

unfoldable pub ssl_mode : Bool → Text
ssl_mode true = codes "sslmode=verify-ca "
ssl_mode false = codes "sslmode=disable "

-- The host that was split off is assigned to `host`, and `hostname`, which is printed, stays "".
abbrev pub host_and_port : Option (Text × Text) → Option Text
host_and_port none = none
host_and_port (some (name, port)) = some (codes "host= port=" ++ (port ++ codes " "))

unfoldable pub host_settings : (Text → Option (Text × Text)) → Text → Option Text
host_settings split_host_port [] = some []
host_settings split_host_port (ch ∷ host) = host_and_port (split_host_port (ch ∷ host))

abbrev pub settings_after : Option Text → Text → Text → Text → Bool → Option Text
settings_after none dbname user password ssl = none
settings_after (some dsn) dbname user password ssl = some (
    dsn
    ++ (setting (codes "user=") user
        ++ (setting (codes "password=") password ++ (ssl_mode ssl ++ (codes "dbname=" ++ dbname)))))

unfoldable pub data_source_name :
    (Text → Option (Text × Text)) → Text → Text → Text → Text → Bool → Option Text
data_source_name split_host_port host = settings_after (host_settings split_host_port host)

-- Servers with one port are opened under one data source name, whatever their hosts are.
pub data_source_name_forgets_host :
    (split_host_port : Text → Option (Text × Text)) (ch ch' : ℕ) (host host' name name' port : Text)
    → split_host_port (ch ∷ host) ≡ some (name, port)
    → split_host_port (ch' ∷ host') ≡ some (name', port)
    → data_source_name split_host_port (ch ∷ host) ≡ data_source_name split_host_port (ch' ∷ host')
unfolding data_source_name host_settings
data_source_name_forgets_host split_host_port ch ch' host host' name name' port e e' =
    ap (λ r. settings_after (host_and_port r)) e
    ∙ ap (λ r. settings_after (host_and_port r)) (sym e')
