-- ===== src/Probes/Postgres.antt =====
-- internal/probes/postgres.go.
pub mod Endpoint
pub mod Dsn
pub mod Execute
use dynamic_secret_operator.Api.Pods.{value_of}
use dynamic_secret_operator.Prelude.{
  Text, codes, is_empty, contains, text_eq, not, Bool, Option, none, some, List, [], ◌∷◌, ◌++◌,
  ◌&&◌, cut_first, if◌then◌else◌, true, false,
}
use dynamic_secret_operator.Api.{ValidationProbe, ProbeCredentials}
use dynamic_secret_operator.Canary.Endpoint.{Net}
use dynamic_secret_operator.Client.{SecretData, Result, ok, err, failed}
use dynamic_secret_operator.Probes.Escape.{query_escape}
use dynamic_secret_operator.Probes.Sql.{
  extract_secret_value, or_else, trim_prefix, contains_any, is_safe_host, is_safe_port,
  host_port_or, Opened, opened, open_failed, Database, sanitized,
}

-- The value of a key that the probe names; the empty text names none.
abbrev named_value : Text → SecretData → Text
named_value key entries = if is_empty key then [] else value_of key entries

-- A key of the probe's credentials, if the probe has any.
abbrev explicit_value : (ProbeCredentials → Text) → Option ProbeCredentials → SecretData → Text
explicit_value key none entries = []
explicit_value key (some credentials) entries = named_value (key credentials) entries

-- The value of a secret that has one.
abbrev pub sole_value : SecretData → Text
sole_value [] = []
sole_value ((k, v) ∷ []) = v
sole_value ((k, v) ∷ (e ∷ entries)) = []

unfoldable pub explicit_username : ValidationProbe → SecretData → Text
unfolding value_of
explicit_username config entries = explicit_value (λ c. c.username_key) config.credentials entries

unfoldable pub explicit_dbname : ValidationProbe → SecretData → Text
unfolding value_of
explicit_dbname config entries = explicit_value (λ c. c.database_key) config.credentials entries

unfoldable pub postgres_password : ValidationProbe → SecretData → Text
unfolding value_of extract_secret_value explicit_username explicit_dbname
postgres_password config entries =
    let found = or_else (explicit_value (λ c. c.password_key) config.credentials entries) (
      extract_secret_value entries
        (codes "password" ∷ codes "pass" ∷ codes "POSTGRES_PASSWORD" ∷ codes "pgpassword" ∷ [])) in
    let explicit = explicit_username config entries ++ explicit_dbname config entries in
    or_else found (if is_empty explicit then sole_value entries else [])

unfoldable pub postgres_username : ValidationProbe → SecretData → Text
unfolding extract_secret_value explicit_username
postgres_username config entries = or_else (explicit_username config entries) (
    or_else
      (extract_secret_value entries
        (codes "username" ∷ codes "user" ∷ codes "POSTGRES_USER" ∷ codes "pguser" ∷ []))
      (codes "postgres"))

-- The database of the secret, or else of the endpoint, or else the default.
unfoldable pub postgres_dbname : ValidationProbe → SecretData → Text → Text
unfolding extract_secret_value explicit_dbname
postgres_dbname config entries endpoint_db = or_else (explicit_dbname config entries) (
    or_else
      (extract_secret_value entries
        (codes "dbname" ∷ codes "database" ∷ codes "POSTGRES_DB" ∷ codes "db" ∷ []))
      (or_else endpoint_db (codes "appdb")))

-- Of an endpoint, what is connected to.
pub record Address : Type 0 where
  pub host : Text
  pub port : Text
  pub endpoint_db : Text

-- A host and a port with the database behind them.
abbrev with_database : Text → Option (Text × Text) → Option Address
with_database endpoint_db none = none
with_database endpoint_db (some (host, port)) =
    some (record { host = host; port = port; endpoint_db = endpoint_db })

unfoldable pub parse_postgres_endpoint : Net → Text → Text → Option Address
unfolding trim_prefix host_port_or
parse_postgres_endpoint net endpoint default_port =
    let tcp = trim_prefix endpoint (codes "tcp://") in
    let postgres = trim_prefix tcp (codes "postgres://") in
    let postgresql = trim_prefix postgres (codes "postgresql://") in
    elim (cut_first b'/' postgresql) [
      | none ↦ with_database [] (host_port_or net postgresql default_port)
      | some (before, after) ↦ with_database after (host_port_or net before default_port)
    ]

unfoldable pub is_safe_address : Net → Address → Bool
unfolding is_safe_host is_safe_port contains_any
is_safe_address net a =
    is_safe_host a.host
    && (is_safe_port net a.port && not (contains_any a.endpoint_db (codes "?&\\@# \t\r\n")))

unfoldable pub postgres_address : Net → Text → Option Address
unfolding parse_postgres_endpoint is_safe_address
postgres_address net endpoint = elim (parse_postgres_endpoint net endpoint (codes "5432")) [
  | none ↦ none
  | some a ↦ if is_safe_address net a then some a else none
]

-- "postgres://%s:%s@%s:%s/%s?sslmode=disable&connect_timeout=%d", of escaped texts, for 5 seconds.
unfoldable pub postgres_url : Text → Text → Text → Text → Text → Text
postgres_url user password host port dbname =
    codes "postgres://"
    ++ (user
        ++ (codes ":"
            ++ (password
                ++ (codes "@"
                    ++ (host
                        ++ (codes ":"
                            ++ (port
                                ++ (codes "/"
                                    ++ (dbname
                                        ++ codes "?sslmode=disable&connect_timeout=5")))))))))

-- What the probe connects with.
pub record Login : Type 0 where
  pub username : Text
  pub password : Text
  pub host : Text
  pub port : Text
  pub dbname : Text

unfoldable pub postgres_dsn : Login → Text
unfolding postgres_url query_escape
postgres_dsn l =
    postgres_url (query_escape l.username) (query_escape l.password) l.host l.port
      (query_escape l.dbname)

-- The same login to the database "postgres".
unfoldable pub fallback_dsn : Login → Text
unfolding postgres_url query_escape
fallback_dsn l =
    postgres_url (query_escape l.username) (query_escape l.password) l.host l.port
      (codes "postgres")

unfoldable pub login_of : ValidationProbe → SecretData → Address → Login
unfolding postgres_username postgres_password postgres_dbname
login_of config entries a = record {
  username = postgres_username config entries;
  password = postgres_password config entries;
  host = a.host;
  port = a.port;
  dbname = postgres_dbname config entries a.endpoint_db;
}

-- The error of an endpoint that is refused: it quotes the endpoint as it stands in the policy.
abbrev pub unsafe_postgres_endpoint : Net → Text → Text
unsafe_postgres_endpoint net endpoint =
    codes "invalid or unsafe postgres endpoint: " ++ net.quote endpoint

module _ {S D : Type 0} (database : Database S D) where
  open database use {open_db, ping, select_one, close}

  abbrev pub answer : Login → Option Text × S → Result (Unit {0}) × S
  answer l (none, s) = (ok tt, s)
  answer l (some message, s) = (sanitized message l.password (postgres_dsn l), s)

  -- The second attempt, with the message of the first; its connection is closed.
  abbrev pub after_fallback : Login → Text → Opened D × S → Result (Unit {0}) × S
  after_fallback l message (open_failed m, s) = answer l (some message, s)
  after_fallback l message (opened db, s) =
      let pinged = ping db s in
      elim pinged.0 [
        | none ↦ (ok tt, close db pinged.1)
        | some m ↦ answer l (some message, close db pinged.1)
      ]

  abbrev pub needs_fallback : Login → Text → Bool
  needs_fallback l message =
      contains message (codes "does not exist") && not (text_eq l.dbname (codes "postgres"))

  abbrev pub after_ping : Login → D → Option Text × S → Result (Unit {0}) × S
  after_ping l db (none, s) = answer l (select_one db s)
  after_ping l db (some message, s) =
      if needs_fallback l message
      then after_fallback l message (open_db (codes "postgres") (fallback_dsn l) s)
      else answer l (some message, s)

  -- The deferred `Close`.
  abbrev pub after_open : Login → Opened D × S → Result (Unit {0}) × S
  after_open l (open_failed message, s) = answer l (some message, s)
  after_open l (opened db, s) =
      let checked = after_ping l db (ping db s) in (checked.0, close db checked.1)

  unfoldable pub postgres_execute : Net → ValidationProbe → SecretData → S → Result (Unit {0}) × S
  unfolding postgres_address login_of postgres_dsn fallback_dsn
  postgres_execute net config entries s =
      if is_empty config.endpoint
      then (err (failed (codes "postgresql probe endpoint must not be empty")), s)
      else elim (postgres_address net config.endpoint) [
        | none ↦ (err (failed (unsafe_postgres_endpoint net config.endpoint)), s)
        | some a ↦
            let l = login_of config entries a in
            after_open l (open_db (codes "postgres") (postgres_dsn l) s)
      ]
