-- ===== src/Probes/MySql.antt =====
-- internal/probes/mysql.go.
pub mod Execute
use dynamic_secret_operator.Prelude.{
  Text, codes, is_empty, Option, none, some, List, [], ◌∷◌, ◌++◌, ◌&&◌, if◌then◌else◌, true, false,
}
use dynamic_secret_operator.Api.{ValidationProbe}
use dynamic_secret_operator.Canary.Endpoint.{Net}
use dynamic_secret_operator.Client.{SecretData, Result, ok, err, failed}
use dynamic_secret_operator.Probes.Sql.{
  extract_secret_value, or_else, trim_prefix, is_safe_host, is_safe_port, host_port_or, Opened,
  opened, open_failed, Database, sanitized,
}

-- `splitHostPort` of internal/probes/postgres.go.
unfoldable pub split_host_port : Net → Text → Text → Option (Text × Text)
unfolding trim_prefix host_port_or
split_host_port net endpoint default_port =
    host_port_or net (trim_prefix endpoint (codes "tcp://")) default_port

abbrev pub if_safe : Net → Text × Text → Option (Text × Text)
if_safe net (host, port) =
    if is_safe_host host && is_safe_port net port then some (host, port) else none

-- The endpoint's host and port, if they pass the tests.
unfoldable pub mysql_address : Net → Text → Option (Text × Text)
unfolding split_host_port is_safe_host is_safe_port
mysql_address net endpoint = elim (split_host_port net endpoint (codes "3306")) [
  | none ↦ none
  | some address ↦ if_safe net address
]

unfoldable pub mysql_username : SecretData → Text
unfolding extract_secret_value
mysql_username entries =
    or_else
      (extract_secret_value entries
        (codes "username" ∷ codes "user" ∷ codes "MYSQL_USER" ∷ codes "mysql_user" ∷ []))
      (codes "root")

unfoldable pub mysql_password : SecretData → Text
unfolding extract_secret_value
mysql_password entries =
    extract_secret_value entries
      (codes "password" ∷ codes "pass" ∷ codes "MYSQL_PASSWORD" ∷ codes "mysql_password" ∷ [])

unfoldable pub mysql_dbname : SecretData → Text
unfolding extract_secret_value
mysql_dbname entries =
    extract_secret_value entries
      (codes "dbname" ∷ codes "database" ∷ codes "MYSQL_DATABASE" ∷ codes "db" ∷ [])

-- "%s:%s@tcp(%s:%s)/%s?timeout=5s".
unfoldable pub mysql_dsn : Text → Text → Text → Text → Text → Text
mysql_dsn username password host port dbname =
    username
    ++ (codes ":"
        ++ (password
            ++ (codes "@tcp("
                ++ (host
                    ++ (codes ":" ++ (port ++ (codes ")/" ++ (dbname ++ codes "?timeout=5s"))))))))

-- The error of an endpoint that is refused: it quotes the endpoint as it stands in the policy.
abbrev pub unsafe_mysql_endpoint : Net → Text → Text
unsafe_mysql_endpoint net endpoint =
    codes "invalid or unsafe mysql endpoint: " ++ net.quote endpoint

module _ {S D : Type 0} (database : Database S D) where
  open database use {open_db, ping, select_one, close}

  abbrev after_mysql_query : Text → Text → Option Text × S → Result (Unit {0}) × S
  after_mysql_query password dsn (none, s) = (ok tt, s)
  after_mysql_query password dsn (some message, s) = (sanitized message password dsn, s)

  abbrev after_mysql_ping : Text → Text → D → Option Text × S → Result (Unit {0}) × S
  after_mysql_ping password dsn db (none, s) = after_mysql_query password dsn (select_one db s)
  after_mysql_ping password dsn db (some message, s) = (sanitized message password dsn, s)

  -- The deferred `Close`.
  abbrev after_mysql_open : Text → Text → Opened D × S → Result (Unit {0}) × S
  after_mysql_open password dsn (open_failed message, s) = (sanitized message password dsn, s)
  after_mysql_open password dsn (opened db, s) =
      let checked = after_mysql_ping password dsn db (ping db s) in (checked.0, close db checked.1)

  unfoldable pub mysql_execute : Net → ValidationProbe → SecretData → S → Result (Unit {0}) × S
  unfolding mysql_address mysql_username mysql_password mysql_dbname mysql_dsn
  mysql_execute net config entries s =
      if is_empty config.endpoint
      then (err (failed (codes "mysql probe endpoint must not be empty")), s)
      else elim (mysql_address net config.endpoint) [
        | none ↦ (err (failed (unsafe_mysql_endpoint net config.endpoint)), s)
        | some (host, port) ↦
            let password = mysql_password entries in
            let dsn =
              mysql_dsn (mysql_username entries) password host port (mysql_dbname entries) in
            after_mysql_open password dsn (open_db (codes "mysql") dsn s)
      ]
