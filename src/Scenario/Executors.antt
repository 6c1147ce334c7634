-- ===== src/Scenario/Executors.antt =====
-- The theorems on the probe executors, at a database and servers that answer.
use mathlib.Core.List.{flat_map}
use dynamic_secret_operator.Api.Pods.{value_of}
use dynamic_secret_operator.Prelude.{
  ℕ, suc, Bool, true, codes, cut_first, contains, has_prefix, text_eq, map, any, false, some, none,
  [], ◌∷◌, ◌≡◌, ◌≢◌, ◌↔◌, refl, arith,
}
use dynamic_secret_operator.Api.{ValidationProbe, postgresql, tls}
use dynamic_secret_operator.Client.{SecretData, ok, err, Error, failed}
use dynamic_secret_operator.Canary.Endpoint.{Net}
use dynamic_secret_operator.Controller.Endpoint.{
  trim_space, trim_space_left, trim_space_right, is_space,
}
use dynamic_secret_operator.Probes.Escape.{utf8, utf8_char}
use dynamic_secret_operator.Probes.Escape.Userinfo.{plus, IsCodePoints}
use dynamic_secret_operator.Probes.Sanitize.{sanitize_db_error}
use dynamic_secret_operator.Probes.Sanitize.Redacts.{IsBare, IsHidden}
use dynamic_secret_operator.Probes.Sql.{
  Database, opened, folded_value, extract_secret_value, trim_prefix, contains_any, is_safe_host,
  is_safe_port, is_port_number, host_port_or,
}
use dynamic_secret_operator.Probes.Sql.Address.{IsSafe, contains_any-IsPart}
use dynamic_secret_operator.Probes.Sql.Errors.{Withholds}
use dynamic_secret_operator.Probes.Postgres.{
  unsafe_postgres_endpoint, Address, login_of, explicit_username, explicit_dbname,
  postgres_username, postgres_password, postgres_dbname, postgres_address, parse_postgres_endpoint,
  is_safe_address, postgres_dsn, postgres_execute,
}
use dynamic_secret_operator.Probes.Postgres.Endpoint.{postgres_address-IsSafe}
use dynamic_secret_operator.Probes.Postgres.Dsn.{read_url, read_url-login_of}
use dynamic_secret_operator.Probes.Postgres.Execute.{
  postgres_no_endpoint, postgres_execute-Withholds,
}
use dynamic_secret_operator.Probes.Tls.{Certificate, connected, TlsNetwork, tls_execute}
use dynamic_secret_operator.Probes.Tls.Pins.{
  Trusts, HasPin, tls_execute_iff, tls_execute_unverified,
}
use dynamic_secret_operator.Scenario.{probe_of, offline}

-- Every endpoint is the host "db" with the port 5432.
abbrev net : Net
net = record offline { split_host_port = λ t. some (codes "db", codes "5432") }

-- A secret with one value.
abbrev entries : SecretData
entries = (codes "password", codes "p@ss") ∷ []

-- Every connection is accepted, and no database exists.
abbrev database : Database ℕ (Unit {0})
database = record {
  open_db = λ driver dsn s. (opened tt, s);
  ping = λ d s. (some (codes "login p@ss: database does not exist"), s);
  select_one = λ d s. (none, s);
  close = λ d s. s;
}

password-IsBare : IsBare (codes "p@ss")
unfolding any contains_any
password-IsBare = (
  contains_any-IsPart (codes "[") b'[' (codes "p@ss") refl refl,
  contains_any-IsPart (codes "]") b']' (codes "p@ss") refl refl,
)

password-IsHidden : IsHidden (trim_space (codes "p@ss"))
unfolding contains has_prefix trim_space trim_space_left trim_space_right is_space
password-IsHidden = record { bare = password-IsBare; unmarked = refl }

abbrev config : ValidationProbe
config = probe_of postgresql (codes "db:5432")

abbrev address : Address
address = record { host = codes "db"; port = codes "5432"; endpoint_db = [] }

address_found : postgres_address net config.endpoint ≡ some address
unfolding postgres_address parse_postgres_endpoint is_safe_address is_safe_host is_safe_port
    is_port_number contains_any any host_port_or trim_prefix contains has_prefix cut_first
address_found = refl

postgres_address-IsSafe_example :
    (parse_postgres_endpoint net (codes "db:5432") (codes "5432") ≡ some address)
    × IsSafe net (codes "db") (codes "5432")
    × (contains_any [] (codes "?&\\@# \t\r\n") ≡ false)
postgres_address-IsSafe_example =
    postgres_address-IsSafe net (codes "db:5432") address address_found

postgres_username-IsCodePoints : IsCodePoints (postgres_username config entries)
unfolding postgres_username explicit_username extract_secret_value value_of folded_value
postgres_username-IsCodePoints = ground arith

postgres_password-IsCodePoints : IsCodePoints (postgres_password config entries)
unfolding postgres_password explicit_username explicit_dbname extract_secret_value value_of
    folded_value
postgres_password-IsCodePoints = ground arith

postgres_dbname-IsCodePoints : IsCodePoints (postgres_dbname config entries [])
unfolding postgres_dbname explicit_dbname extract_secret_value value_of folded_value
postgres_dbname-IsCodePoints = ground arith

read_url-login_of_example :
    read_url (postgres_dsn (login_of config entries address))
    ≡ some (record {
      username = map plus (utf8 (postgres_username config entries));
      password = map plus (utf8 (postgres_password config entries));
      host = codes "db";
      port = codes "5432";
      path = map plus (utf8 (postgres_dbname config entries []));
    })
read_url-login_of_example =
    read_url-login_of net config entries address address_found postgres_username-IsCodePoints
      postgres_password-IsCodePoints postgres_dbname-IsCodePoints

postgres_password-IsHidden : IsHidden (trim_space (postgres_password config entries))
unfolding postgres_password explicit_username explicit_dbname extract_secret_value value_of
    folded_value text_eq
postgres_password-IsHidden = password-IsHidden

-- The error that the database of this scenario leads to.
abbrev failure : Error
failure = failed (codes "database authentication failed: login [REDACTED]: database does not exist")

login_fails : (postgres_execute database net config entries 0).0 ≡ err failure
unfolding postgres_execute cut_first has_prefix contains any text_eq sanitize_db_error trim_space
    flat_map utf8_char
login_fails = refl

postgres_execute-Withholds_example :
    Withholds postgres_no_endpoint
      (unsafe_postgres_endpoint net (codes "db:5432"))
      (postgres_password config entries)
      failure
postgres_execute-Withholds_example =
    postgres_execute-Withholds database net config entries 0 failure postgres_password-IsHidden
      login_fails

-- A server with one certificate, which is valid at the time, and nothing that decodes.
abbrev leaf : Certificate
leaf = record { raw = codes "der"; not_before = 1; not_after = 9 }

abbrev tls_network : TlsNetwork ℕ
tls_network = record {
  dial = λ insecure address s. (connected (leaf ∷ []), s);
  close_conn = suc;
  now = λ s. 5;
  sha256 = λ t. t;
  sha1 = λ t. t;
  pem_decode = λ t. none;
}

abbrev unread_certificate : SecretData
unread_certificate = (codes "tls.crt", codes "not a certificate") ∷ []

tls_execute_iff_example :
    (tls_execute tls_network (probe_of tls (codes "db:443")) entries 0 ≡ (ok tt, 1)) ↔ (
      (codes "db:443" ≢ [])
      × ((insecure : Bool) × ((insecure ≡ true) ↔ HasPin entries)
          × Trusts tls_network entries (connected (leaf ∷ []), 0) 1))
tls_execute_iff_example = tls_execute_iff tls_network (probe_of tls (codes "db:443")) entries 0 1

no_thumbprint : value_of (codes "thumbprint") unread_certificate ≡ []
unfolding value_of text_eq
no_thumbprint = refl

has_certificate : value_of (codes "tls.crt") unread_certificate ≢ []
unfolding value_of text_eq
has_certificate e = cc

tls_execute_unverified_example :
    tls_execute tls_network (probe_of tls (codes "db:443")) unread_certificate 0 ≡ (ok tt, 1)
tls_execute_unverified_example =
    tls_execute_unverified tls_network (probe_of tls (codes "db:443")) unread_certificate 0 0 leaf
      [] (λ e. cc) no_thumbprint has_certificate refl refl (omega arith) (omega arith)
