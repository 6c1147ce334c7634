-- ===== src/Probes/Sql.antt =====
-- What the database probes of internal/probes/postgres.go and internal/probes/mysql.go share: the
-- credentials in a secret, the tests of an endpoint, and the database driver.
pub mod Address
pub mod Errors
use dynamic_secret_operator.Api.Pods.{value_of}
use dynamic_secret_operator.Prelude.{
  ℕ, ◌+◌, ◌-◌, Text, codes, text_eq, is_empty, has_prefix, contains, Bool, false, not, ◌&&◌, ◌||◌,
  Option, none, some, List, [], ◌∷◌, map, any, length, drop, ltb, leb, ◌==◌, if◌then◌else◌,
}
use dynamic_secret_operator.Canary.Endpoint.{Net}
use dynamic_secret_operator.Client.{SecretData, Result, err, failed}
use dynamic_secret_operator.Probes.Sanitize.{sanitize_db_error}

-- `strings.EqualFold` folds a character that is equal to an ASCII letter, in its sense, to the small
-- letter: the capital letters, the long s (U+017F) and the Kelvin sign (U+212A).
unfoldable pub fold_char : ℕ → ℕ
fold_char c =
    if leb b'A' c && leb c b'Z'
    then c + 32
    else if c == 0x17f
    then b's'
    else if c == 0x212a
    then b'k'
    else c

-- `strings.EqualFold` where one of the texts is ASCII.
unfoldable pub equal_fold : Text → Text → Bool
unfolding fold_char
equal_fold s t = text_eq (map fold_char s) (map fold_char t)

-- The inner loop of `extractSecretValue`, in the order of the entries.
unfoldable pub folded_value : Text → SecretData → Text
unfolding equal_fold
folded_value key [] = []
folded_value key ((k, v) ∷ entries) =
    if equal_fold k key && not (is_empty v) then v else folded_value key entries

-- The first of two texts that is not empty.
abbrev pub or_else : Text → Text → Text
or_else [] t = t
or_else (c ∷ s) t = c ∷ s

unfoldable pub extract_secret_value : SecretData → List Text → Text
unfolding value_of folded_value
extract_secret_value entries [] = []
extract_secret_value entries (key ∷ keys) =
    or_else (value_of key entries)
      (or_else (folded_value key entries) (extract_secret_value entries keys))

-- `strings.TrimPrefix`.
unfoldable pub trim_prefix : Text → Text → Text
trim_prefix s prefix = if has_prefix s prefix then drop (length prefix) s else s

-- `strings.ContainsAny`.
unfoldable pub contains_any : Text → Text → Bool
contains_any s chars = any (λ c. any (λ d. c == d) chars) s

-- "?&/\\@#(): \t\r\n".
abbrev pub unsafe_chars : Text
unsafe_chars = codes "?&/\\@#(): \t\r\n"

-- The tests of a host and a port.
unfoldable pub is_safe_host : Text → Bool
unfolding contains_any
is_safe_host host = not (is_empty host || contains_any host unsafe_chars)

unfoldable pub is_port_number : Option ℕ → Bool
is_port_number none = false
is_port_number (some n) = ltb 0 n && leb n 65535

unfoldable pub is_safe_port : Net → Text → Bool
unfolding contains_any is_port_number
is_safe_port net port = not (contains_any port unsafe_chars) && is_port_number (net.atoi port)

-- A host and a port behind its last colon, or the default port.
unfoldable pub host_port_or : Net → Text → Text → Option (Text × Text)
host_port_or net endpoint default_port =
    if contains endpoint (codes ":")
    then net.split_host_port endpoint
    else some (endpoint, default_port)

-- `database/sql` with its drivers, for a connection of type `D`: an error is its message.
pub data Opened (D : Type 0) : Type 0 where
  opened : D → Opened D
  open_failed : Text → Opened D

pub record Database (S D : Type 0) : Type 0 where
  -- `DBConnector`, of a driver's name and a data source name.
  pub open_db : Text → Text → S → Opened D × S
  pub ping : D → S → Option Text × S
  -- `QueryRowContext(ctx, "SELECT 1").Scan(&result)`.
  pub select_one : D → S → Option Text × S
  pub close : D → S → S

-- The error that a probe returns of a message.
abbrev pub sanitized : Text → Text → Text → Result (Unit {0})
sanitized message password dsn = err (failed (sanitize_db_error message (password ∷ (dsn ∷ []))))
