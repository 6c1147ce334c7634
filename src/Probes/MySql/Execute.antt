-- ===== src/Probes/MySql/Execute.antt =====
-- How the probe of internal/probes/mysql.go ends.
use dynamic_secret_operator.Prelude.{
  Text, codes, is_empty, Bool, true, false, ◌&&◌, Option, none, some, ◌≡◌, ◌⊎◌, inl, inr, refl, ap,
  if◌then◌else◌,
}
use dynamic_secret_operator.Api.{ValidationProbe}
use dynamic_secret_operator.Canary.Endpoint.{Net}
use dynamic_secret_operator.Client.{SecretData, Result, Error, ok, err, failed}
use dynamic_secret_operator.Controller.Endpoint.{trim_space}
use dynamic_secret_operator.Probes.Sanitize.Redacts.{IsHidden}
use dynamic_secret_operator.Probes.Sql.{
  Opened, opened, open_failed, Database, is_safe_host, is_safe_port,
}
use dynamic_secret_operator.Probes.Sql.Address.{IsSafe, host_port-IsSafe, and_parts}
use dynamic_secret_operator.Probes.Sql.Errors.{
  IsErrorOf, endpoint_missing, endpoint_unsafe, sanitized_message, Withholds, Ends, Ends-Withholds,
}
use dynamic_secret_operator.Probes.MySql.{
  unsafe_mysql_endpoint, split_host_port, if_safe, mysql_address, mysql_username, mysql_password,
  mysql_dbname, mysql_dsn, after_mysql_query, after_mysql_ping, after_mysql_open, mysql_execute,
}

-- The text for an empty endpoint.
abbrev pub mysql_no_endpoint : Text
mysql_no_endpoint = codes "mysql probe endpoint must not be empty"

module _ (net : Net) where
  if_safe-IsSafe :
      (h p host port : Text) → if_safe net (h, p) ≡ some (host, port) → IsSafe net host port
  if_safe-IsSafe h p host port e = by_test (is_safe_host h && is_safe_port net p) refl e
    where
      pair : Text × Text
      pair = (h, p)

      wanted : Text × Text
      wanted = (host, port)

      by_test :
          (b : Bool)
          → (is_safe_host h && is_safe_port net p) ≡ b
          → (if b then some pair else none) ≡ some wanted
          → IsSafe net host port
      by_test true i e =
          let (x, y) = and_parts (is_safe_host h) (is_safe_port net p) i in
          host_port-IsSafe net host port (cc (x, e)) (cc (y, e))
      by_test false i e = cc

  mysql_address-IsSafe :
      (endpoint host port : Text)
      → mysql_address net endpoint ≡ some (host, port)
      → IsSafe net host port
  unfolding mysql_address
  mysql_address-IsSafe endpoint host port e =
      by_split (split_host_port net endpoint (codes "3306")) e
    where
      wanted : Text × Text
      wanted = (host, port)

      by_split :
          (o : Option (Text × Text))
          → (elim o as (λ _. Option (Text × Text)) [
            | none ↦ none
            | some address ↦ if_safe net address
          ])
            ≡ some wanted
          → IsSafe net host port
      by_split none e = cc
      by_split (some (h, p)) e = if_safe-IsSafe h p host port e

module _ {S D : Type 0} (database : Database S D) where
  open database use {open_db, ping, select_one, close}

  -- The database of a data source name was opened from the state `s`, and answered a ping and the
  -- query; in the state `t` its connection is closed.
  pub data Answers (dsn : Text) (s t : S) : Type 0 where
    answers :
        {db : D} {s₁ s₂ s₃ : S}
        → open_db (codes "mysql") dsn s ≡ (opened db, s₁)
        → ping db s₁ ≡ (none, s₂)
        → select_one db s₂ ≡ (none, s₃)
        → t ≡ close db s₃
        → Answers dsn s t

  module _ (refused password dsn : Text) (s : S) where
    abbrev EndsIn : (S → Type 0) → Result (Unit {0}) × S → Type 0
    EndsIn Reached r = Ends mysql_no_endpoint refused password Reached r

    module _ (db : D) (s₁ : S) (opens : open_db (codes "mysql") dsn s ≡ (opened db, s₁)) where
      query-Ends :
          (s₂ : S)
          → ping db s₁ ≡ (none, s₂)
          → (q : Option Text × S) → select_one db s₂ ≡ q
          → EndsIn (λ t. Answers dsn s (close db t)) (after_mysql_query database password dsn q)
      query-Ends s₂ pings (none, s₃) e = inl (s₃, answers opens pings e refl, refl)
      query-Ends s₂ pings (some m, u) e = inr (_, u, sanitized_message m dsn, refl)

      ping-Ends :
          (q : Option Text × S)
          → ping db s₁ ≡ q
          → EndsIn (λ t. Answers dsn s (close db t)) (after_mysql_ping database password dsn db q)
      ping-Ends (none, s₂) e = query-Ends s₂ e (select_one db s₂) refl
      ping-Ends (some m, u) e = inr (_, u, sanitized_message m dsn, refl)

      closed-Ends :
          (r : Result (Unit {0}) × S)
          → EndsIn (λ t. Answers dsn s (close db t)) r
          → EndsIn (Answers dsn s) (r.0, close db r.1)
      closed-Ends r (inl (t, a, e)) = inl (close db t, a, ap (λ q. (q.0, close db q.1)) e)
      closed-Ends r (inr (x, u, i, e)) = inr (x, close db u, i, ap (λ q. (q.0, close db q.1)) e)

    open-Ends :
        (o : Opened D × S)
        → open_db (codes "mysql") dsn s ≡ o
        → EndsIn (Answers dsn s) (after_mysql_open database password dsn o)
    open-Ends (open_failed m, u) e = inr (_, u, sanitized_message m dsn, refl)
    open-Ends (opened db, s₁) e =
        closed-Ends db s₁ e (after_mysql_ping database password dsn db (ping db s₁))
          (ping-Ends db s₁ e _ refl)

  module _ (net : Net) (config : ValidationProbe) (entries : SecretData) (s : S) where
    abbrev dsn_at : Text → Text → Text
    dsn_at host port =
        mysql_dsn (mysql_username entries) (mysql_password entries) host port (mysql_dbname entries)

    abbrev LoggedIn : S → Type 0
    LoggedIn t =
        (host : Text) × (port : Text) × (mysql_address net config.endpoint ≡ some (host, port))
        × IsSafe net host port
        × Answers (dsn_at host port) s t

    address-Ends :
        (o : Option (Text × Text))
        → mysql_address net config.endpoint ≡ o
        → Ends mysql_no_endpoint
            (unsafe_mysql_endpoint net config.endpoint)
            (mysql_password entries)
            LoggedIn
            (elim o [
              | none ↦ (err (failed (unsafe_mysql_endpoint net config.endpoint)), s)
              | some (host, port) ↦
                  after_mysql_open database
                    (mysql_password entries)
                    (dsn_at host port)
                    (open_db (codes "mysql") (dsn_at host port) s)
            ])
    address-Ends none e = inr (_, s, endpoint_unsafe, refl)
    address-Ends (some (host, port)) e =
        elim (open-Ends (unsafe_mysql_endpoint net config.endpoint) (mysql_password entries)
          (dsn_at host port) s _ refl) [
            | inl (t, h, i) ↦
                inl (t, (host, port, e, mysql_address-IsSafe net config.endpoint host port e, h), i)
            | inr x ↦ inr x
          ]

    pub mysql_execute_settles :
        ((t : S) × ((host : Text) × (port : Text) × (mysql_address net config.endpoint
              ≡ some (host, port))
            × IsSafe net host port
            × Answers
                (mysql_dsn
                  (mysql_username entries)
                  (mysql_password entries)
                  host
                  port
                  (mysql_dbname entries))
                s
                t)
          × (mysql_execute database net config entries s ≡ (ok tt, t)))
        ⊎ ((x : Error) × (u : S) × IsErrorOf mysql_no_endpoint
              (unsafe_mysql_endpoint net config.endpoint)
              (mysql_password entries)
              x
            × (mysql_execute database net config entries s ≡ (err x, u)))
    unfolding mysql_execute
    mysql_execute_settles = by_endpoint (is_empty config.endpoint)
      where
        by_endpoint :
            (b : Bool)
            → Ends mysql_no_endpoint
                (unsafe_mysql_endpoint net config.endpoint)
                (mysql_password entries)
                LoggedIn
                (if b
                  then (err (failed (codes "mysql probe endpoint must not be empty")), s)
                  else elim (mysql_address net config.endpoint) [
                    | none ↦ (err (failed (unsafe_mysql_endpoint net config.endpoint)), s)
                    | some (host, port) ↦
                        after_mysql_open database
                          (mysql_password entries)
                          (dsn_at host port)
                          (open_db (codes "mysql") (dsn_at host port) s)
                  ])
        by_endpoint true = inr (_, s, endpoint_missing, refl)
        by_endpoint false = address-Ends _ refl

    -- Where the password, without the white space around it, has no brackets and is neither empty nor
    -- a part of the marker "[REDACTED]", a probe's error is the fixed text for an empty endpoint; or
    -- it refuses the endpoint, which it quotes as it stands in the policy, with whatever that holds; or
    -- it is a fixed text with one behind it that does not contain the password without that white
    -- space.
    pub mysql_execute-Withholds :
        (x : Error)
        → IsHidden (trim_space (mysql_password entries))
        → (mysql_execute database net config entries s).0 ≡ err x
        → Withholds mysql_no_endpoint
            (unsafe_mysql_endpoint net config.endpoint)
            (mysql_password entries)
            x
    mysql_execute-Withholds x h e =
        Ends-Withholds mysql_no_endpoint (unsafe_mysql_endpoint net config.endpoint)
          (mysql_password entries) LoggedIn _ x h mysql_execute_settles e
