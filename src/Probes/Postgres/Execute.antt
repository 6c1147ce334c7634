-- ===== src/Probes/Postgres/Execute.antt =====
-- How the probe of internal/probes/postgres.go ends.
use dynamic_secret_operator.Prelude.{
  Text, codes, is_empty, Bool, true, false, Option, none, some, ◌≡◌, ◌⊎◌, inl, inr, refl, ap,
  if◌then◌else◌,
}
use dynamic_secret_operator.Api.{ValidationProbe}
use dynamic_secret_operator.Canary.Endpoint.{Net}
use dynamic_secret_operator.Client.{SecretData, Result, Error, ok, err, failed}
use dynamic_secret_operator.Controller.Endpoint.{trim_space}
use dynamic_secret_operator.Probes.Sanitize.Redacts.{IsHidden}
use dynamic_secret_operator.Probes.Sql.{Opened, opened, open_failed, Database}
use dynamic_secret_operator.Probes.Sql.Errors.{
  IsErrorOf, endpoint_missing, endpoint_unsafe, sanitized_message, Withholds, Ends, Ends-Withholds,
}
use dynamic_secret_operator.Probes.Postgres.{
  unsafe_postgres_endpoint, Address, Login, login_of, postgres_address, postgres_dsn, fallback_dsn,
  postgres_password, answer, needs_fallback, after_fallback, after_ping, after_open,
  postgres_execute,
}

-- The text for an empty endpoint.
abbrev pub postgres_no_endpoint : Text
postgres_no_endpoint = codes "postgresql probe endpoint must not be empty"

module _ {S D : Type 0} (database : Database S D) where
  open database use {open_db, ping, select_one, close}

  -- A login that the server has accepted from the state `s`: the database answered a ping and the
  -- query, or it does not exist and the database "postgres" answered a ping. In the state `t` every
  -- connection that was opened is closed.
  pub data Accepted (l : Login) (s t : S) : Type 0 where
    queried :
        {db : D} {s₁ s₂ s₃ : S}
        → open_db (codes "postgres") (postgres_dsn l) s ≡ (opened db, s₁)
        → ping db s₁ ≡ (none, s₂)
        → select_one db s₂ ≡ (none, s₃)
        → t ≡ close db s₃
        → Accepted l s t
    fell_back :
        {db db₂ : D} {message : Text} {s₁ s₂ s₃ s₄ : S}
        → open_db (codes "postgres") (postgres_dsn l) s ≡ (opened db, s₁)
        → ping db s₁ ≡ (some message, s₂)
        → needs_fallback database l message ≡ true
        → open_db (codes "postgres") (fallback_dsn l) s₂ ≡ (opened db₂, s₃)
        → ping db₂ s₃ ≡ (none, s₄)
        → t ≡ close db (close db₂ s₄)
        → Accepted l s t

module _ {S D : Type 0} (database : Database S D) (refused : Text) where
  open database use {open_db, ping, select_one, close}

  abbrev EndsWith : Text → (S → Type 0) → Result (Unit {0}) × S → Type 0
  EndsWith password Reached r = Ends postgres_no_endpoint refused password Reached r

  module _ (l : Login) (s : S) (db : D) (s₁ : S)
      (opens : open_db (codes "postgres") (postgres_dsn l) s ≡ (opened db, s₁)) where
    -- What was checked on the connection, before it is closed.
    abbrev Checked : S → Type 0
    Checked t = Accepted database l s (close db t)

    query-Ends :
        (s₂ : S)
        → ping db s₁ ≡ (none, s₂)
        → (q : Option Text × S) → select_one db s₂ ≡ q
        → EndsWith l.password Checked (answer database l q)
    query-Ends s₂ pings (none, s₃) e = inl (s₃, queried opens pings e refl, refl)
    query-Ends s₂ pings (some m, u) e = inr (_, u, sanitized_message m (postgres_dsn l), refl)

    module _ (message : Text) (s₂ : S) (fails : ping db s₁ ≡ (some message, s₂))
        (needs : needs_fallback database l message ≡ true) where
      fallback_ping-Ends :
          (db₂ : D) (s₃ : S)
          → open_db (codes "postgres") (fallback_dsn l) s₂ ≡ (opened db₂, s₃)
          → (q : Option Text × S) → ping db₂ s₃ ≡ q
          → EndsWith l.password Checked (elim q.0 [
            | none ↦ (ok tt, close db₂ q.1)
            | some m ↦ answer database l (some message, close db₂ q.1)
          ])
      fallback_ping-Ends db₂ s₃ again (none, s₄) e =
          inl (close db₂ s₄, fell_back opens fails needs again e refl, refl)
      fallback_ping-Ends db₂ s₃ again (some m, u) e =
          inr (_, close db₂ u, sanitized_message message (postgres_dsn l), refl)

      fallback-Ends :
          (o : Opened D × S)
          → open_db (codes "postgres") (fallback_dsn l) s₂ ≡ o
          → EndsWith l.password Checked (after_fallback database l message o)
      fallback-Ends (open_failed m, u) e =
          inr (_, u, sanitized_message message (postgres_dsn l), refl)
      fallback-Ends (opened db₂, s₃) e = fallback_ping-Ends db₂ s₃ e (ping db₂ s₃) refl

    ping-Ends :
        (q : Option Text × S)
        → ping db s₁ ≡ q
        → EndsWith l.password Checked (after_ping database l db q)
    ping-Ends (none, s₂) e = query-Ends s₂ e (select_one db s₂) refl
    ping-Ends (some message, s₂) e = by_need (needs_fallback database l message) refl
      where
        by_need :
            (b : Bool)
            → needs_fallback database l message ≡ b
            → EndsWith l.password Checked (
                if b
                then after_fallback database l message
                    (open_db (codes "postgres") (fallback_dsn l) s₂)
                else answer database l (some message, s₂))
        by_need true needs = fallback-Ends message s₂ e needs _ refl
        by_need false needs = inr (_, s₂, sanitized_message message (postgres_dsn l), refl)

    -- The deferred `Close`.
    closed-Ends :
        (r : Result (Unit {0}) × S)
        → EndsWith l.password Checked r
        → EndsWith l.password (Accepted database l s) (r.0, close db r.1)
    closed-Ends r (inl (t, a, e)) = inl (close db t, a, ap (λ q. (q.0, close db q.1)) e)
    closed-Ends r (inr (x, u, i, e)) = inr (x, close db u, i, ap (λ q. (q.0, close db q.1)) e)

  open-Ends :
      (l : Login) (s : S) (o : Opened D × S)
      → open_db (codes "postgres") (postgres_dsn l) s ≡ o
      → EndsWith l.password (Accepted database l s) (after_open database l o)
  open-Ends l s (open_failed m, u) e = inr (_, u, sanitized_message m (postgres_dsn l), refl)
  open-Ends l s (opened db, s₁) e =
      closed-Ends l s db s₁ e (after_ping database l db (ping db s₁)) (ping-Ends l s db s₁ e _ refl)

module _ {S D : Type 0} (database : Database S D) where
  open database use {open_db}

  module _ (net : Net) (config : ValidationProbe) (entries : SecretData) (s : S) where
    abbrev LoggedIn : S → Type 0
    LoggedIn t =
        (a : Address) × (postgres_address net config.endpoint ≡ some a)
        × Accepted database (login_of config entries a) s t

    address-Ends :
        (o : Option Address)
        → postgres_address net config.endpoint ≡ o
        → EndsWith database
            (unsafe_postgres_endpoint net config.endpoint)
            (postgres_password config entries)
            LoggedIn
            (elim o [
              | none ↦ (err (failed (unsafe_postgres_endpoint net config.endpoint)), s)
              | some a ↦
                  let l = login_of config entries a in
                  after_open database l (open_db (codes "postgres") (postgres_dsn l) s)
            ])
    unfolding login_of
    address-Ends none e = inr (_, s, endpoint_unsafe, refl)
    address-Ends (some a) e =
        elim (open-Ends database (unsafe_postgres_endpoint net config.endpoint)
          (login_of config entries a) s _ refl) [
            | inl (t, h, i) ↦ inl (t, (a, e, h), i)
            | inr x ↦ inr x
          ]

    pub postgres_execute_settles :
        ((t : S) × ((a : Address) × (postgres_address net config.endpoint ≡ some a)
            × Accepted database (login_of config entries a) s t)
          × (postgres_execute database net config entries s ≡ (ok tt, t)))
        ⊎ ((x : Error) × (u : S) × IsErrorOf postgres_no_endpoint
              (unsafe_postgres_endpoint net config.endpoint)
              (postgres_password config entries)
              x
            × (postgres_execute database net config entries s ≡ (err x, u)))
    unfolding postgres_execute
    postgres_execute_settles = by_endpoint (is_empty config.endpoint)
      where
        by_endpoint :
            (b : Bool)
            → EndsWith database
                (unsafe_postgres_endpoint net config.endpoint)
                (postgres_password config entries)
                LoggedIn
                (if b
                  then (err (failed (codes "postgresql probe endpoint must not be empty")), s)
                  else elim (postgres_address net config.endpoint) [
                    | none ↦ (err (failed (unsafe_postgres_endpoint net config.endpoint)), s)
                    | some a ↦
                        let l = login_of config entries a in
                        after_open database l (open_db (codes "postgres") (postgres_dsn l) s)
                  ])
        by_endpoint true = inr (_, s, endpoint_missing, refl)
        by_endpoint false = address-Ends _ refl

    -- Where the password, without the white space around it, has no brackets and is neither empty nor
    -- a part of the marker "[REDACTED]", a probe's error is the fixed text for an empty endpoint; or
    -- it refuses the endpoint, which it quotes as it stands in the policy, with whatever that holds; or
    -- it is a fixed text with one behind it that does not contain the password without that white
    -- space.
    pub postgres_execute-Withholds :
        (x : Error)
        → IsHidden (trim_space (postgres_password config entries))
        → (postgres_execute database net config entries s).0 ≡ err x
        → Withholds postgres_no_endpoint
            (unsafe_postgres_endpoint net config.endpoint)
            (postgres_password config entries)
            x
    postgres_execute-Withholds x h e =
        Ends-Withholds postgres_no_endpoint (unsafe_postgres_endpoint net config.endpoint)
          (postgres_password config entries) LoggedIn _ x h postgres_execute_settles e
