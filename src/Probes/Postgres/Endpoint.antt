-- ===== src/Probes/Postgres/Endpoint.antt =====
-- What the tests of internal/probes/postgres.go and internal/probes/mysql.go leave of an endpoint.
use dynamic_secret_operator.Prelude.{
  Text, codes, Bool, true, false, not, Option, none, some, ◌≡◌, refl, ap, arith, if◌then◌else◌,
}
use dynamic_secret_operator.Canary.Endpoint.{Net}
use dynamic_secret_operator.Probes.Sql.{contains_any, is_safe_host, is_safe_port}
use dynamic_secret_operator.Probes.Sql.Address.{IsSafe, host_port-IsSafe, and_parts}
use dynamic_secret_operator.Probes.Postgres.{
  Address, parse_postgres_endpoint, is_safe_address, postgres_address,
}

false_of_not : (a : Bool) → not a ≡ true → a ≡ false
false_of_not a e = ground arith

module _ (net : Net) where
  checked :
      (a b : Address)
      → (if is_safe_address net b then some b else none) ≡ some a
      → (b ≡ a) × (is_safe_address net a ≡ true)
  checked a b e = by_test (is_safe_address net b) refl e
    where
      by_test :
          (t : Bool)
          → is_safe_address net b ≡ t
          → (if t then some b else none) ≡ some a
          → (b ≡ a) × (is_safe_address net a ≡ true)
      by_test true i e = (cc e, cc (i, e))
      by_test false i e = cc

  -- An endpoint is connected to only where it is parsed, its host is not empty, neither the host nor
  -- the port has a character of "?&/\\@#(): \t\r\n", the database has none of "?&\\@# \t\r\n", and
  -- the port is a number from 1 to 65535.
  pub postgres_address-IsSafe :
      (endpoint : Text) (a : Address)
      → postgres_address net endpoint ≡ some a
      → (parse_postgres_endpoint net endpoint (codes "5432") ≡ some a)
        × IsSafe net a.host a.port
        × (contains_any a.endpoint_db (codes "?&\\@# \t\r\n") ≡ false)
  unfolding postgres_address is_safe_address
  postgres_address-IsSafe endpoint a e =
      by_parse (parse_postgres_endpoint net endpoint (codes "5432")) e
    where
      safe :
          is_safe_address net a ≡ true
          → IsSafe net a.host a.port × (contains_any a.endpoint_db (codes "?&\\@# \t\r\n") ≡ false)
      safe t =
          let (h, rest) = and_parts (is_safe_host a.host) _ t in
          let (p, db) = and_parts (is_safe_port net a.port) _ rest in
          (host_port-IsSafe net a.host a.port h p, false_of_not _ db)

      by_parse :
          (o : Option Address)
          → (elim o [ none ↦ none | some b ↦ if is_safe_address net b then some b else none ])
            ≡ some a
          → (o ≡ some a)
            × IsSafe net a.host a.port
            × (contains_any a.endpoint_db (codes "?&\\@# \t\r\n") ≡ false)
      by_parse none e = cc
      by_parse (some b) e = let (i, t) = checked a b e in let (x, y) = safe t in (ap some i, x, y)
