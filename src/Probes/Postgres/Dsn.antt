-- ===== src/Probes/Postgres/Dsn.antt =====
-- What a URL reader takes out of the data source name that internal/probes/postgres.go writes.
use dynamic_secret_operator.Prelude.{
  ℕ, Text, codes, has_prefix, drop, cut_first, cut_last, cut_first-append, cut_first_part,
  cut_last-append, any, IsPart, All-append, Option, none, some, List, ◌∷◌, ◌++◌, map, false, ◌≡◌,
  ◌≢◌, refl, ap, ◌∙◌, append_assoc, if◌then◌else◌, arith,
}
use dynamic_secret_operator.Api.{ValidationProbe}
use dynamic_secret_operator.Canary.Endpoint.{Net}
use dynamic_secret_operator.Client.{SecretData}
use dynamic_secret_operator.Probes.Escape.{query_escape, utf8, is_unreserved}
use dynamic_secret_operator.Probes.Escape.Userinfo.{
  unescape, plus, IsCodePoints, unescape-query_escape, query_escape-IsPart,
}
use dynamic_secret_operator.Probes.Sql.{unsafe_chars, contains_any}
use dynamic_secret_operator.Probes.Sql.Address.{contains_any-IsPart}
use dynamic_secret_operator.Probes.Postgres.Endpoint.{postgres_address-IsSafe}
use dynamic_secret_operator.Probes.Postgres.{
  Address, login_of, postgres_address, postgres_dsn, postgres_url, postgres_username,
  postgres_password, postgres_dbname,
}

-- The parts of a URL as `url.Parse` finds them; those that are unescaped are bytes.
pub record UrlParts : Type 0 where
  pub username : List ℕ
  pub password : List ℕ
  pub host : Text
  pub port : Text
  pub path : List ℕ

-- The text before the first separator, or all of it.
before_first : ℕ → Text → Text
before_first sep s = elim (cut_first sep s) [ none ↦ s | some (a, b) ↦ a ]

-- The user information, in front of its first colon and behind it.
read_userinfo : Text → Option (List ℕ × List ℕ)
read_userinfo userinfo = elim (cut_first b':' userinfo) [
  | none ↦ none
  | some (user, password) ↦ elim (unescape user) [
    | none ↦ none
    | some u ↦ elim (unescape password) [ none ↦ none | some p ↦ some (u, p) ]
  ]
]

-- The authority, whose user information ends at the last @, and whose port begins at the last colon.
read_authority : Text → List ℕ → Option UrlParts
unfolding read_userinfo
read_authority authority path = elim (cut_last b'@' authority) [
  | none ↦ none
  | some (userinfo, address) ↦ elim (read_userinfo userinfo) [
    | none ↦ none
    | some (user, password) ↦ elim (cut_last b':' address) [
      | none ↦ none
      | some (host, port) ↦
          some
            (record { username = user; password = password; host = host; port = port; path = path })
    ]
  ]
]

-- Behind the scheme: the fragment and the query are cut off, and the path begins at the first slash.
read_behind_scheme : Text → Option UrlParts
unfolding before_first read_authority
read_behind_scheme s = elim (cut_first b'/' (before_first b'?' (before_first b'#' s))) [
  | none ↦ none
  | some (authority, path) ↦ elim (unescape path) [
    | none ↦ none
    | some p ↦ read_authority authority p
  ]
]

-- A URL of the scheme "postgres" that has user information, a port and a path.
unfoldable pub read_url : Text → Option UrlParts
unfolding read_behind_scheme
read_url s = if has_prefix s (codes "postgres://") then read_behind_scheme (drop 11 s) else none

-- A text without the characters at which a URL is cut.
record IsClean (s : Text) : Type 0 where
  no_hash : IsPart b'#' s
  no_question : IsPart b'?' s
  no_slash : IsPart b'/' s
  no_at : IsPart b'@' s
  no_colon : IsPart b':' s

module _ (u p h o d : Text) (cu : IsClean u) (cp : IsClean p) (ch : IsClean h) (co : IsClean o)
    (cd : IsClean d) where
  abbrev userinfo : Text
  userinfo = u ++ (b':' ∷ p)

  abbrev address : Text
  address = h ++ (b':' ∷ o)

  abbrev authority : Text
  authority = userinfo ++ (b'@' ∷ address)

  authority-IsPart :
      (c : ℕ)
      → b':' ≢ c
      → b'@' ≢ c
      → IsPart c u
      → IsPart c p
      → IsPart c h
      → IsPart c o
      → IsPart c authority
  authority-IsPart c n m iu ip ih io =
      All-append _ userinfo _ (All-append _ u _ iu (n, ip)) (m, All-append _ h _ ih (n, io))

  url_split :
      (q : Text)
      → u ++ (b':' ∷ (p ++ (b'@' ∷ (h ++ (b':' ∷ (o ++ (b'/' ∷ (d ++ (b'?' ∷ q)))))))))
        ≡ (authority ++ (b'/' ∷ d)) ++ (b'?' ∷ q)
  url_split q = simp append_assoc

  read_authority_lem :
      (us ps path : List ℕ)
      → unescape u ≡ some us
      → unescape p ≡ some ps
      → read_authority authority path
        ≡ some (record { username = us; password = ps; host = h; port = o; path = path })
  unfolding read_authority read_userinfo
  read_authority_lem us ps path eu ep =
      let at_sign : IsPart b'@' address = All-append _ h _ ch.no_at ((omega arith), co.no_at) in
      rw
        (
          read_authority,
          cut_last-append b'@' userinfo address at_sign,
          read_userinfo,
          cut_first-append b':' u p cu.no_colon,
          eu,
          ep,
          cut_last-append b':' h o co.no_colon,
        )
        refl

  read_behind_scheme_lem :
      (q : Text) (us ps ds : List ℕ)
      → IsPart b'#' q
      → unescape u ≡ some us
      → unescape p ≡ some ps
      → unescape d ≡ some ds
      → read_behind_scheme ((authority ++ (b'/' ∷ d)) ++ (b'?' ∷ q))
        ≡ some (record { username = us; password = ps; host = h; port = o; path = ds })
  unfolding read_behind_scheme before_first
  read_behind_scheme_lem q us ps ds hq eu ep ed =
      let hash : IsPart b'#' authority =
        authority-IsPart b'#' (omega arith) (omega arith) cu.no_hash cp.no_hash ch.no_hash
          co.no_hash in
      let question : IsPart b'?' authority =
        authority-IsPart b'?' (omega arith) (omega arith) cu.no_question cp.no_question
          ch.no_question co.no_question in
      let slash : IsPart b'/' authority =
        authority-IsPart b'/' (omega arith) (omega arith) cu.no_slash cp.no_slash ch.no_slash
          co.no_slash in
      let whole : IsPart b'#' ((authority ++ (b'/' ∷ d)) ++ (b'?' ∷ q)) =
        All-append _ (authority ++ (b'/' ∷ d)) _
          (All-append _ authority _ hash ((omega arith), cd.no_hash)) ((omega arith), hq) in
      let front : IsPart b'?' (authority ++ (b'/' ∷ d)) =
        All-append _ authority _ question ((omega arith), cd.no_question) in
      rw
        (
          read_behind_scheme,
          before_first,
          cut_first_part b'#' _ whole,
          cut_first-append b'?' _ q front,
          cut_first-append b'/' authority d slash,
          ed,
          read_authority_lem us ps ds eu ep,
        )
        refl

escaped-IsClean : (s : Text) → IsCodePoints s → IsClean (query_escape s)
unfolding is_unreserved
escaped-IsClean s h = record {
  no_hash =
      query_escape-IsPart b'#' s
        (record { reserved = refl; not_plus = omega arith; not_percent = omega arith }) h;
  no_question =
      query_escape-IsPart b'?' s
        (record { reserved = refl; not_plus = omega arith; not_percent = omega arith }) h;
  no_slash =
      query_escape-IsPart b'/' s
        (record { reserved = refl; not_plus = omega arith; not_percent = omega arith }) h;
  no_at =
      query_escape-IsPart b'@' s
        (record { reserved = refl; not_plus = omega arith; not_percent = omega arith }) h;
  no_colon =
      query_escape-IsPart b':' s
        (record { reserved = refl; not_plus = omega arith; not_percent = omega arith }) h;
}

safe-IsClean : (s : Text) → contains_any s unsafe_chars ≡ false → IsClean s
unfolding any
safe-IsClean s h = record {
  no_hash = contains_any-IsPart unsafe_chars b'#' s refl h;
  no_question = contains_any-IsPart unsafe_chars b'?' s refl h;
  no_slash = contains_any-IsPart unsafe_chars b'/' s refl h;
  no_at = contains_any-IsPart unsafe_chars b'@' s refl h;
  no_colon = contains_any-IsPart unsafe_chars b':' s refl h;
}

query-IsPart : IsPart b'#' (codes "sslmode=disable&connect_timeout=5")
unfolding any contains_any
query-IsPart =
    contains_any-IsPart (codes "#") b'#' (codes "sslmode=disable&connect_timeout=5") refl refl

read_url-postgres_url :
    (u p h o d : Text) (us ps ds : List ℕ)
    → IsClean u
    → IsClean p
    → IsClean h
    → IsClean o
    → IsClean d
    → unescape u ≡ some us
    → unescape p ≡ some ps
    → unescape d ≡ some ds
    → read_url (postgres_url u p h o d)
      ≡ some (record { username = us; password = ps; host = h; port = o; path = ds })
unfolding read_url postgres_url has_prefix
read_url-postgres_url u p h o d us ps ds cu cp ch co cd eu ep ed =
    ap read_behind_scheme (url_split u p h o d cu cp ch co cd _)
    ∙ read_behind_scheme_lem u p h o d cu cp ch co cd _ us ps ds query-IsPart eu ep ed

-- The data source name is not open to injection: where the endpoint has passed the tests, a reader
-- that cuts a URL at its first #, ?, and /, its user information at the last @, and that unescapes
-- the parts, finds the host and the port of the endpoint and, as bytes, the user name, the password
-- and the database of the probe, with a plus sign for every space.
pub read_url-login_of :
    (net : Net) (config : ValidationProbe) (entries : SecretData) (a : Address)
    → postgres_address net config.endpoint ≡ some a
    → IsCodePoints (postgres_username config entries)
    → IsCodePoints (postgres_password config entries)
    → IsCodePoints (postgres_dbname config entries a.endpoint_db)
    → read_url (postgres_dsn (login_of config entries a))
      ≡ some (record {
        username = map plus (utf8 (postgres_username config entries));
        password = map plus (utf8 (postgres_password config entries));
        host = a.host;
        port = a.port;
        path = map plus (utf8 (postgres_dbname config entries a.endpoint_db));
      })
unfolding postgres_dsn login_of
read_url-login_of net config entries a e hu hp hd =
    let (_, safe, _) = postgres_address-IsSafe net config.endpoint a e in
    read_url-postgres_url _ _ a.host a.port _ _ _ _ (escaped-IsClean _ hu) (escaped-IsClean _ hp)
      (safe-IsClean a.host safe.safe_host) (safe-IsClean a.port safe.safe_port)
      (escaped-IsClean _ hd) (unescape-query_escape _ hu) (unescape-query_escape _ hp)
      (unescape-query_escape _ hd)
