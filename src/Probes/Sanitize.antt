-- ===== src/Probes/Sanitize.antt =====
-- internal/probes/sanitize.go: what is taken out of the message of a database error.
pub mod Redacts
pub mod Matches
pub mod Hides
use dynamic_secret_operator.Prelude.{
  ℕ, zero, suc, ◌+◌, ◌-◌, Text, codes, is_empty, text_eq, has_prefix, Bool, true, false, not, ◌&&◌,
  ◌||◌, Option, none, some, List, [], ◌∷◌, ◌++◌, length, take, drop, ltb, leb, ◌==◌, if◌then◌else◌,
}
use dynamic_secret_operator.Controller.Endpoint.{trim_space}
use dynamic_secret_operator.Probes.Escape.{query_escape}

abbrev pub redacted : Text
redacted = codes "[REDACTED]"

-- A text with every match replaced, from the left. A match at the front of a text is what stands in
-- its place and how many characters it takes, at least one; behind it, the characters that are left
-- of it are passed over, as many as the second argument says.
unfoldable pub replace_matches : (Text → Option (Text × ℕ)) → ℕ → Text → Text
replace_matches match skip [] = []
replace_matches match (suc skip) (c ∷ s) = replace_matches match skip s
replace_matches match zero (c ∷ s) = elim (match (c ∷ s)) [
  | none ↦ c ∷ replace_matches match zero s
  | some (new, n) ↦ new ++ replace_matches match (n - 1) s
]

abbrev pub match_text : Text → Text → Text → Option (Text × ℕ)
match_text old new s = if has_prefix s old then some (new, length old) else none

-- `strings.ReplaceAll(s, old, new)` where `old` is not empty.
unfoldable pub replace_all : Text → Text → Text → Text
unfolding replace_matches
replace_all s old new = replace_matches (match_text old new) 0 s

-- One of the texts that are to be redacted, and its escaped form.
unfoldable pub redact_sensitive : Text → Text → Text
unfolding replace_all
redact_sensitive sensitive message =
    let trimmed = trim_space sensitive in
    let escaped = query_escape trimmed in
    if is_empty trimmed
    then message
    else if text_eq escaped trimmed
    then replace_all message trimmed redacted
    else replace_all (replace_all message trimmed redacted) escaped redacted

unfoldable pub redact_all : List Text → Text → Text
unfolding redact_sensitive
redact_all [] message = message
redact_all (t ∷ sensitive_data) message = redact_all sensitive_data (redact_sensitive t message)

-- `\s` of a regular expression.
unfoldable pub is_regex_space : ℕ → Bool
is_regex_space c = (leb 9 c && leb c 10) || ((leb 12 c && leb c 13) || (c == 32))

-- The characters of the class `[^&;\s]`, and of the class `[^:@/\s]`.
unfoldable pub is_dsn_value : ℕ → Bool
unfolding is_regex_space
is_dsn_value c = not ((c == b'&') || ((c == b';') || is_regex_space c))

unfoldable pub is_uri_value : ℕ → Bool
unfolding is_regex_space
is_uri_value c = not ((c == b':') || ((c == b'@') || ((c == b'/') || is_regex_space c)))

-- How many characters at the front are of a class.
unfoldable pub span : (ℕ → Bool) → Text → ℕ
span p [] = 0
span p (c ∷ s) = if p c then suc (span p s) else 0

-- Whether two characters are equal under `(?i)`, for a small letter or a character without case:
-- the long s (U+017F) is equal to the letter s.
unfoldable pub fold_eq : ℕ → ℕ → Bool
fold_eq letter c =
    (letter == c)
    || ((leb b'a' letter && (leb letter b'z' && (c == letter - 32)))
        || ((letter == b's') && (c == 0x17f)))

unfoldable pub has_fold_prefix : Text → Text → Bool
unfolding fold_eq
has_fold_prefix s [] = true
has_fold_prefix [] (d ∷ p) = false
has_fold_prefix (c ∷ s) (d ∷ p) = fold_eq d c && has_fold_prefix s p

abbrev pub password_key : Text
password_key = codes "password="

-- A match of `(?i)(password=)[^&;\s]+` at the front of a text, and its `$1[REDACTED]`.
unfoldable pub match_dsn_password : Text → Option (Text × ℕ)
unfolding is_dsn_value span has_fold_prefix
match_dsn_password s =
    let n = span is_dsn_value (drop 9 s) in
    if has_fold_prefix s password_key && ltb 0 n then some (take 9 s ++ redacted, 9 + n) else none

-- A match of `(:)[^:@/\s]+(@)` at the front of a text, and its `$1[REDACTED]$2`.
unfoldable pub match_uri_password : Text → Option (Text × ℕ)
unfolding is_uri_value span
match_uri_password [] = none
match_uri_password (c ∷ s) =
    let n = span is_uri_value s in
    if (c == b':') && (ltb 0 n && has_prefix (drop n s) (codes "@"))
    then some (codes ":[REDACTED]@", 2 + n)
    else none

-- The message of the sanitized error.
unfoldable pub sanitize_db_error : Text → List Text → Text
unfolding redact_all match_dsn_password match_uri_password
sanitize_db_error message sensitive_data =
    let passwords = redact_all sensitive_data message in
    let dsn = replace_matches match_dsn_password 0 passwords in
    codes "database authentication failed: " ++ replace_matches match_uri_password 0 dsn
