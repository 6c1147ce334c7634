-- ===== src/Probes/JobName.antt =====
-- `sanitizeName` and `DeriveProbeJobName` of internal/probes/job.go. After `sanitizeName` every
-- character is one byte, so Go's byte positions are positions in the list.
pub mod Dns
pub mod Suffix
use dynamic_secret_operator.Prelude.{
  ℕ, ◌+◌, ◌-◌, Text, codes, is_empty, Bool, true, false, not, ◌&&◌, ◌||◌, List, [], ◌∷◌, ◌++◌, map,
  length, take, drop, ltb, leb, ◌==◌, if◌then◌else◌,
}

-- `strings.ToLower`, for a character: of the characters whose lower case is an ASCII letter, the
-- capital letters, the dotted İ (U+0130) and the Kelvin sign (U+212A); `sanitizeName` replaces the
-- lower case of every other character as it would the character itself.
unfoldable pub to_lower : ℕ → ℕ
to_lower c =
    if leb b'A' c && leb c b'Z'
    then c + 32
    else if c == 0x130
    then b'i'
    else if c == 0x212a
    then b'k'
    else c

unfoldable pub is_alnum : ℕ → Bool
is_alnum c = (leb b'a' c && leb c b'z') || (leb b'0' c && leb c b'9')

-- The body of `sanitizeName`'s loop.
unfoldable pub sanitize_char : ℕ → ℕ
unfolding to_lower is_alnum
sanitize_char c = if is_alnum (to_lower c) then to_lower c else b'-'

-- `strings.TrimRight(s, "-")`, and the same on the left.
unfoldable pub trim_right : Text → Text
trim_right [] = []
trim_right (c ∷ s) =
    let rest = trim_right s in if is_empty rest && (c == b'-') then [] else c ∷ rest

unfoldable pub trim_left : Text → Text
trim_left [] = []
trim_left (c ∷ s) = if c == b'-' then trim_left s else c ∷ s

unfoldable pub sanitize_name : Text → Text
unfolding sanitize_char trim_right trim_left
sanitize_name s = trim_right (trim_left (map sanitize_char s))

-- `strings.TrimPrefix(s, "-")` and `strings.TrimSuffix(s, "-")`.
unfoldable pub trim_dash_prefix : Text → Text
trim_dash_prefix [] = []
trim_dash_prefix (c ∷ s) = if c == b'-' then s else c ∷ s

unfoldable pub trim_dash_suffix : Text → Text
trim_dash_suffix [] = []
trim_dash_suffix (c ∷ s) =
    let rest = trim_dash_suffix s in if is_empty s && (c == b'-') then [] else c ∷ rest

abbrev pub job_prefix : Text
job_prefix = codes "dso-probe-"

-- The last 24 characters of the sanitized secret name.
unfoldable pub revision_part : Text → Text
unfolding trim_dash_prefix
revision_part rev =
    if ltb 24 (length rev) then trim_dash_prefix (drop (length rev - 24) rev) else rev

abbrev pub max_policy_len : Text → ℕ
max_policy_len rev = 63 - length job_prefix - 1 - length rev

unfoldable pub policy_part : Text → Text → Text
unfolding trim_dash_suffix
policy_part policy rev =
    if ltb 0 (max_policy_len rev) && ltb (max_policy_len rev) (length policy)
    then trim_dash_suffix (take (max_policy_len rev) policy)
    else policy

-- `if len(s) > n { s = s[:n] }`.
unfoldable pub truncate : ℕ → Text → Text
truncate n s = if ltb n (length s) then take n s else s

-- The two statements behind the formatting of the name.
unfoldable pub cap_name : Text → Text
unfolding trim_right truncate
cap_name name = trim_right (truncate 63 name)

unfoldable pub derive_probe_job_name : Text → Text → Text
unfolding sanitize_name revision_part policy_part cap_name
derive_probe_job_name policy_name revision_secret_name =
    let rev = revision_part (sanitize_name revision_secret_name) in
    cap_name (job_prefix ++ (policy_part (sanitize_name policy_name) rev ++ b'-' ∷ rev))
