-- ===== src/Probes/JobName/Dns.antt =====
-- The names of probe Jobs (internal/probes/job.go) are names that Kubernetes takes.
use dynamic_secret_operator.Prelude.{
  ℕ, suc, ap, ◌∙◌, ◌-◌, ◌≤◌, Text, codes, is_empty, Bool-cases, true, ◌&&◌, [], ◌∷◌, ◌++◌, length,
  take, length-take-le, All, All-append, All-take, All-drop, All-map, ltb, ◌==◌, ◌≡◌, ◌≢◌, refl,
  arith, ◌⊎◌, inl, inr,
}
use dynamic_secret_operator.Probes.JobName.{
  is_alnum, sanitize_char, trim_right, trim_left, sanitize_name, trim_dash_prefix, trim_dash_suffix,
  job_prefix, revision_part, policy_part, truncate, max_policy_len, cap_name, derive_probe_job_name,
}

-- A lower case letter, a digit or a dash.
abbrev pub IsNameChar : ℕ → Type 0
IsNameChar c = (is_alnum c ≡ true) ⊎ (c ≡ b'-')

-- A text whose last character, if it has one, is a letter or a digit.
abbrev pub EndsInAlnum : Text → Type 0
EndsInAlnum [] = Unit
EndsInAlnum (c ∷ []) = is_alnum c ≡ true
EndsInAlnum (c ∷ (d ∷ s)) = EndsInAlnum (d ∷ s)

sanitize_char-IsNameChar : (c : ℕ) → IsNameChar (sanitize_char c)
unfolding sanitize_char
sanitize_char-IsNameChar c = ground arith

module _ (P : ℕ → Type 0) where
  All-trim_right : (s : Text) → All P s → All P (trim_right s)
  unfolding trim_right
  All-trim_right [] h = tt
  All-trim_right (c ∷ s) (p, h) = elim (Bool-cases (is_empty (trim_right s) && (c == b'-'))) [
    | inl e ↦ rw e tt
    | inr e ↦ rw e (p, All-trim_right s h)
  ]

  All-trim_left : (s : Text) → All P s → All P (trim_left s)
  unfolding trim_left
  All-trim_left [] h = tt
  All-trim_left (c ∷ s) (p, h) = elim (Bool-cases (c == b'-')) [
    | inl e ↦ rw e (All-trim_left s h)
    | inr e ↦ rw e (p, h)
  ]

  All-trim_dash_prefix : (s : Text) → All P s → All P (trim_dash_prefix s)
  unfolding trim_dash_prefix
  All-trim_dash_prefix [] h = tt
  All-trim_dash_prefix (c ∷ s) (p, h) = elim (Bool-cases (c == b'-')) [
    | inl e ↦ rw e h
    | inr e ↦ rw e (p, h)
  ]

  All-trim_dash_suffix : (s : Text) → All P s → All P (trim_dash_suffix s)
  unfolding trim_dash_suffix
  All-trim_dash_suffix [] h = tt
  All-trim_dash_suffix (c ∷ s) (p, h) = elim (Bool-cases (is_empty s && (c == b'-'))) [
    | inl e ↦ rw e tt
    | inr e ↦ rw e (p, All-trim_dash_suffix s h)
  ]

sanitize_name-All : (s : Text) → All IsNameChar (sanitize_name s)
unfolding sanitize_name
sanitize_name-All s =
    All-trim_right IsNameChar _
      (All-trim_left IsNameChar _ (All-map IsNameChar sanitize_char sanitize_char-IsNameChar s))

revision_part-All : (s : Text) → All IsNameChar s → All IsNameChar (revision_part s)
unfolding revision_part
revision_part-All s h = elim (Bool-cases (ltb 24 (length s))) [
  | inl e ↦ rw e (All-trim_dash_prefix IsNameChar _ (All-drop IsNameChar (length s - 24) s h))
  | inr e ↦ rw e h
]

policy_part-All : (p rev : Text) → All IsNameChar p → All IsNameChar (policy_part p rev)
unfolding policy_part
policy_part-All p rev h =
    elim (Bool-cases (ltb 0 (max_policy_len rev) && ltb (max_policy_len rev) (length p))) [
      | inl e ↦ rw e (
          All-trim_dash_suffix IsNameChar (take (max_policy_len rev) p)
            (All-take IsNameChar (max_policy_len rev) p h))
      | inr e ↦ rw e h
    ]

length-trim_right-le : (s : Text) → length (trim_right s) ≤ length s
unfolding trim_right
length-trim_right-le [] = omega arith
length-trim_right-le (c ∷ s) = ground (arith, length-trim_right-le s)

truncate-length : (n : ℕ) (s : Text) → length (truncate n s) ≤ n
unfolding truncate
truncate-length n s = ground (arith, length-take-le n s)

truncate-All : (n : ℕ) (s : Text) → All IsNameChar s → All IsNameChar (truncate n s)
unfolding truncate
truncate-All n s h = elim (Bool-cases (ltb n (length s))) [
  | inl e ↦ rw e (All-take IsNameChar n s h)
  | inr e ↦ rw e h
]

EndsInAlnum-cons :
    (c : ℕ) (s : Text) → EndsInAlnum s → (s ≡ [] → is_alnum c ≡ true) → EndsInAlnum (c ∷ s)
EndsInAlnum-cons c [] h k = k refl
EndsInAlnum-cons c (d ∷ s) h k = h

-- What is left of a name behind the trimming of dashes ends in a letter or digit.
trim_right-EndsInAlnum : (s : Text) → All IsNameChar s → EndsInAlnum (trim_right s)
unfolding trim_right
trim_right-EndsInAlnum [] h = tt
trim_right-EndsInAlnum (c ∷ s) (p, h) = elim (Bool-cases (is_empty (trim_right s) && (c == b'-'))) [
  | inl e ↦ rw e tt
  | inr e ↦
      let alone : trim_right s ≡ [] → is_alnum c ≡ true = λ q. ground arith in
      rw e (EndsInAlnum-cons c (trim_right s) (trim_right-EndsInAlnum s h) alone)
]

truncate-cons : (n c : ℕ) (s : Text) → truncate (suc n) (c ∷ s) ≡ c ∷ truncate n s
unfolding truncate
truncate-cons n c s = ground arith

trim_right-cons : (c : ℕ) (s : Text) → c ≢ b'-' → trim_right (c ∷ s) ≡ c ∷ trim_right s
unfolding trim_right
trim_right-cons c s h = ground arith

starts_with_d : (s : Text) → (t : Text) × (cap_name (b'd' ∷ s) ≡ b'd' ∷ t)
unfolding cap_name
starts_with_d s = (
  trim_right (truncate 62 s),
  ap trim_right (truncate-cons 62 b'd' s) ∙ trim_right-cons b'd' (truncate 62 s) (omega arith),
)

job_prefix-All : All IsNameChar job_prefix
unfolding is_alnum
job_prefix-All = ground arith

-- A DNS-1123 label that begins with `d`.
pub record IsDnsLabel (name : Text) : Type 0 where
  pub short : length name ≤ 63
  pub allowed : All IsNameChar name
  pub begins : (t : Text) × (name ≡ b'd' ∷ t)
  pub ends : EndsInAlnum name

cap_name-IsDnsLabel : (s : Text) → All IsNameChar s → IsDnsLabel (cap_name (job_prefix ++ s))
unfolding cap_name
cap_name-IsDnsLabel s h =
    let whole = All-append IsNameChar job_prefix s job_prefix-All h in
    let cut = truncate-All 63 (job_prefix ++ s) whole in
    record {
      short = omega (
        arith,
        length-trim_right-le (truncate 63 (job_prefix ++ s)),
        truncate-length 63 (job_prefix ++ s),
      );
      allowed = All-trim_right IsNameChar _ cut;
      begins = starts_with_d (codes "so-probe-" ++ s);
      ends = trim_right-EndsInAlnum _ cut;
    }

-- The name of a probe Job, whatever the names of the policy and of the secret, is a DNS-1123
-- label: at most 63 characters, each a lower case letter, a digit or a dash, the first the letter
-- `d` and the last a letter or a digit.
pub derive_probe_job_name-IsDnsLabel :
    (policy_name secret_name : Text) → IsDnsLabel (derive_probe_job_name policy_name secret_name)
unfolding derive_probe_job_name
derive_probe_job_name-IsDnsLabel policy_name secret_name =
    let rev = revision_part (sanitize_name secret_name) in
    let policy = policy_part (sanitize_name policy_name) rev in
    cap_name-IsDnsLabel (policy ++ b'-' ∷ rev) (
      All-append IsNameChar policy (b'-' ∷ rev)
        (policy_part-All (sanitize_name policy_name) rev (sanitize_name-All policy_name))
        (inr refl, revision_part-All _ (sanitize_name-All secret_name)))
