-- ===== src/Probes/JobName/Suffix.antt =====
-- The names of probe Jobs (internal/probes/job.go) keep the revision that ends the secret's name,
-- so that the Jobs of two revisions have two names.
use dynamic_secret_operator.Prelude.{
  ℕ, zero, suc, ◌-◌, ◌≤◌, Text, Bool-cases, true, [], ◌∷◌, ◌++◌, map, map-append, append_assoc,
  length, take, drop, length-append, length-take-le, length-drop, All, ltb, ◌==◌, ◌≡◌, ◌≢◌, refl,
  sym, ap, ap₂, subst, ◌∙◌, arith, inl, inr,
}
use dynamic_secret_operator.Probes.JobName.{
  is_alnum, sanitize_char, trim_right, trim_left, sanitize_name, trim_dash_prefix, trim_dash_suffix,
  job_prefix, revision_part, policy_part, truncate, max_policy_len, cap_name, derive_probe_job_name,
}

-- A text that ends with another.
abbrev pub EndsWith : Text → Text → Type 0
EndsWith r s = (x : Text) × (s ≡ x ++ r)

-- A revision hash: lower case letters and digits, at least one.
pub record IsHash (r : Text) : Type 0 where
  pub chars : All (λ c. is_alnum c ≡ true) r
  pub nonempty : r ≢ []

is_alnum-ne-dash : (c : ℕ) → is_alnum c ≡ true → c ≢ b'-'
unfolding is_alnum
is_alnum-ne-dash c h e = ground arith

sanitize_char_alnum : (c : ℕ) → is_alnum c ≡ true → sanitize_char c ≡ c
unfolding sanitize_char
sanitize_char_alnum c h = ground arith

map-sanitize_char : (r : Text) → All (λ c. is_alnum c ≡ true) r → map sanitize_char r ≡ r
map-sanitize_char [] h = refl
map-sanitize_char (c ∷ r) (p, h) = ap₂ ◌∷◌ (sanitize_char_alnum c p) (map-sanitize_char r h)

trim_right_hash : (r : Text) → All (λ c. is_alnum c ≡ true) r → trim_right r ≡ r
unfolding trim_right
trim_right_hash [] h = refl
trim_right_hash (c ∷ r) (p, h) = ground (arith, trim_right_hash r h, is_alnum-ne-dash c p)

append-ne-nil : (x r : Text) → r ≢ [] → x ++ r ≢ []
append-ne-nil [] r h = h
append-ne-nil (c ∷ x) r h = cc

trim_right-append : (x r : Text) → IsHash r → trim_right (x ++ r) ≡ x ++ r
unfolding trim_right
trim_right-append [] r h = trim_right_hash r h.chars
trim_right-append (c ∷ x) r h =
    ground (arith, trim_right-append x r h, append-ne-nil x r h.nonempty)

trim_left-EndsWith : (x r : Text) → IsHash r → EndsWith r (trim_left (x ++ r))
unfolding trim_left
trim_left-EndsWith [] [] h = absurd (h.nonempty refl)
trim_left-EndsWith [] (c ∷ r) h = ([], ground (arith, is_alnum-ne-dash c h.chars.0))
trim_left-EndsWith (c ∷ x) r h = elim (Bool-cases (c == b'-')) [
  | inl e ↦ rw e (trim_left-EndsWith x r h)
  | inr e ↦ rw e (c ∷ x, refl)
]

trim_dash_prefix-EndsWith : (x r : Text) → IsHash r → EndsWith r (trim_dash_prefix (x ++ r))
unfolding trim_dash_prefix
trim_dash_prefix-EndsWith [] [] h = absurd (h.nonempty refl)
trim_dash_prefix-EndsWith [] (c ∷ r) h = ([], ground (arith, is_alnum-ne-dash c h.chars.0))
trim_dash_prefix-EndsWith (c ∷ x) r h = elim (Bool-cases (c == b'-')) [
  | inl e ↦ rw e (x, refl)
  | inr e ↦ rw e (c ∷ x, refl)
]

sanitize_name-EndsWith : (x r : Text) → IsHash r → EndsWith r (sanitize_name (x ++ r))
unfolding sanitize_name
sanitize_name-EndsWith x r h =
    let (y, e) = trim_left-EndsWith (map sanitize_char x) r h in
    (y, rw (map-append, map-sanitize_char r h.chars, e) (trim_right-append y r h))

drop-EndsWith : (n : ℕ) (x r : Text) → n ≤ length x → EndsWith r (drop n (x ++ r))
drop-EndsWith zero x r h = (x, refl)
drop-EndsWith (suc n) [] r h = absurd (omega arith)
drop-EndsWith (suc n) (c ∷ x) r h = drop-EndsWith n x r (omega arith)

revision_part-EndsWith :
    (x r : Text) → IsHash r → length r ≤ 24 → EndsWith r (revision_part (x ++ r))
unfolding revision_part
revision_part-EndsWith x r h short = elim (Bool-cases (ltb 24 (length (x ++ r)))) [
  | inl e ↦
      let long : length (x ++ r) - 24 ≤ length x = ground (arith, length-append x r) in
      let (y, d) = drop-EndsWith (length (x ++ r) - 24) x r long in
      rw (e, d) (trim_dash_prefix-EndsWith y r h)
  | inr e ↦ rw e (x, refl)
]

length-trim_dash_prefix-le : (s : Text) → length (trim_dash_prefix s) ≤ length s
unfolding trim_dash_prefix
length-trim_dash_prefix-le [] = omega arith
length-trim_dash_prefix-le (c ∷ s) = ground arith

length-trim_dash_suffix-le : (s : Text) → length (trim_dash_suffix s) ≤ length s
unfolding trim_dash_suffix
length-trim_dash_suffix-le [] = omega arith
length-trim_dash_suffix-le (c ∷ s) = ground (arith, length-trim_dash_suffix-le s)

length-revision_part : (s : Text) → length (revision_part s) ≤ 24
unfolding revision_part
length-revision_part s =
    ground
      (arith, length-trim_dash_prefix-le (drop (length s - 24) s), length-drop (length s - 24) s)

length-policy_part :
    (p rev : Text) → length rev ≤ 24 → length (policy_part p rev) ≤ max_policy_len rev
unfolding policy_part
length-policy_part p rev short = ground (
  arith,
  length-trim_dash_suffix-le (take (max_policy_len rev) p),
  length-take-le (max_policy_len rev) p,
)

truncate_short : (n : ℕ) (s : Text) → length s ≤ n → truncate n s ≡ s
unfolding truncate
truncate_short n s h = ground arith

-- A name that fits and ends in a hash is not cut.
cap_name_hash : (x r : Text) → IsHash r → length (x ++ r) ≤ 63 → cap_name (x ++ r) ≡ x ++ r
unfolding cap_name
cap_name_hash x r h fits = ap trim_right (truncate_short 63 (x ++ r) fits) ∙ trim_right-append x r h

fits :
    (p rev : Text)
    → length p ≤ max_policy_len rev
    → length rev ≤ 24
    → length (job_prefix ++ (p ++ b'-' ∷ rev)) ≤ 63
fits p rev h k =
    omega (arith, length-append p (b'-' ∷ rev), length-append job_prefix (p ++ b'-' ∷ rev))

regroup : (a p z r : Text) → a ++ (p ++ b'-' ∷ (z ++ r)) ≡ (a ++ (p ++ b'-' ∷ z)) ++ r
regroup a p z r = simp append_assoc

cap_name_whole :
    (a p z r : Text)
    → IsHash r
    → length (a ++ (p ++ b'-' ∷ (z ++ r))) ≤ 63
    → cap_name (a ++ (p ++ b'-' ∷ (z ++ r))) ≡ (a ++ (p ++ b'-' ∷ z)) ++ r
cap_name_whole a p z r h room =
    ap cap_name (regroup a p z r)
    ∙ cap_name_hash (a ++ (p ++ b'-' ∷ z)) r h (subst (λ t. length t ≤ 63) (regroup a p z r) room)

-- The name of a probe Job ends with the revision hash that ends the secret's name, for every hash
-- of one to 24 letters and digits: the policy's name is cut to make room for it.
pub derive_probe_job_name-EndsWith :
    (policy_name x r : Text)
    → IsHash r
    → length r ≤ 24
    → EndsWith r (derive_probe_job_name policy_name (x ++ r))
unfolding derive_probe_job_name
derive_probe_job_name-EndsWith policy_name x r h short =
    let (y, e) = sanitize_name-EndsWith x r h in
    let (z, f) = revision_part-EndsWith y r h short in
    let policy = policy_part (sanitize_name policy_name) (z ++ r) in
    let room = length-revision_part (y ++ r) in
    let small : length (z ++ r) ≤ 24 = rw f at room in
    let whole =
      fits policy (z ++ r) (length-policy_part (sanitize_name policy_name) (z ++ r) small) small in
    (job_prefix ++ (policy ++ b'-' ∷ z), rw (e, f) (cap_name_whole job_prefix policy z r h whole))

append_inj : (x y r s : Text) → length r ≡ length s → x ++ r ≡ y ++ s → r ≡ s
append_inj [] [] r s h e = e
append_inj [] (d ∷ y) r s h e = absurd (omega (arith, ap length e, length-append y s))
append_inj (c ∷ x) [] r s h e = absurd (omega (arith, ap length e, length-append x r))
append_inj (c ∷ x) (d ∷ y) r s h e = append_inj x y r s h (cc)

-- Two revisions of one policy's secret, with hashes of one length, never share a probe Job: equal
-- Job names come from equal hashes.
pub derive_probe_job_name_injective :
    (policy_name x y r s : Text)
    → IsHash r
    → IsHash s
    → length r ≤ 24
    → length r ≡ length s
    → derive_probe_job_name policy_name (x ++ r) ≡ derive_probe_job_name policy_name (y ++ s)
    → r ≡ s
derive_probe_job_name_injective policy_name x y r s h k short same e =
    let (v, p) = derive_probe_job_name-EndsWith policy_name x r h short in
    let (w, q) = derive_probe_job_name-EndsWith policy_name y s k (omega arith) in
    append_inj v w r s same (sym p ∙ e ∙ q)
