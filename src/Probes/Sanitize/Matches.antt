-- ===== src/Probes/Sanitize/Matches.antt =====
-- That what internal/probes/sanitize.go writes in the place of a match tells no more than the match.
use dynamic_secret_operator.Prelude.{
  ℕ, zero, suc, ◌+◌, ◌-◌, Text, codes, is_empty, text_eq, has_prefix, Bool, true, false, Option,
  none, some, List, [], ◌∷◌, ◌++◌, take, drop, length, if◌then◌else◌, ◌≡◌, refl, ap, subst, ◌∙◌,
  append_assoc, arith,
}
use dynamic_secret_operator.Controller.Endpoint.{trim_space}
use dynamic_secret_operator.Probes.Escape.{query_escape}
use dynamic_secret_operator.Probes.Sanitize.{
  redacted, replace_matches, match_text, replace_all, redact_sensitive, redact_all,
  match_dsn_password, match_uri_password, span, is_dsn_value, is_uri_value,
}
use dynamic_secret_operator.Probes.Sanitize.Redacts.{
  Weaker, same-Weaker, trans-Weaker, kept-Weaker, cut-Weaker,
}

-- What a match writes keeps some of what it takes, and puts the marker in the place of the rest.
abbrev pub Redacts : ℕ → Text → Text → Option (Text × ℕ) → Type 0
Redacts c s t none = Unit
Redacts c s t (some (new, n)) = Weaker (drop (n - 1) s) t → Weaker (c ∷ s) (new ++ t)

abbrev pub IsRedaction : (Text → Option (Text × ℕ)) → Type 0
IsRedaction match = (c : ℕ) (s t : Text) → Redacts c s t (match (c ∷ s))

pub replace_matches-Weaker :
    (match : Text → Option (Text × ℕ))
    → IsRedaction match
    → (skip : ℕ) (s : Text) → Weaker (drop skip s) (replace_matches match skip s)
unfolding replace_matches
replace_matches-Weaker match r zero [] = same-Weaker []
replace_matches-Weaker match r (suc skip) [] = same-Weaker []
replace_matches-Weaker match r (suc skip) (c ∷ s) = replace_matches-Weaker match r skip s
replace_matches-Weaker match r zero (c ∷ s) =
    by_match (match (c ∷ s)) (r c s) λ skip. replace_matches-Weaker match r skip s
  where
    by_match :
        (m : Option (Text × ℕ))
        → ((t : Text) → Redacts c s t m)
        → ((skip : ℕ) → Weaker (drop skip s) (replace_matches match skip s))
        → Weaker (c ∷ s) (elim m [
          | none ↦ c ∷ replace_matches match zero s
          | some (new, n) ↦ new ++ replace_matches match (n - 1) s
        ])
    by_match none h ih = kept-Weaker c s _ (ih 0)
    by_match (some (new, n)) h ih = h _ (ih (n - 1))

if-Redacts :
    (c : ℕ) (s t new : Text) (n : ℕ) (b : Bool)
    → (b ≡ true → Weaker (drop (n - 1) s) t → Weaker (c ∷ s) (new ++ t))
    → Redacts c s t (if b then some (new, n) else none)
if-Redacts c s t new n true h = h refl
if-Redacts c s t new n false h = tt

pub match_text-IsRedaction : (old : Text) → IsRedaction (match_text old redacted)
match_text-IsRedaction old c s t =
    if-Redacts c s t redacted (length old) _ λ e w. cut-Weaker (suc (length old - 1)) (c ∷ s) t w

drop-nil : (n : ℕ) → drop {A = ℕ} n [] ≡ []
drop-nil zero = refl
drop-nil (suc n) = refl

drop-drop : (j k : ℕ) (s : Text) → drop (j + k) s ≡ drop k (drop j s)
drop-drop zero k s = let e : 0 + k ≡ k = omega arith in ap (λ i. drop i s) e
drop-drop (suc j) k [] = rw (drop-nil (suc j + k), drop-nil k) refl
drop-drop (suc j) k (c ∷ s) =
    let e : suc j + k ≡ suc (j + k) = omega arith in ap (λ i. drop i (c ∷ s)) e ∙ drop-drop j k s

take-Weaker :
    (j k : ℕ) (s t : Text) → Weaker (drop k (drop j s)) t → Weaker s (take j s ++ (redacted ++ t))
take-Weaker zero k s t w = cut-Weaker k s t w
take-Weaker (suc j) k [] t w = cut-Weaker k [] t w
take-Weaker (suc j) k (c ∷ s) t w = kept-Weaker c s _ (take-Weaker j k s t w)

match_dsn_password-IsRedaction : IsRedaction match_dsn_password
unfolding match_dsn_password
match_dsn_password-IsRedaction c s t =
    let n = span is_dsn_value (drop 9 (c ∷ s)) in
    let first : suc (9 + n - 1) ≡ 9 + n = omega arith in
    if-Redacts c s t (take 9 (c ∷ s) ++ redacted) (9 + n) _ λ e w.
      rw (append_assoc (take 9 (c ∷ s)) redacted t) (
        take-Weaker 9 n (c ∷ s) t (
          subst (λ u. Weaker u t) (drop-drop 9 n (c ∷ s))
            (subst (λ i. Weaker (drop i (c ∷ s)) t) first w)))

at_sign :
    (k : ℕ) (s : Text) → has_prefix (drop k s) (codes "@") ≡ true → drop k s ≡ b'@' ∷ drop (suc k) s
unfolding has_prefix
at_sign zero [] e = cc
at_sign zero (c ∷ s) e = ground arith
at_sign (suc k) [] e = cc
at_sign (suc k) (c ∷ s) e = at_sign k s e

match_uri_password-IsRedaction : IsRedaction match_uri_password
unfolding match_uri_password
match_uri_password-IsRedaction c s t =
    let n = span is_uri_value s in
    let both : 2 + n - 1 ≡ suc n = omega arith in
    if-Redacts c s t (codes ":[REDACTED]@") (2 + n) _ λ e w.
      let colon : c ≡ b':' = ground arith in
      let at : has_prefix (drop n s) (codes "@") ≡ true = ground arith in
      rw colon (
        kept-Weaker b':' s _ (
          cut-Weaker n s _
            (rw (at_sign n s at) (kept-Weaker b'@' _ t (subst (λ i. Weaker (drop i s) t) both w)))))

pub replace_all-Weaker : (s old : Text) → Weaker s (replace_all s old redacted)
unfolding replace_all
replace_all-Weaker s old =
    replace_matches-Weaker (match_text old redacted) (match_text-IsRedaction old) 0 s

if-Weaker : (b : Bool) {s x y : Text} → Weaker s x → Weaker s y → Weaker s (if b then x else y)
if-Weaker true v w = v
if-Weaker false v w = w

redact_sensitive-Weaker :
    (sensitive message : Text) → Weaker message (redact_sensitive sensitive message)
unfolding redact_sensitive
redact_sensitive-Weaker sensitive message =
    let trimmed = trim_space sensitive in
    let once = replace_all-Weaker message trimmed in
    if-Weaker (is_empty trimmed) (same-Weaker message) (
      if-Weaker (text_eq (query_escape trimmed) trimmed) once
        (trans-Weaker _ _ _ once (replace_all-Weaker _ (query_escape trimmed))))

pub redact_all-Weaker :
    (sensitive_data : List Text) (message : Text)
    → Weaker message (redact_all sensitive_data message)
unfolding redact_all
redact_all-Weaker [] message = same-Weaker message
redact_all-Weaker (t ∷ sensitive_data) message =
    trans-Weaker _ _ _ (redact_sensitive-Weaker t message)
      (redact_all-Weaker sensitive_data (redact_sensitive t message))

pub regexes-Weaker :
    (s : Text)
    → Weaker s (replace_matches match_uri_password 0 (replace_matches match_dsn_password 0 s))
regexes-Weaker s =
    trans-Weaker _ _ _
      (replace_matches-Weaker match_dsn_password match_dsn_password-IsRedaction 0 s)
      (replace_matches-Weaker match_uri_password match_uri_password-IsRedaction 0 _)
