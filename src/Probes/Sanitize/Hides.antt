-- ===== src/Probes/Sanitize/Hides.antt =====
-- That internal/probes/sanitize.go leaves no sensitive text in a message.
use dynamic_secret_operator.Prelude.{
  ℕ, zero, suc, ◌-◌, Text, codes, is_empty, text_eq, has_prefix, contains, Bool, true, false,
  Option, none, some, List, [], ◌∷◌, ◌++◌, length, if◌then◌else◌, ◌≡◌, refl, ◌∙◌, arith,
}
use dynamic_secret_operator.Controller.Endpoint.{trim_space}
use dynamic_secret_operator.Probes.Escape.{query_escape}
use dynamic_secret_operator.Probes.Sanitize.{
  redacted, replace_matches, match_text, replace_all, redact_sensitive, redact_all,
  sanitize_db_error,
}
use dynamic_secret_operator.Probes.Sanitize.Redacts.{IsHidden, Weaker, kept-Weaker, cut-inside}
use dynamic_secret_operator.Probes.Sanitize.Matches.{
  replace_matches-Weaker, match_text-IsRedaction, replace_all-Weaker, redact_all-Weaker,
  regexes-Weaker,
}

nil-has_prefix : (p : Text) → IsHidden p → has_prefix [] p ≡ false
unfolding has_prefix contains
nil-has_prefix [] h = h.unmarked
nil-has_prefix (d ∷ p) h = refl

-- A hidden text that is replaced is gone.
replace_matches-match_text :
    (old : Text)
    → IsHidden old
    → (skip : ℕ) (s : Text)
    → contains (replace_matches (match_text old redacted) skip s) old ≡ false
unfolding replace_matches contains
replace_matches-match_text old h skip [] = nil-has_prefix old h
replace_matches-match_text old h (suc skip) (c ∷ s) = replace_matches-match_text old h skip s
replace_matches-match_text old h zero (c ∷ s) =
    by_prefix (has_prefix (c ∷ s) old) refl λ skip. replace_matches-match_text old h skip s
  where
    run : ℕ → Text
    run skip = replace_matches (match_text old redacted) skip s

    given : Bool → Option (Text × ℕ)
    given b = if b then some (redacted, length old) else none

    by_prefix :
        (b : Bool)
        → has_prefix (c ∷ s) old ≡ b
        → ((skip : ℕ) → contains (run skip) old ≡ false)
        → contains
            (elim (given b) as (λ _. Text) [
              | none ↦ c ∷ run 0
              | some (new, n) ↦ new ++ run (n - 1)
            ])
            old
          ≡ false
    by_prefix true e ih = cut-inside (run (length old - 1)) old h ∙ ih (length old - 1)
    by_prefix false e ih =
        let kept =
          kept-Weaker c s (run 0)
            (replace_matches-Weaker (match_text old redacted) (match_text-IsRedaction old) 0 s) in
        ground (arith, kept.prefix old h.bare, ih 0)

-- What a weaker message than one without a hidden text has: not that text.
without : (s t p : Text) → Weaker s t → IsHidden p → contains s p ≡ false → contains t p ≡ false
without s t p w h e = ground (arith, w.inside p h)

hidden_ne : (p : Text) → IsHidden p → is_empty p ≡ false
unfolding contains has_prefix
hidden_ne [] h = h.unmarked
hidden_ne (c ∷ p) h = refl

redact_sensitive-hides :
    (sensitive message : Text)
    → IsHidden (trim_space sensitive)
    → contains (redact_sensitive sensitive message) (trim_space sensitive) ≡ false
unfolding redact_sensitive replace_all
redact_sensitive-hides sensitive message h =
    let trimmed = trim_space sensitive in
    let once = replace_matches-match_text trimmed h 0 message in
    let twice =
      without _ _ trimmed
        (replace_all-Weaker (replace_all message trimmed redacted) (query_escape trimmed)) h once in
    rw (redact_sensitive, hidden_ne trimmed h)
      (if_false (text_eq (query_escape trimmed) trimmed) _ _ once twice)
  where
    if_false :
        (b : Bool) (x y : Text)
        → contains x (trim_space sensitive) ≡ false
        → contains y (trim_space sensitive) ≡ false
        → contains (if b then x else y) (trim_space sensitive) ≡ false
    if_false true x y e i = e
    if_false false x y e i = i

redact_all-hides :
    (before after : List Text) (sensitive message : Text)
    → IsHidden (trim_space sensitive)
    → contains (redact_all (before ++ (sensitive ∷ after)) message) (trim_space sensitive) ≡ false
unfolding redact_all
redact_all-hides [] after sensitive message h =
    without _ _ _ (redact_all-Weaker after (redact_sensitive sensitive message)) h
      (redact_sensitive-hides sensitive message h)
redact_all-hides (t ∷ before) after sensitive message h =
    redact_all-hides before after sensitive (redact_sensitive t message) h

-- The message of a sanitized error is a fixed text and behind it one that does not contain the
-- sensitive text, without the white space around it: this for each of the sensitive texts, at any
-- place of their list, that without that white space has no brackets and is no part of the marker
-- "[REDACTED]", as the empty text is.
pub sanitize_db_error-hides :
    (message : Text) (before after : List Text) (sensitive : Text)
    → IsHidden (trim_space sensitive)
    → (rest : Text) × (sanitize_db_error message (before ++ (sensitive ∷ after))
        ≡ codes "database authentication failed: " ++ rest)
      × (contains rest (trim_space sensitive) ≡ false)
unfolding sanitize_db_error
sanitize_db_error-hides message before after sensitive h = (
  _,
  refl,
  without _ _ _ (regexes-Weaker _) h (redact_all-hides before after sensitive message h),
)
