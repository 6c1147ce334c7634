-- ===== src/Probes/Sanitize/Redacts.antt =====
-- That internal/probes/sanitize.go leaves no sensitive text in a message.
use dynamic_secret_operator.Prelude.{
  ℕ, zero, suc, Text, codes, has_prefix, contains, true, false, ◌||◌, IsPart, [], ◌∷◌, ◌++◌, drop,
  ◌≡◌, refl, sym, ap, ◌∙◌, arith,
}
use dynamic_secret_operator.Probes.Sanitize.{redacted}

-- A text without brackets, and one that moreover is not empty and not a part of the marker.
abbrev pub IsBare : Text → Type 0
IsBare p = IsPart b'[' p × IsPart b']' p

pub record IsHidden (p : Text) : Type 0 where
  pub bare : IsBare p
  pub unmarked : contains redacted p ≡ false

-- A message tells less than another: it begins with a text without brackets, or contains a text that
-- is hidden, only if the other does.
pub record Weaker (s t : Text) : Type 0 where
  pub prefix : (p : Text) → IsBare p → has_prefix t p ≡ true → has_prefix s p ≡ true
  pub inside : (p : Text) → IsHidden p → contains t p ≡ true → contains s p ≡ true

prefix_bracket : (p : Text) (s : Text) → IsBare p → has_prefix (b'[' ∷ s) p ≡ true → p ≡ []
unfolding has_prefix
prefix_bracket [] s h e = refl
prefix_bracket (d ∷ p) s h e = ground arith

has_prefix-nil : (s : Text) → has_prefix s [] ≡ true
unfolding has_prefix
has_prefix-nil [] = refl
has_prefix-nil (c ∷ s) = refl

-- Behind a closing bracket, an occurrence of a text without brackets begins anew.
prefix-append :
    (a : Text) (o p : Text)
    → IsBare p
    → has_prefix (a ++ (b']' ∷ o)) p ≡ has_prefix (a ++ (b']' ∷ [])) p
unfolding has_prefix
prefix-append a o [] h = ground arith
prefix-append [] o (d ∷ p) ((n, h), (m, k)) = ground arith
prefix-append (c ∷ a) o (d ∷ p) ((n, h), (m, k)) = ground (arith, prefix-append a o p (h, k))

contains-append :
    (a o p : Text)
    → IsBare p
    → contains (a ++ (b']' ∷ o)) p ≡ (contains (a ++ (b']' ∷ [])) p || contains o p)
unfolding contains has_prefix
contains-append [] o [] h = refl
contains-append [] o (d ∷ p) ((n, _), (m, _)) = ground arith
contains-append (c ∷ a) o p h = ground (arith, prefix-append (c ∷ a) o p h, contains-append a o p h)

contains-drop : (n : ℕ) (s p : Text) → contains (drop n s) p ≡ true → contains s p ≡ true
unfolding contains
contains-drop zero s p e = e
contains-drop (suc n) [] p e = e
contains-drop (suc n) (c ∷ s) p e = ground (arith, contains-drop n s p e)

pub same-Weaker : (s : Text) → Weaker s s
same-Weaker s = record { prefix = λ p h e. e; inside = λ p h e. e }

pub trans-Weaker : (s t u : Text) → Weaker s t → Weaker t u → Weaker s u
trans-Weaker s t u v w = record {
  prefix = λ p h e. v.prefix p h (w.prefix p h e);
  inside = λ p h e. v.inside p h (w.inside p h e);
}

kept-prefix :
    (c : ℕ) (s t p : Text)
    → Weaker s t
    → IsBare p
    → has_prefix (c ∷ t) p ≡ true
    → has_prefix (c ∷ s) p ≡ true
unfolding has_prefix
kept-prefix c s t [] w h e = refl
kept-prefix c s t (d ∷ p) w ((_, h), (_, k)) e = ground (arith, w.prefix p (h, k))

-- A character that is kept.
pub kept-Weaker : (c : ℕ) (s t : Text) → Weaker s t → Weaker (c ∷ s) (c ∷ t)
unfolding contains
kept-Weaker c s t w = record {
  prefix = λ p h e. kept-prefix c s t p w h e;
  inside = λ p h e. ground (arith, kept-prefix c s t p w h.bare, w.inside p h);
}

pub cut-inside : (o p : Text) → IsHidden p → contains (redacted ++ o) p ≡ contains o p
cut-inside o p h =
    contains-append (codes "[REDACTED") o p h.bare ∙ ap (λ b. b || contains o p) h.unmarked

cut-prefix :
    (o p : Text) (s : Text) → IsBare p → has_prefix (redacted ++ o) p ≡ true → has_prefix s p ≡ true
cut-prefix o p s h e = rw (prefix_bracket p _ h e) (has_prefix-nil s)

-- Characters in whose place the marker stands.
pub cut-Weaker : (n : ℕ) (s t : Text) → Weaker (drop n s) t → Weaker s (redacted ++ t)
cut-Weaker n s t w = record {
  prefix = λ p h e. cut-prefix t p s h e;
  inside = λ p h e. contains-drop n s p (w.inside p h (sym (cut-inside t p h) ∙ e));
}
