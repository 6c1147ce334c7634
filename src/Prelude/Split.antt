-- ===== src/Prelude/Split.antt =====
-- `strings.Split` and `strings.Join` at one character, and their round trips.
use Prim.Native.Nat.{ℕ}
use mathlib.Core.Path.{◌≡◌, refl, ap}
use mathlib.Core.Logic.{◌≢◌}
use mathlib.Core.List.{List, [], ◌∷◌, ◌++◌}
use native.Mathlib.Omega.{arith}
use dynamic_secret_operator.Prelude.Tests.{◌==◌, if◌then◌else◌}
use dynamic_secret_operator.Prelude.Lists.{All}
use mathlib.Core.Option.{none, some}
use dynamic_secret_operator.Prelude.Texts.{Text, cut_first, cut_last}

-- The character in front of the first part.
abbrev pub onto_first : ℕ → List Text → List Text
onto_first c [] = (c ∷ []) ∷ []
onto_first c (p ∷ ps) = (c ∷ p) ∷ ps

unfoldable pub split : ℕ → Text → List Text
split sep [] = [] ∷ []
split sep (c ∷ s) = let rest = split sep s in if c == sep then [] ∷ rest else onto_first c rest

unfoldable pub join : ℕ → List Text → Text
join sep [] = []
join sep (p ∷ []) = p
join sep (p ∷ (q ∷ ps)) = p ++ (sep ∷ join sep (q ∷ ps))

-- A part that the separator does not cut.
abbrev pub IsPart : ℕ → Text → Type 0
IsPart sep p = All (λ c. c ≢ sep) p

pub split_part : (sep : ℕ) (p : Text) → IsPart sep p → split sep p ≡ p ∷ []
unfolding split
split_part sep [] h = refl
split_part sep (c ∷ p) (n, h) = ground (arith, split_part sep p h)

pub split-append :
    (sep : ℕ) (p s : Text) → IsPart sep p → split sep (p ++ (sep ∷ s)) ≡ p ∷ split sep s
unfolding split
split-append sep [] s h = ground arith
split-append sep (c ∷ p) s (n, h) = ground (arith, split-append sep p s h)

-- Splitting reads back every list of parts that was joined, if none holds the separator.
pub split-join :
    (sep : ℕ) (p : Text) (ps : List Text)
    → All (IsPart sep) (p ∷ ps)
    → split sep (join sep (p ∷ ps)) ≡ p ∷ ps
unfolding join
split-join sep p [] (h, _) = split_part sep p h
split-join sep p (q ∷ ps) (h, t) =
    rw (split-append sep p (join sep (q ∷ ps)) h) (ap (λ r. p ∷ r) (split-join sep q ps t))

-- What a cut at a separator gives of a text in which the separator stands as written.
pub cut_first-append :
    (sep : ℕ) (a b : Text) → IsPart sep a → cut_first sep (a ++ (sep ∷ b)) ≡ some (a, b)
unfolding cut_first
cut_first-append sep [] b h = ground arith
cut_first-append sep (c ∷ a) b (n, h) = ground (arith, cut_first-append sep a b h)

pub cut_first_part : (sep : ℕ) (a : Text) → IsPart sep a → cut_first sep a ≡ none
unfolding cut_first
cut_first_part sep [] h = refl
cut_first_part sep (c ∷ a) (n, h) = ground (arith, cut_first_part sep a h)

cut_last_part : (sep : ℕ) (b : Text) → IsPart sep b → cut_last sep b ≡ none
unfolding cut_last
cut_last_part sep [] h = refl
cut_last_part sep (c ∷ b) (n, h) = ground (arith, cut_last_part sep b h)

pub cut_last-append :
    (sep : ℕ) (a b : Text) → IsPart sep b → cut_last sep (a ++ (sep ∷ b)) ≡ some (a, b)
unfolding cut_last
cut_last-append sep [] b h = ground (arith, cut_last_part sep b h)
cut_last-append sep (c ∷ a) b h = rw (cut_last, cut_last-append sep a b h) refl
