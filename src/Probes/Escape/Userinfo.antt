-- ===== src/Probes/Escape/Userinfo.antt =====
-- What `url.QueryEscape` writes, and what a URL's user information reads of it.
use mathlib.Core.List.{flat_map}
use Prim.Native.Nat.{◌/◌, ◌%◌}
use mathlib.Core.Option
use dynamic_secret_operator.Prelude.{
  ℕ, ◌+◌, ◌-◌, ◌*◌, ◌<◌, Text, Bool-cases, ==_iff, inl, inr, true, false, ◌&&◌, Option, none, some,
  List, [], ◌∷◌, ◌++◌, map, All, All-append, leb, ◌==◌, if◌then◌else◌, ◌≡◌, ◌≢◌, IsPart, refl, sym,
  ap, ◌∙◌, arith,
}
use dynamic_secret_operator.Probes.Escape.{
  is_unreserved, upper_hex, escape_byte, utf8, utf8_char, query_escape,
}

-- `unhex`, with `ishex`.
unhex : ℕ → Option ℕ
unhex c =
    if leb b'0' c && leb c b'9'
    then some (c - 48)
    else if leb b'A' c && leb c b'F'
    then some (c - 55)
    else if leb b'a' c && leb c b'f'
    then some (c - 87)
    else none

-- Where the reading of a percent escape stands.
pub data Pending : Type 0 where
  plain first_digit : Pending
  second_digit : ℕ → Pending

-- `unescape` of `net/url` in the mode of user information, as RFC 3986 has it: a percent sign and
-- two hexadecimal digits stand for a byte, and every other byte, a plus sign too, for itself.
unfoldable unescape_from : Pending → Text → Option (List ℕ)
unfolding unhex
unescape_from plain [] = some []
unescape_from first_digit [] = none
unescape_from (second_digit h) [] = none
unescape_from plain (c ∷ s) =
    let escaped = unescape_from first_digit s in
    let rest = unescape_from plain s in if c == b'%' then escaped else Option.map (λ t. c ∷ t) rest
unescape_from first_digit (c ∷ s) = elim (unhex c) [
  | none ↦ none
  | some h ↦ unescape_from (second_digit h) s
]
unescape_from (second_digit h) (c ∷ s) = elim (unhex c) [
  | none ↦ none
  | some l ↦ Option.map (λ t. (h * 16 + l) ∷ t) (unescape_from plain s)
]

unfoldable pub unescape : Text → Option (List ℕ)
unfolding unescape_from
unescape s = unescape_from plain s

-- What is left of a byte: a space has become a plus sign.
abbrev pub plus : ℕ → ℕ
plus c = if c == b' ' then b'+' else c

unhex-upper_hex : (d : ℕ) → d < 16 → unhex (upper_hex d) ≡ some d
unfolding unhex upper_hex
unhex-upper_hex d h = ground arith

unreserved_ne : (c d : ℕ) → is_unreserved d ≡ false → is_unreserved c ≡ true → (c == d) ≡ false
unreserved_ne c d h e = ground (arith, ==_iff c d)

unescape-percent :
    (a b h l : ℕ) (rest : Text)
    → unhex a ≡ some h
    → unhex b ≡ some l
    → unescape_from plain (b'%' ∷ (a ∷ (b ∷ rest)))
      ≡ Option.map (λ t. (h * 16 + l) ∷ t) (unescape_from plain rest)
unfolding unescape_from
unescape-percent a b h l rest ea eb =
    ap
      (λ (o : Option ℕ). elim o [
        | none ↦ none
        | some d ↦ unescape_from (second_digit d) (b ∷ rest)
      ])
      ea
    ∙ ap
        (λ (o : Option ℕ). elim o [
          | none ↦ none
          | some d ↦ Option.map (λ t. (h * 16 + d) ∷ t) (unescape_from plain rest)
        ])
        eb

unescape-escape_byte :
    (c : ℕ) (rest : Text)
    → c < 256
    → unescape_from plain (escape_byte c ++ rest)
      ≡ Option.map (λ t. plus c ∷ t) (unescape_from plain rest)
unfolding escape_byte unescape_from
unescape-escape_byte c rest h = elim (Bool-cases (is_unreserved c)) [
  | inl e ↦
      rw (escape_byte, e, unescape_from, unreserved_ne c b'%' refl e, unreserved_ne c b' ' refl e)
        refl
  | inr e ↦ elim (Bool-cases (c == b' ')) [
    | inl i ↦ rw (escape_byte, e, i) refl
    | inr i ↦
        let digits =
          unescape-percent (upper_hex (c / 16)) (upper_hex (c % 16)) (c / 16) (c % 16) rest
            (unhex-upper_hex (c / 16) (omega arith)) (unhex-upper_hex (c % 16) (omega arith)) in
        let whole : c / 16 * 16 + c % 16 ≡ c = omega arith in
        rw (escape_byte, e, i)
          (digits ∙ ap (λ d. Option.map (λ t. d ∷ t) (unescape_from plain rest)) whole)
  ]
]

unescape-flat_map :
    (bytes : List ℕ)
    → All (λ c. c < 256) bytes
    → unescape (flat_map escape_byte bytes) ≡ some (map plus bytes)
unfolding unescape flat_map
unescape-flat_map [] _ = refl
unescape-flat_map (c ∷ bytes) (h, hs) =
    unescape-escape_byte c (flat_map escape_byte bytes) h
    ∙ ap (Option.map (λ t. plus c ∷ t)) (unescape-flat_map bytes hs)

utf8_char-IsBytes : (c : ℕ) → c < 0x110000 → All (λ b. b < 256) (utf8_char c)
unfolding utf8_char
utf8_char-IsBytes c h = ground arith

abbrev pub IsCodePoints : Text → Type 0
IsCodePoints s = All (λ c. c < 0x110000) s

utf8-IsBytes : (s : Text) → IsCodePoints s → All (λ b. b < 256) (utf8 s)
unfolding utf8 flat_map
utf8-IsBytes [] _ = tt
utf8-IsBytes (c ∷ s) (h, hs) =
    All-append _ (utf8_char c) (flat_map utf8_char s) (utf8_char-IsBytes c h) (utf8-IsBytes s hs)

-- What is read of an escaped text is its bytes, with a plus sign for every space.
pub unescape-query_escape :
    (s : Text) → IsCodePoints s → unescape (query_escape s) ≡ some (map plus (utf8 s))
unfolding query_escape
unescape-query_escape s h = unescape-flat_map (utf8 s) (utf8-IsBytes s h)

-- The characters that an escaped text does not have.
pub record IsReserved (d : ℕ) : Type 0 where
  pub reserved : is_unreserved d ≡ false
  pub not_plus : d ≢ b'+'
  pub not_percent : d ≢ b'%'

upper_hex_unreserved : (x : ℕ) → x < 16 → is_unreserved (upper_hex x) ≡ true
unfolding upper_hex is_unreserved
upper_hex_unreserved x h = ground arith

reserved_ne : (d c : ℕ) → is_unreserved d ≡ false → is_unreserved c ≡ true → c ≢ d
reserved_ne d c h e = ground arith

escape_byte-IsPart : (d c : ℕ) → IsReserved d → c < 256 → IsPart d (escape_byte c)
unfolding escape_byte
escape_byte-IsPart d c r h = elim (Bool-cases (is_unreserved c)) [
  | inl e ↦ rw (escape_byte, e) (reserved_ne d c r.reserved e, tt)
  | inr e ↦ elim (Bool-cases (c == b' ')) [
    | inl i ↦ rw (escape_byte, e, i) (λ j. r.not_plus (sym j), tt)
    | inr i ↦
        rw (escape_byte, e, i)
          (
            λ j. r.not_percent (sym j),
            (
              reserved_ne d _ r.reserved (upper_hex_unreserved (c / 16) (omega arith)),
              (reserved_ne d _ r.reserved (upper_hex_unreserved (c % 16) (omega arith)), tt),
            ),
          )
  ]
]

pub query_escape-IsPart :
    (d : ℕ) (s : Text) → IsReserved d → IsCodePoints s → IsPart d (query_escape s)
unfolding query_escape flat_map
query_escape-IsPart d s r h = over (utf8 s) (utf8-IsBytes s h)
  where
    over : (bytes : List ℕ) → All (λ b. b < 256) bytes → IsPart d (flat_map escape_byte bytes)
    over [] _ = tt
    over (c ∷ bytes) (b, bs) =
        All-append _ (escape_byte c) (flat_map escape_byte bytes) (escape_byte-IsPart d c r b)
          (over bytes bs)
