-- ===== src/Probes/Escape.antt =====
-- `url.QueryEscape` of Go's `net/url`, by which internal/probes/postgres.go and
-- internal/probes/sanitize.go escape a text, over the bytes of its UTF-8 encoding.
pub mod Userinfo
use mathlib.Core.List.{flat_map}
use Prim.Native.Nat.{◌/◌, ◌%◌}
use dynamic_secret_operator.Prelude.{
  ℕ, ◌+◌, Text, Bool, ◌&&◌, ◌||◌, List, [], ◌∷◌, ltb, leb, ◌==◌, if◌then◌else◌,
}

-- The bytes of a code point.
unfoldable pub utf8_char : ℕ → List ℕ
utf8_char c =
    if ltb c 0x80
    then c ∷ []
    else if ltb c 0x800
    then (0xc0 + c / 64) ∷ (0x80 + c % 64) ∷ []
    else if ltb c 0x10000
    then (0xe0 + c / 4096) ∷ (0x80 + c / 64 % 64) ∷ (0x80 + c % 64) ∷ []
    else (0xf0 + c / 262144) ∷ (0x80 + c / 4096 % 64) ∷ (0x80 + c / 64 % 64) ∷ (0x80 + c % 64) ∷ []

unfoldable pub utf8 : Text → List ℕ
utf8 s = flat_map utf8_char s

-- The bytes that no mode of `shouldEscape` escapes.
unfoldable pub is_unreserved : ℕ → Bool
is_unreserved c =
    (leb b'a' c && leb c b'z')
    || ((leb b'A' c && leb c b'Z')
        || ((leb b'0' c && leb c b'9')
            || ((c == b'-') || ((c == b'_') || ((c == b'.') || (c == b'~'))))))

-- A digit of "0123456789ABCDEF".
unfoldable pub upper_hex : ℕ → ℕ
upper_hex d = if ltb d 10 then d + 48 else d + 55

unfoldable pub escape_byte : ℕ → Text
unfolding is_unreserved upper_hex
escape_byte c =
    if is_unreserved c
    then c ∷ []
    else if c == b' '
    then b'+' ∷ []
    else b'%' ∷ upper_hex (c / 16) ∷ upper_hex (c % 16) ∷ []

unfoldable pub query_escape : Text → Text
unfolding utf8 escape_byte
query_escape s = flat_map escape_byte (utf8 s)
