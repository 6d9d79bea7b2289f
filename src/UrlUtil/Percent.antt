-- ===== src/UrlUtil/Percent.antt =====
-- Percent-encoding (internal/urlutil/normalize.go: isUnreserved, hexVal, normalizePercentEncoding).
-- A text is a list of bytes; hexVal's -1 is `none`.
pub mod Tokens
pub mod Idempotent
pub mod Keep
use seo_crawler_mcp.Prelude.{
  ℕ, ◌+◌, ◌-◌, ◌*◌, ◌/◌, ◌%◌, Bool, ◌&&◌, ◌||◌, Option, none, some, List, [], ◌∷◌, ◌++◌, Bytes,
  codes, leb, ◌==◌, if◌then◌else◌, get_or, drop,
}

unfoldable pub is_unreserved : ℕ → Bool
is_unreserved b =
    (leb b'A' b && leb b b'Z')
    || (leb b'a' b && leb b b'z')
    || (leb b'0' b && leb b b'9')
    || (b == b'-' || b == b'.' || b == b'_' || b == b'~')

abbrev pub hex_digits : Bytes
hex_digits = codes "0123456789ABCDEF"

unfoldable pub hex_val : ℕ → Option ℕ
hex_val c =
    if leb b'0' c && leb c b'9'
    then some (c - b'0')
    else if leb b'a' c && leb c b'f'
    then some (c - b'a' + 10)
    else if leb b'A' c && leb c b'F'
    then some (c - b'A' + 10)
    else none

-- `byte(hi<<4 | lo)` where both are digits.
unfoldable pub decode_pair : ℕ → ℕ → Option ℕ
decode_pair h l = elim (hex_val h) [
  | none ↦ none
  | some hi ↦ elim (hex_val l) [ none ↦ none | some lo ↦ some (hi * 16 + lo) ]
]

unfoldable pub encode_byte : ℕ → Bytes
encode_byte b = b'%' ∷ get_or hex_digits (b / 16) 0 ∷ get_or hex_digits (b % 16) 0 ∷ []

unfoldable pub write_triplet : Bool → ℕ → Bytes
write_triplet decode_unreserved b =
    if decode_unreserved && is_unreserved b then b ∷ [] else encode_byte b

unfoldable pub normalize_percent_encoding : Bool → Bytes → Bytes
normalize_percent_encoding d [] = []
normalize_percent_encoding d (c ∷ []) = c ∷ []
normalize_percent_encoding d (c ∷ h ∷ []) = c ∷ h ∷ []
normalize_percent_encoding d (c ∷ h ∷ l ∷ rest) =
    let after = normalize_percent_encoding d rest in
    let next = normalize_percent_encoding d (h ∷ l ∷ rest) in
    if c == b'%'
    then elim (decode_pair h l) [ none ↦ c ∷ next | some b ↦ write_triplet d b ++ after ]
    else c ∷ next
